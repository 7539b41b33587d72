-- ===== src/Emulator/Run.antt =====
-- FPEmu, `fpemu.c`: the operators on one value, the fetch, the dispatch on the instruction's group,
-- and the loop of `run`.
use fprcade.Common.{
  ℕ, zero, suc, true, false, Option, none, some, ◌==◌, ◌||◌, ltb, if◌then◌else◌, ◌+◌, ◌-◌, bit_and,
  neg_ℤ, i16, to_u16, u16, ◌<<<◌, ◌>>>◌,
}
use fprcade.Emulator.State.{
  CpuContext, Result, ok, fault, M, ◌>>=◌, ◌>>◌, raise, advance, data_id, illegal_instruction,
  memory_array, Memory, memory_size,
}
use fprcade.Emulator.Stacks.{push, pop}
use fprcade.Emulator.Flow.{exec_enter, exec_bif, exec_control}
use fprcade.Emulator.Moves.{exec_stack, exec_ldl, exec_ldh}
use fprcade.Emulator.Arithmetic.{exec_binary}

-- `*(memory + a)`.
unfoldable pub read_byte : Memory → ℕ → Result ℕ
read_byte memory a = if ltb a memory_size then ok (memory a) else fault memory_array

unfoldable pub exec_neg : M (Unit {0})
unfolding neg_ℤ
exec_neg = do s1 ← pop data_id; push data_id (to_u16 (neg_ℤ (i16 s1)))

unfoldable pub exec_not : M (Unit {0})
exec_not = do n1 ← pop data_id; push data_id (0xFFFF - n1)

-- `push(c, stack, *(memory + address))`.
unfoldable pub push_byte : Memory → ℕ → M (Unit {0})
unfolding read_byte
push_byte memory address c = elim (read_byte memory address) [
  | fault e ↦ fault e
  | ok byte ↦ push data_id byte c
]

-- A read from the I/O space, or of more than a byte, is not implemented.
unfoldable pub rd_action : Memory → ℕ → ℕ → M (Unit {0})
unfolding raise push_byte
rd_action memory instr address =
    if bit_and instr 0x40 == 0
    then (if bit_and instr 0x03 == 1 then push_byte memory address else raise illegal_instruction)
    else raise illegal_instruction

unfoldable pub exec_rd : Memory → ℕ → M (Unit {0})
unfolding rd_action
exec_rd memory instr = do address ← pop data_id; rd_action memory instr address

-- The inner `switch`.
unfoldable pub unary_function : ℕ → Memory → ℕ → M (Unit {0})
unfolding raise
unary_function func memory instr =
    if func == 0x00
    then exec_neg
    else if func == 0x01
    then exec_not
    else if func == 0x02
    then exec_rd memory instr
    else raise illegal_instruction

unfoldable pub exec_unary : Memory → ℕ → M (Unit {0})
unfolding unary_function advance
exec_unary memory instr = do unary_function (bit_and instr 0x0F00 >>> 8) memory instr; advance

-- Little endian.
unfoldable pub fetch_instruction : Memory → ℕ → Result ℕ
unfolding read_byte
fetch_instruction memory pc = elim (read_byte memory pc) [
  | fault e ↦ fault e
  | ok lsb ↦ elim (read_byte memory (pc + 1)) [
    | fault e ↦ fault e
    | ok msb ↦ ok (u16 (u16 (msb <<< 8) + lsb))
  ]
]

-- The outer `switch`.
unfoldable pub execute : Memory → ℕ → M (Unit {0})
unfolding raise advance
execute memory instr =
    let group = bit_and instr 0xF000 in
    if group == 0x4000 || (group == 0x5000 || (group == 0x6000 || group == 0x7000))
    then exec_enter instr
    else if group == 0x1000
    then exec_bif instr
    else if group == 0x8000
    then exec_control instr
    else if group == 0xB000
    then exec_stack instr
    else if group == 0xC000
    then exec_ldl instr
    else if group == 0xD000
    then exec_ldh instr
    else if group == 0xE000
    then exec_binary instr
    else if group == 0xF000
    then exec_unary memory instr
    else raise illegal_instruction >> advance

-- The end of the loop's body: in single step mode only one instruction is done.
unfoldable pub end_of_step : CpuContext → CpuContext
end_of_step c = if c.single_step then record c { keep_going = false } else c

-- The loop's body.
unfoldable pub step : Memory → CpuContext → Result CpuContext
unfolding end_of_step
step memory c = elim (fetch_instruction memory c.pc) [
  | fault e ↦ fault e
  | ok instr ↦ elim (execute memory instr (record c { instruction = instr })) [
    | fault e ↦ fault e
    | ok (_, c') ↦ ok (end_of_step c')
  ]
]

-- `while (c->keep_going)` on fuel: `none` means that the fuel ran out.
unfoldable pub run : ℕ → Memory → CpuContext → Option (Result CpuContext)
run zero memory c = none
run (suc fuel) memory c = elim c.keep_going [
  | false ↦ some (ok c)
  | true ↦ elim (step memory c) [ fault e ↦ some (fault e) | ok c' ↦ run fuel memory c' ]
]
