-- ===== src/Emulator/Flow.antt =====
-- FPEmu, `run` of `fpemu.c`: the groups ENTER, BIF and control (NOP, LEAVE, HALT).
use fprcade.Common.{
  ℕ, false, ◌==◌, if◌then◌else◌, ◌+◌, bit_and, bit_or, pos, i16, to_u16, sub16, u16, neg_ℤ, ltb_ℤ,
  ◌<<<◌,
}
use fprcade.Emulator.State.{
  ok, M, ◌>>=◌, ◌>>◌, raise, advance, set_pc, get_pc, data_id, return_id, illegal_instruction,
}
use fprcade.Emulator.Stacks.{push, pop}

unfoldable pub enter_address : ℕ → ℕ
enter_address instr = u16 (bit_and instr 0x3FFF <<< 2)

unfoldable pub exec_enter : ℕ → M (Unit {0})
unfolding get_pc set_pc enter_address
exec_enter instr = do
  let address = enter_address instr
  pc ← get_pc
  push return_id (pc + 2)
  set_pc address

-- The 12 bit offset, sign extended to an `int16_t` pattern.
unfoldable pub bif_offset : ℕ → ℕ
bif_offset instr =
    let offset = bit_and instr 0x0FFF in
    if bit_and offset 0x0800 == 0 then offset else bit_or offset 0xF000

unfoldable pub bif_target : ℕ → ℕ → ℕ
unfolding bif_offset neg_ℤ
bif_target instr pc =
    let offset = i16 (bif_offset instr) in
    if ltb_ℤ offset (pos 0) then sub16 pc (to_u16 (neg_ℤ offset)) else u16 (pc + to_u16 offset)

unfoldable pub exec_bif : ℕ → M (Unit {0})
unfolding get_pc set_pc advance
exec_bif instr = do
  truth_value ← pop data_id
  pc ← get_pc
  if truth_value == 0 then set_pc (bif_target instr pc) else advance

-- `c->keep_going = false;`
unfoldable pub stop : M (Unit {0})
stop c = ok (tt, record c { keep_going = false })

unfoldable pub exec_leave : M (Unit {0})
unfolding set_pc
exec_leave = do a ← pop return_id; set_pc a

-- The inner `switch`. Each case but LEAVE and the default counts the program counter up itself.
unfoldable pub control_function : ℕ → M (Unit {0})
unfolding exec_leave stop raise advance
control_function func =
    if func == 0x0000
    then advance
    else if func == 0x0100
    then exec_leave
    else if func == 0x0200
    then advance >> stop
    else raise illegal_instruction

-- The whole group: after the inner `switch` the program counter is counted up once more.
unfoldable pub exec_control : ℕ → M (Unit {0})
unfolding control_function advance
exec_control instr = do control_function (bit_and instr 0x0F00); advance
