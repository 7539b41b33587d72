-- ===== src/Emulator/Moves.antt =====
-- FPEmu, `run` of `fpemu.c`: the stack operations (DROP, DUP, SWAP, MOV) and the loads LDL and LDH.
use fprcade.Common.{ℕ, ◌==◌, if◌then◌else◌, bit_and, bit_or, u16, ◌<<<◌, ◌>>>◌}
use fprcade.Emulator.State.{M, pure, ◌>>=◌, ◌>>◌, raise, advance, StackId, illegal_instruction}
use fprcade.Emulator.Stacks.{push, pop, get_stack}

unfoldable pub exec_drop : StackId → M (Unit {0})
exec_drop source = do _ ← pop source; pure tt

unfoldable pub exec_dup : StackId → M (Unit {0})
exec_dup source = do value ← pop source; push source value; push source value

unfoldable pub exec_swap : StackId → M (Unit {0})
exec_swap source = do value ← pop source; value2 ← pop source; push source value; push source value2

unfoldable pub exec_mov : StackId → StackId → M (Unit {0})
exec_mov source target = do value ← pop source; push target value

-- The inner `switch`.
unfoldable pub stack_function : ℕ → StackId → StackId → M (Unit {0})
unfolding exec_drop exec_dup exec_swap exec_mov raise
stack_function func source target =
    if func == 0x0000
    then exec_drop source
    else if func == 0x0100
    then exec_dup source
    else if func == 0x0200
    then exec_swap source
    else if func == 0x0300
    then exec_mov source target
    else raise illegal_instruction

unfoldable pub exec_stack : ℕ → M (Unit {0})
unfolding stack_function get_stack advance
exec_stack instr = do
  source ← get_stack (bit_and instr 0x00C0 >>> 6)
  target ← get_stack (bit_and instr 0x0030 >>> 4)
  stack_function (bit_and instr 0x0F00) source target
  advance

unfoldable pub exec_ldl : ℕ → M (Unit {0})
unfolding get_stack advance
exec_ldl instr = do
  stack ← get_stack (bit_and instr 0x0C00 >>> 10)
  push stack (bit_and instr 0x03FF)
  advance

unfoldable pub exec_ldh : ℕ → M (Unit {0})
unfolding get_stack advance
exec_ldh instr = do
  let high_bits_value = bit_and instr 0x003F
  stack ← get_stack (bit_and instr 0x0C00 >>> 10)
  value ← pop stack
  push stack (u16 (bit_or value (high_bits_value <<< 10)))
  advance
