-- ===== src/Toolchain/Execution.antt =====
-- What FPEmu does on the instructions that FAsm emits for ENTER, LEAVE, NOP and LD.
use fprcade.Common.{ℕ, ◌≡◌, ◌≢◌, ◌+◌, ◌%◌, ◌<◌, arith, u16, refl, ◌∙◌}
use fprcade.Assembler.Generators.{enter_code}
use fprcade.Emulator.State.{
  CpuContext, ok, ◌>>◌, return_id, Memory, max_stack_size, get_pc, set_pc, advance,
}
use fprcade.Emulator.Stacks.{push, pushed, pop, store}
use fprcade.Emulator.StackLaws.{push_fits, bind_ok}
use fprcade.Emulator.StackViews.{cells, cells-store}
use native.Mathlib.Nat.{le_refl}
use fprcade.Emulator.Flow.{enter_address, exec_enter, exec_control, control_function, exec_leave}
use fprcade.Emulator.Run.{execute}
use fprcade.Toolchain.Encoding.{enter_code-eq-add, group-eq-div, enter_address-enter_code}

execute-enter_code :
    (memory : Memory) (location : ℕ) (c : CpuContext)
    → execute memory (enter_code location) c ≡ exec_enter (enter_code location) c
unfolding execute
execute-enter_code memory location c =
    ground (arith, enter_code-eq-add location, group-eq-div (enter_code location))

exec_enter_lem :
    (location : ℕ) (c : CpuContext)
    → location < 65536
    → location % 4 ≡ 0
    → c.return_stack.top < max_stack_size
    → exec_enter (enter_code location) c
      ≡ ok (tt, record (pushed return_id (c.pc + 2) c) { pc = location })
unfolding exec_enter get_pc set_pc
exec_enter_lem location c p q r =
    bind_ok (push return_id (c.pc + 2)) (λ _. set_pc (enter_address (enter_code location))) c
      (push_fits return_id (c.pc + 2) c r)
    ∙ jump
  where
    jump :
        set_pc (enter_address (enter_code location)) (pushed return_id (c.pc + 2) c)
        ≡ ok (tt, record (pushed return_id (c.pc + 2) c) { pc = location })
    jump = rw (enter_address-enter_code location p q) (ground arith)

execute_leave :
    (memory : Memory) (c : CpuContext) → execute memory 0x8100 c ≡ (exec_leave >> advance) c
unfolding execute exec_control control_function
execute_leave memory c = refl

-- The context after the call and the return.
abbrev returned : CpuContext → CpuContext
returned c = record (pushed return_id (c.pc + 2) c) {
  pc = u16 (u16 (u16 (c.pc + 2)) + 2);
  return_stack = record (pushed return_id (c.pc + 2) c).return_stack { top = c.return_stack.top };
}

leave_lem :
    (location : ℕ) (c : CpuContext)
    → c.return_stack.top < max_stack_size
    → (exec_leave >> advance) (record (pushed return_id (c.pc + 2) c) { pc = location })
      ≡ ok (tt, returned c)
unfolding exec_leave pop set_pc advance pushed
leave_lem location c r = ground arith

-- A call of an aligned 16 bit address and its return, where the return stack has room for one cell
-- more. LEAVE loads the stored PC + 2 and then counts it up by two once more, so the instruction
-- after the ENTER is passed over; the return stack has the height, the size and the cells that it had,
-- and everything else of the processor is kept.
pub execute-enter_code-leave :
    (memory : Memory) (location : ℕ) (c : CpuContext)
    → location < 65536
    → location % 4 ≡ 0
    → c.return_stack.top < max_stack_size
    → c.return_stack.top + 1 ≢ c.return_stack.size
    → (c' : CpuContext) × ((execute memory (enter_code location) >> execute memory 0x8100) c
        ≡ ok (tt, c'))
      × (c'.pc ≡ (c.pc + 4) % 65536)
      × (c'.return_stack.top ≡ c.return_stack.top)
      × (c'.return_stack.size ≡ c.return_stack.size)
      × (cells c'.return_stack.values c'.return_stack.top
          ≡ cells c.return_stack.values c.return_stack.top)
      × (record c' { pc = c.pc; return_stack = c.return_stack } ≡ c)
unfolding pushed
execute-enter_code-leave memory location c p q r s = (
  returned c,
  bind_ok (execute memory (enter_code location)) (λ _. execute memory 0x8100) c
        (execute-enter_code memory location c ∙ exec_enter_lem location c p q r)
      ∙ execute_leave memory _
      ∙ leave_lem location c r,
  ground arith,
  refl,
  ground arith,
  return_kept
      ∙ cells-store c.return_stack.values c.return_stack.top c.return_stack.top _ (le_refl _),
  others_kept,
)
  where
    others_kept : record (returned c) { pc = c.pc; return_stack = c.return_stack } ≡ c
    others_kept = ground arith

    return_kept :
        cells (returned c).return_stack.values c.return_stack.top
        ≡ cells
            (store c.return_stack.values c.return_stack.top (u16 (c.pc + 2) % 65536))
            c.return_stack.top
    return_kept = ground arith
