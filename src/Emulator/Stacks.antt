-- ===== src/Emulator/Stacks.antt =====
-- FPEmu, `fpemu.c`: `push`, `pop`, `cpu_reset` and `get_stack`.
use fprcade.Common.{ℕ, true, false, ◌==◌, ltb, if◌then◌else◌, u16, ◌+◌, ◌-◌}
use fprcade.Emulator.State.{
  Stack, CpuContext, ok, fault, M, pure, ◌>>◌, raise, StackId, stack_of, with_stack, max_stack_size,
  dstack_size, rstack_size, cstack_size, tstack_size,
}
use fprcade.Emulator.State.{data_id, return_id, control_id, temp_id}
use fprcade.Emulator.State.{
  all_is_ok, stack_overflow, stack_underflow, illegal_stack_id, stack_array,
}

-- `a[i] = v`.
abbrev pub store : (ℕ → ℕ) → ℕ → ℕ → ℕ → ℕ
store a i v j = if i == j then v else a j

-- The context after the cell is stored and `top` counted up, with the overflow test of `push`.
unfoldable pub pushed : StackId → ℕ → CpuContext → CpuContext
pushed id value c =
    let s = stack_of id c in
    let s' = record s { top = u16 (s.top + 1); values = store s.values s.top (u16 value) } in
    let c' = with_stack id s' c in
    if s'.top == s'.size then record c' { keep_going = false; exception = stack_overflow } else c'

-- The array write is a fault where `top` is past the array.
unfoldable pub push : StackId → ℕ → M (Unit {0})
unfolding pushed
push id value c =
    if ltb (stack_of id c).top max_stack_size then ok (tt, pushed id value c) else fault stack_array

unfoldable pub pop : StackId → M ℕ
pop id c =
    let s = stack_of id c in
    if s.top == 0
    then ok (0xDEAD, record c { keep_going = false; exception = stack_underflow })
    else if ltb (s.top - 1) max_stack_size
    then ok (s.values (s.top - 1), with_stack id (record s { top = s.top - 1 }) c)
    else fault stack_array

abbrev reset_stack : ℕ → Stack → Stack
reset_stack n s = record s { size = n; top = 0 }

-- The cells keep what they held.
unfoldable pub cpu_reset : CpuContext → CpuContext
cpu_reset c = record c {
  data_stack = reset_stack dstack_size c.data_stack;
  return_stack = reset_stack rstack_size c.return_stack;
  control_stack = reset_stack cstack_size c.control_stack;
  temp_stack = reset_stack tstack_size c.temp_stack;
  pc = 0xF000;
  instruction = 0;
  keep_going = true;
  single_step = false;
  exception = all_is_ok;
}

-- The default case still points at the data stack.
unfoldable pub get_stack : ℕ → M StackId
unfolding raise
get_stack stack_id =
    if stack_id == 0
    then pure data_id
    else if stack_id == 1
    then pure return_id
    else if stack_id == 2
    then pure control_id
    else if stack_id == 3
    then pure temp_id
    else raise illegal_stack_id >> pure data_id

-- `DATA_STACK`, `RETURN_STACK`, `CONTROL_STACK` and `TEMP_STACK`.
abbrev pub stack_number : StackId → ℕ
stack_number data_id = 0
stack_number return_id = 1
stack_number control_id = 2
stack_number temp_id = 3
