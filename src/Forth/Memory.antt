-- ===== src/Forth/Memory.antt =====
-- CF_Forth_V2, `ff.c`: the data space and the stacks that stand in it. The machine is little endian, as
-- `fetch16ubits` has it, also where the code reads and writes a cell through a pointer.
use fprcade.Common.{
  ℕ, Bool, ◌==◌, ltb, leb, if◌then◌else◌, u8, u16, sub16, bit_and, bit_or, ◌+◌, ◌-◌, ◌*◌, ◌/◌,
  ◌<<<◌, ◌>>>◌,
}
use fprcade.Forth.State.{
  CellStack, ForthContext, F, ◌>>=◌, ◌>>◌, done, stop, pop_assert, push_assert, out_of_bounds,
  StackName, stack_of, with_stack, ff_memory_size, ff_cell_size, ff_return_stack_size,
  ff_control_stack_size, ff_data_stack_size,
}

-- `dataspace[i]`, where the index is not cut to 16 bits.
unfoldable pub read_at : ℕ → F ℕ
read_at i c = if ltb i ff_memory_size then done (c.dataspace i, c) else stop out_of_bounds

abbrev pub put : (ℕ → ℕ) → ℕ → ℕ → ℕ → ℕ
put d i v j = if i == j then v else d j

-- `dataspace[i] = v;`
unfoldable pub write_at : ℕ → ℕ → F (Unit {0})
write_at i v c =
    if ltb i ff_memory_size
    then done (tt, record c { dataspace = put c.dataspace i (u8 v) })
    else stop out_of_bounds

unfoldable pub align : ℕ → ℕ
align address = u16 (address + bit_and address 0x1)

unfoldable pub will_overflow : CellStack → Bool
will_overflow s = s.where_ + ff_cell_size == s.top

unfoldable pub is_empty : CellStack → Bool
is_empty s = s.where_ == s.bottom

unfoldable pub depth : CellStack → ℕ
depth s =
    if leb s.bottom s.where_
    then u16 ((s.where_ - s.bottom) / 2)
    else sub16 0 ((s.bottom - s.where_) / 2)

unfoldable pub fetch16ubits : ℕ → F ℕ
fetch16ubits i = do v ← read_at (i + 1); w ← read_at i; λ c. done (bit_or (u16 (v <<< 8)) w, c)

unfoldable pub store16ubits : ℕ → ℕ → F (Unit {0})
store16ubits i v = do write_at i (bit_and v 0xFF); write_at (i + 1) (v >>> 8)

unfoldable pub get_where : StackName → F ℕ
get_where s c = done ((stack_of s c).where_, c)

-- `s->where -= FF_CELL_SIZE;` and `s->where += FF_CELL_SIZE;`
unfoldable pub step_down : StackName → F (Unit {0})
step_down s c =
    let t = stack_of s c in
    done (tt, with_stack s (record t { where_ = sub16 t.where_ ff_cell_size }) c)

unfoldable pub step_up : StackName → F (Unit {0})
step_up s c =
    let t = stack_of s c in
    done (tt, with_stack s (record t { where_ = u16 (t.where_ + ff_cell_size) }) c)

unfoldable pub pop_cell : StackName → F ℕ
pop_cell s c =
    if (stack_of s c).where_ == (stack_of s c).bottom
    then stop pop_assert
    else (do step_down s; w ← get_where s; fetch16ubits w) c

unfoldable pub check_top : StackName → F (Unit {0})
check_top s c =
    if (stack_of s c).where_ == (stack_of s c).top then stop push_assert else done (tt, c)

unfoldable pub push_cell : StackName → ℕ → F (Unit {0})
push_cell s v = do w ← get_where s; store16ubits w (u16 v); step_up s; check_top s

-- The stack and the address from which the next one can be claimed.
unfoldable pub init_stack : ℕ → ℕ → CellStack × ℕ
init_stack from size =
    let low = sub16 from (ff_cell_size * size) in
    (record { top = from; bottom = low; where_ = low }, sub16 low ff_cell_size)

unfoldable pub ff_init_all_stacks : ForthContext → ForthContext
ff_init_all_stacks c =
    let first = init_stack (0xFFFF - 1) ff_return_stack_size in
    let second = init_stack first.1 ff_control_stack_size in
    let third = init_stack second.1 ff_data_stack_size in
    record c {
      return_stack = first.0;
      control_stack = second.0;
      data_stack = third.0;
      top = third.1;
    }
