-- ===== src/Forth/Safety/Cells.antt =====
-- `push`, `pop` and the guards under the assertions on the stacks, and the pieces that are quiet.
use fprcade.Common.{
  ℕ, ◌≡◌, refl, Bool, false, ◌==◌, ltb, ◌+◌, ◌%◌, ◌≤◌, arith, Bool-cases, inl, inr, u8, u16, sub16,
  bit_and, ◌>>>◌,
}
use fprcade.Forth.State.{
  CellStack, ForthContext, Stop, ◌>>=◌, ◌>>◌, stops, StackName, stack_of, on_control, on_data,
  on_return, ff_memory_size,
}
use fprcade.Forth.Memory.{
  read_at, write_at, fetch16ubits, store16ubits, push_cell, pop_cell, get_where, step_up, step_down,
  check_top, put,
}
use fprcade.Forth.Safety.Rules.{
  Mode, ready, filled, roomy, Has, Placed, Allowed, returns, ends, Ensures, Quiet, bind, bind-Quiet,
  quiet,
}

pub stops-Quiet :
    {A : Type 0} {e : Stop} → ((strict : Bool) → Allowed strict e) → Quiet (stops {A = A} e)
stops-Quiet h strict p c k = ends (h strict)

pub read_at-Quiet : (i : ℕ) → Quiet (read_at i)
unfolding read_at
read_at-Quiet i strict p c h = elim (Bool-cases (ltb i ff_memory_size)) [
  | inl e ↦ rw e (returns h)
  | inr e ↦ rw e (ends tt)
]

pub write_at-Quiet : (i v : ℕ) → Quiet (write_at i v)
unfolding write_at
write_at-Quiet i v strict p c h = elim (Bool-cases (ltb i ff_memory_size)) [
  | inl e ↦ rw e (returns {c = record c { dataspace = put c.dataspace i (u8 v) }} h)
  | inr e ↦ rw e (ends tt)
]

pub fetch16ubits-Quiet : (i : ℕ) → Quiet (fetch16ubits i)
unfolding fetch16ubits
fetch16ubits-Quiet i =
    bind-Quiet (read_at-Quiet (i + 1))
      (λ v. bind-Quiet (read_at-Quiet i) (λ w. λ b p c h. returns h))

pub store16ubits-Quiet : (i v : ℕ) → Quiet (store16ubits i v)
unfolding store16ubits
store16ubits-Quiet i v =
    bind-Quiet (write_at-Quiet i (bit_and v 0xFF)) (λ _. write_at-Quiet (i + 1) (v >>> 8))

get_where-Quiet : (s : StackName) → Quiet (get_where s)
unfolding get_where
get_where-Quiet s strict p c h = returns h

-- The pointer of a stack between its bounds, moved by a cell.
up-Placed :
    {low high : ℕ} (s : CellStack)
    → Placed low high s
    → high ≤ 65534
    → s.where_ + 4 ≤ s.top
    → Placed low high (record s { where_ = u16 (s.where_ + 2) })
up-Placed s h k m = ground arith

down-Placed :
    {low high : ℕ} (s : CellStack)
    → Placed low high s
    → high ≤ 65534
    → low + 2 ≤ s.where_
    → low % 2 ≡ 0
    → Placed low high (record s { where_ = sub16 s.where_ 2 })
down-Placed s h k m e = ground arith

step_up-filled : (s : StackName) (strict : Bool) → Ensures strict (roomy s) (step_up s) (filled s)
unfolding step_up
step_up-filled on_data strict c h = returns (record {
  control_placed = h.control_placed;
  data_placed = up-Placed c.data_stack h.data_placed (omega arith) h.known;
  return_placed = h.return_placed;
  known = omega (arith, h.known, h.data_placed.above);
})
step_up-filled on_return strict c h = returns (record {
  control_placed = h.control_placed;
  data_placed = h.data_placed;
  return_placed = up-Placed c.return_stack h.return_placed (omega arith) h.known;
  known = omega (arith, h.known, h.return_placed.above);
})
step_up-filled on_control strict c h = returns (record {
  control_placed = up-Placed c.control_stack h.control_placed (omega arith) h.known;
  data_placed = h.data_placed;
  return_placed = h.return_placed;
  known = omega (arith, h.known, h.control_placed.above);
})

step_down-roomy :
    (s : StackName) (strict : Bool) → Ensures strict (filled s) (step_down s) (roomy s)
unfolding step_down
step_down-roomy on_data strict c h = returns (record {
  control_placed = h.control_placed;
  data_placed = down-Placed c.data_stack h.data_placed (omega arith) (omega (arith, h.known)) refl;
  return_placed = h.return_placed;
  known = omega (arith, h.known);
})
step_down-roomy on_return strict c h = returns (record {
  control_placed = h.control_placed;
  data_placed = h.data_placed;
  return_placed =
      down-Placed c.return_stack h.return_placed (omega arith) (omega (arith, h.known)) refl;
  known = omega (arith, h.known);
})
step_down-roomy on_control strict c h = returns (record {
  control_placed =
      down-Placed c.control_stack h.control_placed (omega arith) (omega (arith, h.known)) refl;
  data_placed = h.data_placed;
  return_placed = h.return_placed;
  known = omega (arith, h.known);
})

not_at_top :
    (s : StackName) {p : Mode} (c : ForthContext)
    → Has p c
    → ((stack_of s c).where_ == (stack_of s c).top) ≡ false
not_at_top on_control c h = ground arith
not_at_top on_data c h = ground arith
not_at_top on_return c h = ground arith

pub not_at_bottom :
    (s : StackName) (c : ForthContext)
    → Has (filled s) c
    → ((stack_of s c).where_ == (stack_of s c).bottom) ≡ false
not_at_bottom on_control c h = ground (arith, h.known)
not_at_bottom on_data c h = ground (arith, h.known)
not_at_bottom on_return c h = ground (arith, h.known)

check_top-Quiet : (s : StackName) → Quiet (check_top s)
unfolding check_top
check_top-Quiet s strict p c h = rw (not_at_top s c h) (returns h)

-- A push where there is room meets no top, and a pop from a stack that is not empty no bottom.
pub push-filled :
    (s : StackName) (v : ℕ) (strict : Bool) → Ensures strict (roomy s) (push_cell s v) (filled s)
unfolding push_cell
push-filled s v strict = quiet (get_where-Quiet s) λ w.
    quiet (store16ubits-Quiet w (u16 v))
      λ _. bind (step_up-filled s strict) λ _. check_top-Quiet s strict (filled s)

pub pop-roomy : (s : StackName) (strict : Bool) → Ensures strict (filled s) (pop_cell s) (roomy s)
unfolding pop_cell
pop-roomy s strict c h = rw (not_at_bottom s c h) (taken c h)
  where
    taken : Ensures strict (filled s) (do step_down s; w ← get_where s; fetch16ubits w) (roomy s)
    taken =
        bind (step_down-roomy s strict)
          λ _. quiet (get_where-Quiet s) λ w. fetch16ubits-Quiet w strict (roomy s)

-- A stack whose pointer is not at the bottom holds a cell.
pub not_empty-filled :
    (s : StackName) {p : Mode} (c : ForthContext)
    → ((stack_of s c).where_ == (stack_of s c).bottom) ≡ false
    → Has p c
    → Has (filled s) c
not_empty-filled on_control c e h = record {
  control_placed = h.control_placed;
  data_placed = h.data_placed;
  return_placed = h.return_placed;
  known = ground (arith, h.control_placed);
}
not_empty-filled on_data c e h = record {
  control_placed = h.control_placed;
  data_placed = h.data_placed;
  return_placed = h.return_placed;
  known = ground (arith, h.data_placed);
}
not_empty-filled on_return c e h = record {
  control_placed = h.control_placed;
  data_placed = h.data_placed;
  return_placed = h.return_placed;
  known = ground (arith, h.return_placed);
}

pub not_full-roomy :
    (s : StackName) {p : Mode} (c : ForthContext)
    → ((stack_of s c).where_ + 2 == (stack_of s c).top) ≡ false
    → Has p c
    → Has (roomy s) c
not_full-roomy on_control c e h = record {
  control_placed = h.control_placed;
  data_placed = h.data_placed;
  return_placed = h.return_placed;
  known = ground (arith, h.control_placed);
}
not_full-roomy on_data c e h = record {
  control_placed = h.control_placed;
  data_placed = h.data_placed;
  return_placed = h.return_placed;
  known = ground (arith, h.data_placed);
}
not_full-roomy on_return c e h = record {
  control_placed = h.control_placed;
  data_placed = h.data_placed;
  return_placed = h.return_placed;
  known = ground (arith, h.return_placed);
}

-- A pop that is not guarded can meet the bottom.
pub pop_unguarded : (s : StackName) → Ensures false ready (pop_cell s) (roomy s)
unfolding pop_cell
pop_unguarded s c h = elim (Bool-cases ((stack_of s c).where_ == (stack_of s c).bottom)) [
  | inl e ↦ rw e (ends tt)
  | inr e ↦ pop-roomy s false c (not_empty-filled s c e h)
]
