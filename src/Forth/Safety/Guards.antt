-- ===== src/Forth/Safety/Guards.antt =====
-- ABORT and the two guards under the assertions on the stacks.
use fprcade.Common.{ℕ, Bool, ◌==◌, ◌+◌, arith, Bool-cases, inl, inr}
use fprcade.Forth.State.{
  ForthContext, F, StackName, stack_of, next, get_ip, get_dict_head, set_dict_head, ff_loc_state,
  ff_loc_input_buffer, ff_loc_input_buffer_index, ff_loc_input_buffer_count,
}
use fprcade.Forth.Memory.{will_overflow, is_empty, init_stack, ff_init_all_stacks}
use fprcade.Forth.Startup.{
  init_stacks, clear_input_buffer, get_recover, scrub_word, instr_abort, unless_empty, unless_full,
  ff_state_compiling, ff_state_interpreting,
}
use fprcade.Forth.Safety.Rules.{
  Mode, ready, filled, roomy, Has, returns, Ensures, Quiet, bind, bind-Quiet, branch-Quiet, quiet,
  pure-Quiet,
}
use fprcade.Forth.Safety.Cells.{
  fetch16ubits-Quiet, store16ubits-Quiet, write_at-Quiet, not_empty-filled, not_full-roomy,
  not_at_bottom,
}

pub next-Quiet : (n : ℕ) → Quiet (next n)
unfolding next
next-Quiet n strict p c h = returns h

pub get_ip-Quiet : Quiet get_ip
unfolding get_ip
get_ip-Quiet strict p c h = returns h

pub get_dict_head-Quiet : Quiet get_dict_head
unfolding get_dict_head
get_dict_head-Quiet strict p c h = returns h

pub set_dict_head-Quiet : (h : ℕ) → Quiet (set_dict_head h)
unfolding set_dict_head
set_dict_head-Quiet a strict p c h = returns {c = record c { dict_head = a }} h

pub get_recover-Quiet : Quiet get_recover
unfolding get_recover
get_recover-Quiet strict p c h = returns h

pub clear_input_buffer-Quiet : Quiet clear_input_buffer
unfolding clear_input_buffer
clear_input_buffer-Quiet = bind-Quiet (write_at-Quiet ff_loc_input_buffer 0) λ _.
    bind-Quiet (store16ubits-Quiet ff_loc_input_buffer_index 0)
      λ _. store16ubits-Quiet ff_loc_input_buffer_count 0

scrub_word-Quiet : Quiet scrub_word
unfolding scrub_word
scrub_word-Quiet = bind-Quiet get_dict_head-Quiet λ h. bind-Quiet (fetch16ubits-Quiet h) λ previous.
    bind-Quiet (set_dict_head-Quiet previous)
      λ _. store16ubits-Quiet ff_loc_state ff_state_interpreting

pub ff_init_all_stacks-Has : (c : ForthContext) → Has ready (ff_init_all_stacks c)
unfolding ff_init_all_stacks init_stack
ff_init_all_stacks-Has c = ground arith

pub init_stacks-ready : {p : Mode} (strict : Bool) → Ensures strict p init_stacks ready
unfolding init_stacks
init_stacks-ready strict c h = returns {c = ff_init_all_stacks c} (ff_init_all_stacks-Has c)

pub instr_abort-ready :
    {p : Mode} (word : ℕ) (strict : Bool) → Ensures strict p (instr_abort word) ready
unfolding instr_abort
instr_abort-ready word strict = quiet (fetch16ubits-Quiet ff_loc_state) λ state.
    quiet clear_input_buffer-Quiet λ _. bind (init_stacks-ready strict) λ _.
      quiet (branch-Quiet (state == ff_state_compiling) scrub_word-Quiet (pure-Quiet tt))
        λ _. get_recover-Quiet strict ready

-- After a guard the stack holds a cell, or has room for one.
pub after_unless_empty :
    {strict : Bool} {p : Mode} (s : StackName) (word : ℕ) {m : F ℕ}
    → Ensures strict (filled s) m ready
    → Ensures strict p (unless_empty s word m) ready
unfolding unless_empty is_empty
after_unless_empty {strict} s word h c k =
    elim (Bool-cases ((stack_of s c).where_ == (stack_of s c).bottom)) [
      | inl e ↦ rw e (instr_abort-ready word strict c k)
      | inr e ↦ rw e (h c (not_empty-filled s c e k))
    ]

pub after_unless_full :
    {strict : Bool} {p : Mode} (s : StackName) (word : ℕ) {m : F ℕ}
    → Ensures strict (roomy s) m ready
    → Ensures strict p (unless_full s word m) ready
unfolding unless_full will_overflow
after_unless_full {strict} s word h c k =
    elim (Bool-cases ((stack_of s c).where_ + 2 == (stack_of s c).top)) [
      | inl e ↦ rw e (instr_abort-ready word strict c k)
      | inr e ↦ rw e (h c (not_full-roomy s c e k))
    ]

-- A stack that holds a cell passes the guard.
pub filled_unless_empty :
    {strict : Bool} {q : Mode} (s : StackName) (word : ℕ) {m : F ℕ}
    → Ensures strict (filled s) m q
    → Ensures strict (filled s) (unless_empty s word m) q
unfolding unless_empty is_empty
filled_unless_empty s word h c k = rw (not_at_bottom s c k) (h c k)
