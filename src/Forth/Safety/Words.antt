-- ===== src/Forth/Safety/Words.antt =====
-- The words on the data stack, under the assertions on the stacks. Every word but `.` and `@` pops only
-- what is there; every word pushes only where there is room.
use fprcade.Common.{ℕ, Bool, false, List, [], ◌∷◌}
use fprcade.Forth.State.{F, ◌>>=◌, ◌>>◌, next, ff_loc_here}
use fprcade.Forth.State.{on_data}
use fprcade.Forth.Memory.{push_cell, pop_cell}
use fprcade.Forth.StackWords.{
  instr_drop, instr_add, instr_equal, instr_dup, instr_store, instr_at, instr_c_at, instr_allot,
  instr_comma, helper_get_variable, instr_push, instr_pass, instr_bye, instr_emit, print,
}
use fprcade.Forth.Startup.{set_run, unless_empty}
use fprcade.Forth.Safety.Rules.{
  Mode, ready, roomy, Ensures, Quiet, bind, bind-Quiet, quiet, from_ready, settle, returns,
}
use fprcade.Forth.Safety.Cells.{
  read_at-Quiet, fetch16ubits-Quiet, store16ubits-Quiet, push-filled, pop-roomy, pop_unguarded,
}
use fprcade.Forth.Safety.Guards.{next-Quiet, after_unless_empty, after_unless_full, get_ip-Quiet}

-- A word that keeps the stacks in their places. The strict assertion has no pop from an empty stack.
abbrev pub IsSafe : Bool → (ℕ → F ℕ) → Type 0
IsSafe strict m = (word : ℕ) → Ensures strict ready (m word) ready

-- A value of the data stack, taken after the guard, and one put back in its place.
pub with_popped :
    {strict : Bool} {p : Mode} (word : ℕ) {f : ℕ → F ℕ}
    → ((v : ℕ) → Ensures strict (roomy on_data) (f v) ready)
    → Ensures strict p (unless_empty on_data word (pop_cell on_data >>= f)) ready
with_popped {strict} word h = after_unless_empty on_data word (bind (pop-roomy on_data strict) h)

pub push_next :
    {strict : Bool} (v n : ℕ)
    → Ensures strict (roomy on_data) (do push_cell on_data v; next n) ready
push_next {strict} v n = bind (push-filled on_data v strict) (λ _. settle (next-Quiet n))

pub instr_drop-IsSafe : (strict : Bool) → IsSafe strict instr_drop
unfolding instr_drop
instr_drop-IsSafe strict word = with_popped word (λ v. settle (next-Quiet 2))

pub instr_add-IsSafe : (strict : Bool) → IsSafe strict instr_add
unfolding instr_add
instr_add-IsSafe strict word = with_popped word (λ v. with_popped word (λ w. push_next _ 2))

pub instr_equal-IsSafe : (strict : Bool) → IsSafe strict instr_equal
unfolding instr_equal
instr_equal-IsSafe strict word = with_popped word (λ v. with_popped word (λ w. push_next _ 2))

pub instr_dup-IsSafe : (strict : Bool) → IsSafe strict instr_dup
unfolding instr_dup
instr_dup-IsSafe strict word =
    with_popped word
      λ v. bind (push-filled on_data v strict) λ _. after_unless_full on_data word (push_next v 2)

pub instr_store-IsSafe : (strict : Bool) → IsSafe strict instr_store
unfolding instr_store
instr_store-IsSafe strict word =
    with_popped word
      λ a. with_popped word λ n. settle (bind-Quiet (store16ubits-Quiet a n) (λ _. next-Quiet 2))

pub instr_c_at-IsSafe : (strict : Bool) → IsSafe strict instr_c_at
unfolding instr_c_at
instr_c_at-IsSafe strict word = with_popped word λ a. quiet (read_at-Quiet a) (λ v. push_next _ 2)

pub instr_allot-IsSafe : (strict : Bool) → IsSafe strict instr_allot
unfolding instr_allot
instr_allot-IsSafe strict word = with_popped word λ n. settle (
    bind-Quiet (fetch16ubits-Quiet ff_loc_here)
      λ here. bind-Quiet (store16ubits-Quiet ff_loc_here _) (λ _. next-Quiet 2))

pub instr_comma-IsSafe : (strict : Bool) → IsSafe strict instr_comma
unfolding instr_comma
instr_comma-IsSafe strict word = with_popped word λ n. settle (
    bind-Quiet (fetch16ubits-Quiet ff_loc_here) λ here.
      bind-Quiet (store16ubits-Quiet here n)
        λ _. bind-Quiet (store16ubits-Quiet ff_loc_here _) (λ _. next-Quiet 2))

pub variable-IsSafe :
    (variable : ℕ) (strict : Bool) → IsSafe strict (λ word. helper_get_variable word variable)
unfolding helper_get_variable
variable-IsSafe variable strict word = after_unless_full on_data word (push_next variable 2)

pub instr_push-IsSafe : (strict : Bool) → IsSafe strict instr_push
unfolding instr_push
instr_push-IsSafe strict word =
    after_unless_full on_data word
      (quiet get_ip-Quiet λ ip. quiet (fetch16ubits-Quiet _) λ n. push_next n 4)

pub instr_pass-IsSafe : (strict : Bool) → IsSafe strict instr_pass
unfolding instr_pass
instr_pass-IsSafe strict word = next-Quiet 2 strict ready

pub set_run-Quiet : (b : Bool) → Quiet (set_run b)
unfolding set_run
set_run-Quiet b strict p c h = returns {c = record c { run = b }} h

pub instr_bye-IsSafe : (strict : Bool) → IsSafe strict instr_bye
unfolding instr_bye
instr_bye-IsSafe strict word = settle (bind-Quiet (set_run-Quiet false) (λ _. next-Quiet 2))

pub print-Quiet : (text : List ℕ) → Quiet (print text)
unfolding print
print-Quiet [] strict p c h = returns h
print-Quiet (ch ∷ text) strict p c h =
    print-Quiet text strict p (record c { output = ch ∷ c.output }) h

pub instr_emit-IsSafe : (strict : Bool) → IsSafe strict instr_emit
unfolding instr_emit
instr_emit-IsSafe strict word =
    with_popped word λ ch. settle (bind-Quiet (print-Quiet _) (λ _. next-Quiet 2))

-- The pop of `.` and of `@` is not guarded against an empty stack.
pub with_unguarded :
    {f : ℕ → F ℕ}
    → ((v : ℕ) → Ensures false (roomy on_data) (f v) ready)
    → Ensures false ready (pop_cell on_data >>= f) ready
with_unguarded h = bind (pop_unguarded on_data) h

pub instr_at-IsSafe : IsSafe false instr_at
unfolding instr_at
instr_at-IsSafe word =
    after_unless_full on_data word
      (from_ready (with_unguarded (λ a. quiet (fetch16ubits-Quiet a) (λ v. push_next v 2))))
