-- ===== src/Forth/Safety/Branches.antt =====
-- The words of literals, branches and loops, and what they compile, under the assertions on the stacks.
use fprcade.Common.{ℕ, zero, suc, Bool, ◌==◌, ◌+◌}
use fprcade.Forth.State.{F, ◌>>◌, next, ff_loc_here, ff_memory_size}
use fprcade.Forth.State.{on_control, on_return}
use fprcade.Forth.Memory.{store16ubits}
use fprcade.Forth.Dictionary.{
  get_code_field, set_code_field, get_parameter_field, opcode_walk, find_via_opcode,
}
use fprcade.Forth.ControlFlow.{
  instr_begin, instr_literal, instr_if, instr_then, instr_else, instr_again, instr_jump,
  instr_jump_if_false, instr_enter, instr_exit,
}
use fprcade.Forth.Safety.Rules.{
  Mode, ready, Ensures, Quiet, bind, bind-Quiet, quiet, forget, settle, branch-Quiet, pure-Quiet,
}
use fprcade.Forth.Safety.Cells.{
  read_at-Quiet, fetch16ubits-Quiet, store16ubits-Quiet, stops-Quiet, push-filled, pop-roomy,
}
use fprcade.Forth.Safety.Guards.{
  next-Quiet, after_unless_empty, after_unless_full, get_ip-Quiet, get_dict_head-Quiet,
}
use fprcade.Forth.Safety.Words.{IsSafe, with_popped}

-- A cell stored, then the rest.
pub stored : {B : Type 0} (a v : ℕ) {m : F B} → Quiet m → Quiet (do store16ubits a v; m)
stored a v h = bind-Quiet (store16ubits-Quiet a v) (λ _. h)

pub get_code_field-Quiet : (h : ℕ) → Quiet (get_code_field h)
unfolding get_code_field
get_code_field-Quiet h =
    bind-Quiet (fetch16ubits-Quiet (h + 4))
      λ low. bind-Quiet (fetch16ubits-Quiet (h + 4 + 2)) λ high. pure-Quiet _

pub set_code_field-Quiet : (h op : ℕ) → Quiet (set_code_field h op)
unfolding set_code_field
set_code_field-Quiet h op = stored _ _ (store16ubits-Quiet _ _)

pub get_parameter_field-Quiet : (entry : ℕ) → Quiet (get_parameter_field entry)
unfolding get_parameter_field
get_parameter_field-Quiet entry = bind-Quiet (read_at-Quiet _) (λ count. pure-Quiet _)

opcode_walk-Quiet : (n opcode h : ℕ) → Quiet (opcode_walk n opcode h)
unfolding opcode_walk
opcode_walk-Quiet zero opcode h = stops-Quiet (λ _. tt)
opcode_walk-Quiet (suc n) opcode h = bind-Quiet (get_code_field-Quiet h) λ code.
    bind-Quiet (fetch16ubits-Quiet h) λ previous.
      branch-Quiet (code == opcode) (pure-Quiet h)
        (branch-Quiet (previous == 0) (stops-Quiet (λ _. tt)) (opcode_walk-Quiet n opcode previous))

pub find_via_opcode-Quiet : (opcode : ℕ) → Quiet (find_via_opcode opcode)
unfolding find_via_opcode
find_via_opcode-Quiet opcode =
    bind-Quiet get_dict_head-Quiet (λ h. opcode_walk-Quiet ff_memory_size opcode h)

-- The end of the compiling words: two cells stored, HERE among them.
settled :
    {strict : Bool} {p : Mode} (a v : ℕ) → Ensures strict p (do store16ubits a v; next 2) ready
settled a v = settle (stored a v (next-Quiet 2))

pub instr_begin-IsSafe : (strict : Bool) → IsSafe strict instr_begin
unfolding instr_begin
instr_begin-IsSafe strict word = after_unless_full on_control word (
    quiet (fetch16ubits-Quiet ff_loc_here)
      λ here. bind (push-filled on_control here strict) (λ _. settle (next-Quiet 2)))

pub instr_literal-IsSafe : (strict : Bool) → IsSafe strict instr_literal
unfolding instr_literal
instr_literal-IsSafe strict word = with_popped word λ n. settle (
    bind-Quiet (fetch16ubits-Quiet ff_loc_here) λ here.
      bind-Quiet (find_via_opcode-Quiet _)
        λ entry. stored here entry (stored _ n (stored ff_loc_here _ (next-Quiet 2))))

pub instr_if-IsSafe : (strict : Bool) → IsSafe strict instr_if
unfolding instr_if
instr_if-IsSafe strict word = after_unless_full on_control word (
    quiet (fetch16ubits-Quiet ff_loc_here) λ here. quiet (find_via_opcode-Quiet _) λ entry.
      quiet (store16ubits-Quiet here entry) λ _.
        quiet (store16ubits-Quiet _ 0)
          λ _. bind (push-filled on_control _ strict) λ _. settled ff_loc_here _)

pub instr_then-IsSafe : (strict : Bool) → IsSafe strict instr_then
unfolding instr_then
instr_then-IsSafe strict word = quiet (fetch16ubits-Quiet ff_loc_here) λ here.
    after_unless_empty on_control word (bind (pop-roomy on_control strict) (λ a. settled a here))

pub instr_else-IsSafe : (strict : Bool) → IsSafe strict instr_else
unfolding instr_else
instr_else-IsSafe strict word = after_unless_empty on_control word (
    quiet (fetch16ubits-Quiet ff_loc_here) λ here. quiet (find_via_opcode-Quiet _) λ entry.
      quiet (store16ubits-Quiet here entry) λ _. bind (pop-roomy on_control strict) λ a.
        quiet (store16ubits-Quiet a _)
          λ _. bind (push-filled on_control _ strict) λ _. settled ff_loc_here _)

pub instr_again-IsSafe : (strict : Bool) → IsSafe strict instr_again
unfolding instr_again
instr_again-IsSafe strict word = after_unless_empty on_control word (
    quiet (fetch16ubits-Quiet ff_loc_here) λ here. quiet (find_via_opcode-Quiet _) λ entry.
      quiet (store16ubits-Quiet here entry) λ _.
        bind (pop-roomy on_control strict)
          λ a. settle (stored _ a (stored ff_loc_here _ (next-Quiet 2))))

pub instr_jump-IsSafe : (strict : Bool) → IsSafe strict instr_jump
unfolding instr_jump
instr_jump-IsSafe strict word = settle (bind-Quiet get_ip-Quiet (λ ip. fetch16ubits-Quiet _))

pub instr_jump_if_false-IsSafe : (strict : Bool) → IsSafe strict instr_jump_if_false
unfolding instr_jump_if_false
instr_jump_if_false-IsSafe strict word = with_popped word λ n.
    settle
      (branch-Quiet (n == 0) (bind-Quiet get_ip-Quiet (λ ip. fetch16ubits-Quiet _)) (next-Quiet 4))

pub instr_enter-IsSafe : (strict : Bool) → IsSafe strict instr_enter
unfolding instr_enter
instr_enter-IsSafe strict word = after_unless_full on_return word (
    quiet get_ip-Quiet
      λ ip. bind (push-filled on_return _ strict) λ _. settle (get_parameter_field-Quiet word))

pub instr_exit-IsSafe : (strict : Bool) → IsSafe strict instr_exit
unfolding instr_exit
instr_exit-IsSafe strict word =
    after_unless_empty on_return word (forget (pop-roomy on_return strict))
