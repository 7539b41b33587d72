-- ===== src/Forth/Safety/Defining.antt =====
-- The words that look up the dictionary and add to it, under the assertions on the stacks.
use fprcade.Common.{ℕ, zero, suc, Bool, true, false, ◌==◌, ◌+◌}
use fprcade.Forth.State.{
  F, ◌>>=◌, next, ff_loc_here, ff_loc_state, ff_loc_word_buffer, ff_memory_size,
}
use fprcade.Forth.State.{on_data, on_return}
use fprcade.Forth.Dictionary.{
  same_letters, compare_packed_string, i8_in_size, in_dataspace, PackedString, copy_characters,
  copy_packed_string, add_dict_entry, name_walk, to_lower, de_name, ef_machine_code, ef_dirty,
  ef_immediate,
}
use fprcade.Forth.Startup.{ff_state_compiling, ff_state_interpreting}
use fprcade.Forth.Opcodes.{op_create_enter, op_enter, op_exit, op_does_enter, op_does_rt}
use fprcade.Forth.Defining.{
  set_flag, clear_flag, instr_find, is_positive_count, instr_create, instr_create_enter,
  instr_does_rt, instr_does, instr_does_enter, instr_colon, instr_semicolon, instr_immediate,
  instr_qimmediate,
}
use fprcade.Forth.Safety.Rules.{
  Mode, ready, Ensures, Quiet, bind, bind-Quiet, quiet, settle, branch, branch-Quiet, pure-Quiet,
  from_ready,
}
use fprcade.Forth.Safety.Cells.{
  read_at-Quiet, fetch16ubits-Quiet, store16ubits-Quiet, stops-Quiet, push-filled, pop-roomy,
}
use fprcade.Forth.Safety.Guards.{
  next-Quiet, after_unless_full, get_ip-Quiet, get_dict_head-Quiet, set_dict_head-Quiet,
  instr_abort-ready,
}
use fprcade.Forth.Safety.Words.{IsSafe, with_popped, push_next, instr_drop-IsSafe}
use fprcade.Forth.Safety.Branches.{
  stored, get_code_field-Quiet, set_code_field-Quiet, get_parameter_field-Quiet,
  find_via_opcode-Quiet,
}
use fprcade.Forth.Safety.Input.{instr_word-filled, wrote}

same_letters-Quiet : (n a b : ℕ) → Quiet (same_letters n a b)
unfolding same_letters
same_letters-Quiet zero a b = pure-Quiet true
same_letters-Quiet (suc n) a b = bind-Quiet (read_at-Quiet a) λ v. bind-Quiet (read_at-Quiet b) λ w.
    branch-Quiet (to_lower v == to_lower w)
      (branch-Quiet (v == 0) (pure-Quiet true) (same_letters-Quiet n (a + 1) (b + 1)))
      (pure-Quiet false)

compare_packed_string-Quiet : (a b : ℕ) → Quiet (compare_packed_string a b)
unfolding compare_packed_string
compare_packed_string-Quiet a b = bind-Quiet (read_at-Quiet a) λ m.
    bind-Quiet (read_at-Quiet b) λ n.
      branch-Quiet (m == n) (same_letters-Quiet (i8_in_size m) (a + 1) (b + 1)) (pure-Quiet false)

name_walk-Quiet : (n word h : ℕ) → Quiet (name_walk n word h)
unfolding name_walk
name_walk-Quiet zero word h = stops-Quiet (λ _. tt)
name_walk-Quiet (suc n) word h =
    bind-Quiet (compare_packed_string-Quiet word (h + de_name)) λ found.
      bind-Quiet (fetch16ubits-Quiet h) λ previous.
        branch-Quiet found (pure-Quiet h)
          (branch-Quiet (previous == 0) (pure-Quiet 0) (name_walk-Quiet n word previous))

copy_characters-Quiet :
    (n : ℕ) (source : PackedString) (dest i : ℕ)
    → ((j : ℕ) → Quiet (source j))
    → Quiet (copy_characters n source dest i)
unfolding copy_characters
copy_characters-Quiet zero source dest i h = pure-Quiet tt
copy_characters-Quiet (suc n) source dest i h =
    bind-Quiet (h i) λ v. wrote (dest + i) v (copy_characters-Quiet n source dest (i + 1) h)

copy_packed_string-Quiet :
    (source : PackedString) (dest : ℕ)
    → ((j : ℕ) → Quiet (source j))
    → Quiet (copy_packed_string source dest)
unfolding copy_packed_string
copy_packed_string-Quiet source dest h = bind-Quiet (h 0) λ count. wrote dest count (
    bind-Quiet (read_at-Quiet dest)
      λ copied. copy_characters-Quiet (i8_in_size copied) source dest 1 h)

pub add_dict_entry-Quiet :
    (name : PackedString) → ((j : ℕ) → Quiet (name j)) → Quiet (add_dict_entry name)
unfolding add_dict_entry
add_dict_entry-Quiet name h = bind-Quiet get_dict_head-Quiet λ head.
    bind-Quiet (fetch16ubits-Quiet ff_loc_here) λ here. bind-Quiet (h 0) λ n. stored here head (
      stored _ 0 (
        bind-Quiet (fetch16ubits-Quiet _) λ flags. stored _ _ (
          bind-Quiet (set_code_field-Quiet here 0) λ _. stored _ 0 (
            bind-Quiet (copy_packed_string-Quiet name (here + de_name) h) λ _.
              stored ff_loc_here _ (bind-Quiet (set_dict_head-Quiet here) λ _. pure-Quiet here)))))

set_flag-Quiet : (header f : ℕ) → Quiet (set_flag header f)
unfolding set_flag
set_flag-Quiet header f = bind-Quiet (fetch16ubits-Quiet _) (λ flags. store16ubits-Quiet _ _)

clear_flag-Quiet : (header f : ℕ) → Quiet (clear_flag header f)
unfolding clear_flag
clear_flag-Quiet header f = bind-Quiet (fetch16ubits-Quiet _) (λ flags. store16ubits-Quiet _ _)

in_dataspace-Quiet : (a j : ℕ) → Quiet (in_dataspace a j)
in_dataspace-Quiet a j = read_at-Quiet (a + j)

pub instr_find-IsSafe : (strict : Bool) → IsSafe strict instr_find
unfolding instr_find
instr_find-IsSafe strict word = after_unless_full on_data word (
    quiet get_dict_head-Quiet λ h. bind (push-filled on_data b' ' strict) λ _.
      bind (instr_word-filled 0 strict) λ _. bind (pop-roomy on_data strict) λ a.
        quiet (read_at-Quiet a) λ count.
          quiet (branch-Quiet (count == 0) (pure-Quiet 0) (name_walk-Quiet ff_memory_size a h))
            λ found. push_next found 2)

-- A word that leaves the stacks alone and goes on.
goes_on :
    {strict : Bool} {p : Mode} {A : Type 0} {m : F A}
    → Quiet m
    → Ensures strict p (m >>= λ _. next 2) ready
goes_on h = settle (bind-Quiet h (λ _. next-Quiet 2))

pub instr_create-IsSafe : (strict : Bool) → IsSafe strict instr_create
unfolding instr_create
instr_create-IsSafe strict word = after_unless_full on_data word (
    bind (push-filled on_data b' ' strict) λ _. bind (instr_word-filled word strict) λ _.
      quiet (read_at-Quiet ff_loc_word_buffer) λ count.
        branch (is_positive_count count)
          (bind (from_ready (instr_drop-IsSafe strict word)) λ _. settle (
            bind-Quiet (add_dict_entry-Quiet _ (in_dataspace-Quiet ff_loc_word_buffer)) λ header.
              bind-Quiet (set_flag-Quiet header ef_machine_code) λ _.
                bind-Quiet (set_code_field-Quiet header op_create_enter) λ _.
                  bind-Quiet (clear_flag-Quiet header ef_dirty)
                    λ _. bind-Quiet (fetch16ubits-Quiet _) λ code. stored _ code (next-Quiet 2)))
          (instr_abort-ready word strict))

pub instr_create_enter-IsSafe : (strict : Bool) → IsSafe strict instr_create_enter
unfolding instr_create_enter
instr_create_enter-IsSafe strict word =
    after_unless_full on_data word
      (quiet (get_parameter_field-Quiet word) (λ field. push_next field 2))

pub instr_does_rt-IsSafe : (strict : Bool) → IsSafe strict instr_does_rt
unfolding instr_does_rt
instr_does_rt-IsSafe strict word = settle (
    bind-Quiet get_dict_head-Quiet λ header. bind-Quiet (get_code_field-Quiet header) λ code.
      bind-Quiet (branch-Quiet (code == op_create_enter) (pure-Quiet tt) (stops-Quiet (λ _. tt)))
        λ _.
          bind-Quiet (set_code_field-Quiet header op_does_enter)
            λ _. bind-Quiet get_ip-Quiet λ ip. stored _ _ (next-Quiet 2))

pub instr_does-IsSafe : (strict : Bool) → IsSafe strict instr_does
unfolding instr_does
instr_does-IsSafe strict word = settle (
    bind-Quiet get_dict_head-Quiet λ header. bind-Quiet (fetch16ubits-Quiet ff_loc_here) λ here.
      bind-Quiet (find_via_opcode-Quiet op_does_rt) λ does_rt. stored here does_rt (
        bind-Quiet (find_via_opcode-Quiet op_exit)
          λ exit. stored _ exit (stored ff_loc_here _ (stored _ _ (next-Quiet 2)))))

pub instr_does_enter-IsSafe : (strict : Bool) → IsSafe strict instr_does_enter
unfolding instr_does_enter
instr_does_enter-IsSafe strict word = after_unless_full on_data word (
    quiet (get_parameter_field-Quiet word) λ field. bind (push-filled on_data field strict) λ _.
      after_unless_full on_return word (
        quiet get_ip-Quiet
          λ ip. bind (push-filled on_return _ strict) λ _. settle (fetch16ubits-Quiet _)))

pub instr_colon-IsSafe : (strict : Bool) → IsSafe strict instr_colon
unfolding instr_colon
instr_colon-IsSafe strict word = after_unless_full on_data word (
    bind (push-filled on_data b' ' strict) λ _. bind (instr_word-filled word strict) λ _.
      bind (pop-roomy on_data strict) λ a. quiet (read_at-Quiet a) λ count.
        branch (is_positive_count count)
          (settle (
            bind-Quiet (add_dict_entry-Quiet _ (in_dataspace-Quiet a)) λ header.
              bind-Quiet (set_flag-Quiet header ef_machine_code) λ _.
                bind-Quiet (set_flag-Quiet header ef_dirty) λ _.
                  bind-Quiet (set_code_field-Quiet header op_enter)
                    λ _. stored ff_loc_state ff_state_compiling (next-Quiet 2)))
          (instr_abort-ready word strict))

pub instr_semicolon-IsSafe : (strict : Bool) → IsSafe strict instr_semicolon
unfolding instr_semicolon
instr_semicolon-IsSafe strict word = settle (
    bind-Quiet get_dict_head-Quiet λ header. bind-Quiet (fetch16ubits-Quiet ff_loc_here) λ here.
      bind-Quiet (find_via_opcode-Quiet op_exit) λ exit. stored here exit (
        stored ff_loc_here _ (
          stored ff_loc_state ff_state_interpreting
            (bind-Quiet (clear_flag-Quiet header ef_dirty) (λ _. next-Quiet 2)))))

pub instr_immediate-IsSafe : (strict : Bool) → IsSafe strict instr_immediate
unfolding instr_immediate
instr_immediate-IsSafe strict word = settle (
    bind-Quiet get_dict_head-Quiet
      λ header. bind-Quiet (set_flag-Quiet header ef_immediate) (λ _. next-Quiet 2))

pub instr_qimmediate-IsSafe : (strict : Bool) → IsSafe strict instr_qimmediate
unfolding instr_qimmediate
instr_qimmediate-IsSafe strict word =
    with_popped word (λ xt. quiet (fetch16ubits-Quiet _) (λ flags. push_next _ 2))
