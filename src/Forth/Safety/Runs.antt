-- ===== src/Forth/Safety/Runs.antt =====
-- Whole runs, from `main` on: no push meets the top of its stack.
use mathlib.Core.Path.{subst}
use fprcade.Common.{
  ℕ, zero, suc, ◌≢◌, Bool, true, false, List, [], ◌∷◌, Option, none, some, if◌then◌else◌, ◌==◌,
  bit_and, ◌+◌, ◌&&◌, codes,
}
use fprcade.Forth.State.{
  ForthContext, set_dict_head, Outcome, done, stop, Stop, push_assert, F, pure, ◌>>=◌, ◌>>◌,
  ff_loc_state, ff_loc_word_buffer, ff_loc_base, ff_loc_here, ff_system_variables_end,
}
use fprcade.Forth.State.{on_data}
use fprcade.Forth.Memory.{store16ubits, ff_init_all_stacks}
use fprcade.Forth.Dictionary.{de_flags, ef_immediate}
use fprcade.Forth.Startup.{ff_reset, set_run, init_stacks, clear_input_buffer, ff_state_compiling}
use fprcade.Forth.Interpreters.{
  set_ip, inner_step, inner_loop, run_execute, interpret_number, interpret_word, mini_round,
  more_rounds, mini_interpret, clone_c_string, in_buffer, add_core_word, add_core_words,
  first_core_words, later_core_words, enter_interpret, start_interpret, first_words, and_then,
  bootstrap, ff_main,
}
use fprcade.Forth.Table.{run_instruction}
use fprcade.Forth.Safety.Rules.{
  Mode, ready, roomy, Has, Allowed, Post, returns, ends, Ensures, Quiet, bind, bind-Quiet, quiet,
  settle, branch, branch-Quiet, pure-Quiet, from_ready, forget,
}
use fprcade.Forth.Safety.Cells.{
  read_at-Quiet, fetch16ubits-Quiet, store16ubits-Quiet, stops-Quiet, push-filled, pop_unguarded,
}
use fprcade.Forth.Safety.Guards.{
  get_ip-Quiet, set_dict_head-Quiet, clear_input_buffer-Quiet, ff_init_all_stacks-Has,
}
use fprcade.Forth.Safety.Words.{instr_drop-IsSafe, instr_comma-IsSafe}
use fprcade.Forth.Safety.Branches.{
  stored, get_code_field-Quiet, set_code_field-Quiet, get_parameter_field-Quiet,
  instr_literal-IsSafe,
}
use fprcade.Forth.Safety.Input.{paste_code-Quiet}
use fprcade.Forth.Safety.Defining.{instr_find-IsSafe, add_dict_entry-Quiet}
use fprcade.Forth.Safety.Numbers.{instr_pnumber-IsSafe}
use fprcade.Forth.Safety.Table.{run_instruction-IsSafe, instr_execute-IsSafe}

set_ip-Quiet : (a : ℕ) → Quiet (set_ip a)
unfolding set_ip
set_ip-Quiet a strict p c h = returns {c = record c { ip = a }} h

inner_step-ready : Ensures false ready inner_step ready
unfolding inner_step
inner_step-ready = quiet get_ip-Quiet λ ip. quiet (fetch16ubits-Quiet ip) λ word.
    quiet (get_code_field-Quiet word)
      λ opcode. bind (run_instruction-IsSafe opcode word) λ after. set_ip-Quiet after false ready

run_execute-ready : (word : ℕ) → Ensures false ready (run_execute word) ready
unfolding run_execute
run_execute-ready word = instr_execute-IsSafe false run_instruction run_instruction-IsSafe word

-- The value of a word is dropped.
ignored :
    {A : Type 0} {p : Mode} {m : F A}
    → Ensures false p m ready
    → Ensures false p (m >>= λ _. pure tt) ready
ignored h = bind h (λ _. pure-Quiet tt false ready)

interpret_number-ready : (state : ℕ) → Ensures false (roomy on_data) (interpret_number state) ready
unfolding interpret_number
interpret_number-ready state = bind (push-filled on_data ff_loc_word_buffer false) λ _.
    bind (from_ready (instr_pnumber-IsSafe false 0)) λ _. bind (instr_drop-IsSafe false 0) λ _.
      branch (state == ff_state_compiling) (ignored (instr_literal-IsSafe false 0))
        (settle (stops-Quiet (λ _. tt)))

interpret_word-ready :
    (state word : ℕ) → Ensures false (roomy on_data) (interpret_word state word) ready
unfolding interpret_word
interpret_word-ready state word = bind (forget (push-filled on_data word false)) λ _.
    branch (state == ff_state_compiling)
      (quiet (fetch16ubits-Quiet (word + de_flags)) λ flags.
        branch (bit_and flags ef_immediate == 0) (ignored (instr_comma-IsSafe false 0))
          (ignored (run_execute-ready word)))
      (ignored (run_execute-ready word))

mini_round-ready : Ensures false ready mini_round ready
unfolding mini_round
mini_round-ready = quiet (fetch16ubits-Quiet ff_loc_state) λ state.
    bind (instr_find-IsSafe false 0) λ _. bind (pop_unguarded on_data) λ word.
      quiet (read_at-Quiet ff_loc_word_buffer) λ n.
        branch (word == 0 && n == 0) (settle (pure-Quiet false)) (
          bind (branch (word == 0) (interpret_number-ready state) (interpret_word-ready state word))
            λ _. pure-Quiet true false ready)

-- An outcome with the stacks in their places, or a stop that is no push at the top of a stack.
abbrev pub KeepsStacks : Option (Outcome (Unit {0} × ForthContext)) → Type 0
KeepsStacks none = Unit {0}
KeepsStacks (some (stop e)) = e ≢ push_assert
KeepsStacks (some (done (u, c))) = Has ready c

Allowed-stop : (e : Stop) → Allowed false e → e ≢ push_assert
Allowed-stop e h = λ q. absurd (subst (λ (x : Stop). Allowed false x) q h)

-- An outcome of a piece, and the rest of the run after it.
after_outcome :
    {A : Type 0} {o : Outcome (A × ForthContext)}
    (f : A → ForthContext → Option (Outcome (Unit {0} × ForthContext)))
    → Post false (Has ready) o
    → ((a : A) (c : ForthContext) → Has ready c → KeepsStacks (f a c))
    → KeepsStacks (elim o [ stop e ↦ some (stop e) | done (a, c') ↦ f a c' ])
after_outcome f (returns h) k = k _ _ h
after_outcome f (ends h) k = Allowed-stop _ h

choice-KeepsStacks :
    (b : Bool) (o o' : Option (Outcome (Unit {0} × ForthContext)))
    → KeepsStacks o
    → KeepsStacks o'
    → KeepsStacks (if b then o else o')
choice-KeepsStacks true o o' h k = h
choice-KeepsStacks false o o' h k = k

inner_loop-KeepsStacks :
    (fuel : ℕ) (c : ForthContext) → Has ready c → KeepsStacks (inner_loop fuel c)
unfolding inner_loop
inner_loop-KeepsStacks zero c h = tt
inner_loop-KeepsStacks (suc fuel) c h =
    choice-KeepsStacks c.run _ _
      (after_outcome (λ _. inner_loop fuel) (inner_step-ready c h)
        (λ _ c' h'. inner_loop-KeepsStacks fuel c' h'))
      h

mini_interpret-KeepsStacks :
    (fuel : ℕ) (c : ForthContext) → Has ready c → KeepsStacks (mini_interpret fuel c)
unfolding mini_interpret
mini_interpret-KeepsStacks zero c h = tt
mini_interpret-KeepsStacks (suc fuel) c h =
    after_outcome (more_rounds (mini_interpret fuel)) (mini_round-ready c h)
      (go (mini_interpret fuel) (mini_interpret-KeepsStacks fuel))
  where
    go :
        (k : ForthContext → Option (Outcome (Unit {0} × ForthContext)))
        → ((c : ForthContext) → Has ready c → KeepsStacks (k c))
        → (found : Bool) (c : ForthContext) → Has ready c
        → KeepsStacks (more_rounds k found c)
    go k e true c h = e c h
    go k e false c h = h

and_then-KeepsStacks :
    (o : Option (Outcome (Unit {0} × ForthContext)))
    (k : ForthContext → Option (Outcome (Unit {0} × ForthContext)))
    → KeepsStacks o
    → ((c : ForthContext) → Has ready c → KeepsStacks (k c))
    → KeepsStacks (and_then o k)
and_then-KeepsStacks none f h k = tt
and_then-KeepsStacks (some (stop e)) f h k = h
and_then-KeepsStacks (some (done (u, c))) f h k = k c h

Post-KeepsStacks :
    {o : Outcome (Unit {0} × ForthContext)} → Post false (Has ready) o → KeepsStacks (some o)
Post-KeepsStacks (returns h) = h
Post-KeepsStacks (ends h) = Allowed-stop _ h

clone_c_string-Quiet : (name : List ℕ) → Quiet (clone_c_string name)
unfolding clone_c_string
clone_c_string-Quiet name = branch-Quiet _ (pure-Quiet _) (stops-Quiet (λ _. tt))

add_core_words-Quiet : (words : List (List ℕ × ℕ × ℕ)) → Quiet (add_core_words words)
unfolding add_core_words add_core_word
add_core_words-Quiet [] = pure-Quiet tt
add_core_words-Quiet ((name, op, flags) ∷ words) =
    bind-Quiet
      (bind-Quiet (clone_c_string-Quiet name) λ buffer.
        bind-Quiet (add_dict_entry-Quiet (in_buffer buffer) (λ j. pure-Quiet _)) λ header.
          bind-Quiet (set_code_field-Quiet header op)
            λ _. stored (header + de_flags) flags (pure-Quiet header))
      (λ _. add_core_words-Quiet words)

enter_interpret-ready : Ensures false ready enter_interpret ready
unfolding enter_interpret
enter_interpret-ready = bind (instr_find-IsSafe false 0) λ _. bind (pop_unguarded on_data) λ word.
    settle (
      bind-Quiet (get_parameter_field-Quiet word)
        λ field. λ strict p c h. returns {c = record c { ip = field; recover = field }} h)

start_interpret-ready : (code : List ℕ) → Ensures false ready (start_interpret code) ready
unfolding start_interpret
start_interpret-ready code = quiet (add_core_words-Quiet later_core_words) λ _.
    quiet (paste_code-Quiet (codes "INTERPRET"))
      λ _. bind enter_interpret-ready λ _. paste_code-Quiet code false ready

first_words-ready : (code : List ℕ) → Ensures false ready (first_words code) ready
unfolding first_words
first_words-ready code =
    quiet (add_core_words-Quiet first_core_words) λ _. paste_code-Quiet code false ready

ff_reset-ready : (c : ForthContext) → Post false (Has ready) (ff_reset c)
unfolding ff_reset set_run init_stacks
ff_reset-ready c =
    rest-Quiet false ready (ff_init_all_stacks (record c { run = true })) (ff_init_all_stacks-Has _)
  where
    rest-Quiet : Quiet (do
      set_dict_head 0
      clear_input_buffer
      store16ubits ff_loc_base 10
      store16ubits ff_loc_here ff_system_variables_end
      store16ubits ff_system_variables_end 0)
    rest-Quiet = bind-Quiet (set_dict_head-Quiet 0) λ _. bind-Quiet clear_input_buffer-Quiet λ _.
        stored ff_loc_base 10 (
          stored ff_loc_here ff_system_variables_end (store16ubits-Quiet ff_system_variables_end 0))

-- Whatever the two texts, the input and the contents of the data space, a run of `main` on any fuel
-- never pushes past the top of a stack, and where it returns the three stacks are in their places.
pub ff_main-KeepsStacks :
    (interpret_code library_code : List ℕ) (fuel : ℕ) (c : ForthContext)
    → KeepsStacks (ff_main interpret_code library_code fuel c)
unfolding ff_main bootstrap
ff_main-KeepsStacks interpret_code library_code fuel c =
    and_then-KeepsStacks (some (ff_reset c)) _ (Post-KeepsStacks (ff_reset-ready c)) λ c1 h1.
      and_then-KeepsStacks (some (first_words interpret_code c1)) _
        (Post-KeepsStacks (first_words-ready interpret_code c1 h1))
        λ c2 h2.
          and_then-KeepsStacks (mini_interpret fuel c2) _ (mini_interpret-KeepsStacks fuel c2 h2)
            λ c3 h3.
              and_then-KeepsStacks (some (start_interpret library_code c3)) _
                (Post-KeepsStacks (start_interpret-ready library_code c3 h3))
                (inner_loop-KeepsStacks fuel)
