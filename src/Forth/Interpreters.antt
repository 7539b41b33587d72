-- ===== src/Forth/Interpreters.antt =====
-- CF_Forth_V2, `ff.c`: the inner interpreter, the interpreter of `mini_interpret`, and `bootstrap`.
use fprcade.Common.{
  ℕ, zero, suc, Bool, true, false, List, [], ◌∷◌, Option, none, some, length, get_or, ◌==◌,
  if◌then◌else◌, leb, u8, bit_and, codes, ◌&&◌, ◌+◌,
}
use fprcade.Forth.State.{
  ForthContext, F, pure, ◌>>=◌, ◌>>◌, done, Outcome, stop, stops, assert_failed, out_of_bounds,
  get_ip, ff_loc_state, ff_loc_word_buffer,
}
use fprcade.Forth.State.{on_data}
use fprcade.Forth.Memory.{read_at, fetch16ubits, store16ubits, push_cell, pop_cell}
use fprcade.Forth.Dictionary.{
  get_code_field, set_code_field, get_parameter_field, PackedString, add_dict_entry, de_flags,
  ef_immediate, ef_hidden,
}
use fprcade.Forth.Startup.{paste_code, ff_reset, ff_state_compiling}
use fprcade.Forth.StackWords.{instr_drop, instr_comma}
use fprcade.Forth.Defining.{instr_find}
use fprcade.Forth.ControlFlow.{instr_literal}
use fprcade.Forth.Numbers.{instr_pnumber}
use fprcade.Forth.Table.{instr_execute, run_instruction}
use fprcade.Forth.Opcodes.{
  op_create, op_allot, op_exit, op_execute, op_jump, op_jump_if, op_push, op_drop, op_find,
  op_state, op_query, op_colon, op_semicolon, op_comma, op_dot, op_begin, op_then, op_if, op_else,
  op_while, op_repeat, op_again, op_literal, op_pliteral, op_emit, op_abort, op_immediate,
  op_qimmediate, op_bye, op_at, op_c_at, op_pass, op_equal, op_dup, op_bnumber, op_wordbuffer,
  op_base, op_store, op_paren, op_decompile, op_add, op_does, op_does_rt,
}

unfoldable pub set_ip : ℕ → F (Unit {0})
set_ip a c = done (tt, record c { ip = a })

-- The body of the inner interpreter.
unfoldable pub inner_step : F (Unit {0})
inner_step = do
  ip ← get_ip
  word ← fetch16ubits ip
  opcode ← get_code_field word
  after ← run_instruction opcode word
  set_ip after

-- `while(ctx->run)`. Without fuel there is no outcome.
unfoldable pub inner_loop : ℕ → ForthContext → Option (Outcome (Unit {0} × ForthContext))
inner_loop zero c = none
inner_loop (suc fuel) c =
    if c.run
    then elim (inner_step c) [ stop e ↦ some (stop e) | done (u, c') ↦ inner_loop fuel c' ]
    else some (done (tt, c))

unfoldable pub run_execute : ℕ → F ℕ
run_execute = instr_execute run_instruction

-- A number is compiled; while interpreting it fails an assertion.
unfoldable pub interpret_number : ℕ → F (Unit {0})
interpret_number state = do
  push_cell on_data ff_loc_word_buffer
  _ ← instr_pnumber 0
  _ ← instr_drop 0
  if state == ff_state_compiling then (do _ ← instr_literal 0; pure tt) else stops assert_failed

unfoldable pub interpret_word : ℕ → ℕ → F (Unit {0})
interpret_word state word = do
  push_cell on_data word
  if state == ff_state_compiling
      then (do
        flags ← fetch16ubits (word + de_flags)
        if bit_and flags ef_immediate == 0
            then (do _ ← instr_comma 0; pure tt)
            else (do _ ← run_execute word; pure tt))
      else (do _ ← run_execute word; pure tt)

-- A round of the loop of `mini_interpret`: whether there was a word.
unfoldable pub mini_round : F Bool
mini_round = do
  state ← fetch16ubits ff_loc_state
  _ ← instr_find 0
  word ← pop_cell on_data
  n ← read_at ff_loc_word_buffer
  if word == 0 && n == 0
      then pure false
      else (do if word == 0 then interpret_number state else interpret_word state word; pure true)

-- The loop goes on where there was a word.
abbrev pub more_rounds :
    (ForthContext → Option (Outcome (Unit {0} × ForthContext)))
    → Bool
    → ForthContext
    → Option (Outcome (Unit {0} × ForthContext))
more_rounds go_on true c = go_on c
more_rounds go_on false c = some (done (tt, c))

-- Without fuel there is no outcome.
unfoldable pub mini_interpret : ℕ → ForthContext → Option (Outcome (Unit {0} × ForthContext))
mini_interpret zero c = none
mini_interpret (suc fuel) c = elim (mini_round c) [
  | stop e ↦ some (stop e)
  | done (found, c') ↦ more_rounds (mini_interpret fuel) found c'
]

abbrev ff_max_de_name_length : ℕ
ff_max_de_name_length = 31

-- `clone_c_string` into the static buffer of `add_core_word`, which has room for a count and
-- `FF_MAX_DE_NAME_LENGTH` characters: the bytes that it holds. A longer name is written past its end.
unfoldable pub clone_c_string : List ℕ → F (List ℕ)
clone_c_string string =
    if leb (length string) ff_max_de_name_length
    then pure (u8 (length string) ∷ string)
    else stops out_of_bounds

abbrev pub in_buffer : List ℕ → PackedString
in_buffer buffer i = pure (get_or buffer i 0)

unfoldable pub add_core_word : List ℕ → ℕ → ℕ → F ℕ
add_core_word c_name op_code flags = do
  buffer ← clone_c_string c_name
  header ← add_dict_entry (in_buffer buffer)
  set_code_field header op_code
  store16ubits (header + de_flags) flags
  pure header

unfoldable pub add_core_words : List (List ℕ × ℕ × ℕ) → F (Unit {0})
add_core_words [] = pure tt
add_core_words (word ∷ words) = do _ ← add_core_word word.0 word.1 word.2; add_core_words words

-- The words of `bootstrap`, before `mini_interpret` and after it.
abbrev immediate_word : ℕ
immediate_word = 10

abbrev pub first_core_words : List (List ℕ × ℕ × ℕ)
first_core_words =
    (codes "CREATE", op_create, 0)
    ∷ (codes "ALLOT", op_allot, 0)
    ∷ (codes "STATE", op_state, 0)
    ∷ (codes ":", op_colon, 0)
    ∷ (codes ",", op_comma, 0)
    ∷ (codes ".", op_dot, 0)
    ∷ (codes "@", op_at, 0)
    ∷ (codes "C@", op_c_at, 0)
    ∷ (codes "EMIT", op_emit, 0)
    ∷ (codes "PASS", op_pass, 0)
    ∷ (codes "QUERY", op_query, 0)
    ∷ (codes "IMMEDIATE", op_immediate, 0)
    ∷ (codes "?IMMEDIATE", op_qimmediate, 0)
    ∷ (codes "FIND", op_find, 0)
    ∷ (codes "BYE", op_bye, 0)
    ∷ (codes "=", op_equal, 0)
    ∷ (codes "DUP", op_dup, 0)
    ∷ (codes "DROP", op_drop, 0)
    ∷ (codes "(NUMBER)", op_bnumber, 0)
    ∷ (codes "EXIT", op_exit, 0)
    ∷ (codes "EXECUTE", op_execute, 0)
    ∷ (codes "WORDBUFFER", op_wordbuffer, 0)
    ∷ (codes "(LITERAL)", op_pliteral, 0)
    ∷ (codes "ABORT", op_abort, 0)
    ∷ (codes ";", op_semicolon, immediate_word)
    ∷ (codes "BEGIN", op_begin, immediate_word)
    ∷ (codes "AGAIN", op_again, immediate_word)
    ∷ (codes "IF", op_if, immediate_word)
    ∷ (codes "THEN", op_then, immediate_word)
    ∷ (codes "ELSE", op_else, immediate_word)
    ∷ (codes "WHILE", op_while, immediate_word)
    ∷ (codes "REPEAT", op_repeat, immediate_word)
    ∷ (codes "LITERAL", op_literal, immediate_word)
    ∷ (codes "DOES>", op_does, immediate_word)
    ∷ (codes "(", op_paren, ef_immediate)
    ∷ (codes "PUSH", op_push, ef_hidden)
    ∷ (codes "JUMP", op_jump, ef_hidden)
    ∷ (codes "JUMP_IF", op_jump_if, ef_hidden)
    ∷ (codes "DOES_RT", op_does_rt, ef_hidden)
    ∷ []

abbrev pub later_core_words : List (List ℕ × ℕ × ℕ)
later_core_words =
    (codes "BASE", op_base, 0)
    ∷ (codes "!", op_store, 0)
    ∷ (codes "DECOMPILE", op_decompile, 0)
    ∷ (codes "+", op_add, 0)
    ∷ []

-- `ctx->ip = get_parameter_field(ctx, word); ctx->recover = ctx->ip;`
unfoldable pub enter_interpret : F (Unit {0})
enter_interpret = do
  _ ← instr_find 0
  word ← pop_cell on_data
  field ← get_parameter_field word
  λ c. done (tt, record c { ip = field; recover = field })

-- From the end of `mini_interpret` to the inner interpreter.
unfoldable pub start_interpret : List ℕ → F (Unit {0})
start_interpret library_code = do
  add_core_words later_core_words
  paste_code (codes "INTERPRET")
  enter_interpret
  paste_code library_code

unfoldable pub first_words : List ℕ → F (Unit {0})
first_words interpret_code = do add_core_words first_core_words; paste_code interpret_code

-- A piece of the program, after another that may run out of fuel.
abbrev pub and_then :
    Option (Outcome (Unit {0} × ForthContext))
    → (ForthContext → Option (Outcome (Unit {0} × ForthContext)))
    → Option (Outcome (Unit {0} × ForthContext))
and_then none k = none
and_then (some (stop e)) k = some (stop e)
and_then (some (done (u, c))) k = k c

-- The texts of `interpret.c` and `library.c`, which the build makes of `interpret.fs` and
-- `library.fs`, are arguments.
unfoldable pub bootstrap :
    List ℕ → List ℕ → ℕ → ForthContext → Option (Outcome (Unit {0} × ForthContext))
bootstrap interpret_code library_code fuel c = and_then (some (first_words interpret_code c)) (λ c1.
    and_then (mini_interpret fuel c1)
      (λ c2. and_then (some (start_interpret library_code c2)) (inner_loop fuel)))

-- `main` without an option.
unfoldable pub ff_main :
    List ℕ → List ℕ → ℕ → ForthContext → Option (Outcome (Unit {0} × ForthContext))
ff_main interpret_code library_code fuel c =
    and_then (some (ff_reset c)) (bootstrap interpret_code library_code fuel)
