-- ===== src/Forth/Startup.antt =====
-- CF_Forth_V2, `ff.c`: `paste_code`, `ff_reset`, `instr_abort`, and the guards that most words begin
-- with.
use fprcade.Common.{
  ℕ, Bool, true, List, [], ◌∷◌, length, ◌==◌, ltb, leb, if◌then◌else◌, u16, ◌||◌, ◌&&◌, ◌+◌,
}
use fprcade.Forth.State.{
  F, pure, ◌>>=◌, ◌>>◌, done, stops, exit_100, StackName, stack_of, get_dict_head, set_dict_head,
  ff_loc_here, ff_loc_state, ff_loc_base, ff_loc_input_buffer_index, ff_loc_input_buffer_count,
  ff_loc_input_buffer, ff_input_buffer_size, ff_system_variables_end,
}
use fprcade.Forth.Memory.{
  write_at, fetch16ubits, store16ubits, will_overflow, is_empty, ff_init_all_stacks,
}

abbrev pub ff_state_interpreting : ℕ
ff_state_interpreting = 0

abbrev pub ff_state_compiling : ℕ
ff_state_compiling = 1

-- `isspace`.
abbrev pub is_space : ℕ → Bool
is_space ch = ch == b' ' || leb 9 ch && leb ch 13

-- The loop of `paste_code`, which returns the index after the last character.
unfoldable pub paste_characters : List ℕ → ℕ → F ℕ
paste_characters [] i = pure i
paste_characters (ch ∷ code) i = do
  write_at (u16 (ff_loc_input_buffer + i)) (if is_space ch then b' ' else ch)
  paste_characters code (i + 1)

unfoldable pub paste_code : List ℕ → F (Unit {0})
paste_code code =
    if ltb (length code) ff_input_buffer_size
    then (do
      i ← paste_characters code 0
      write_at (u16 (ff_loc_input_buffer + i)) 0
      store16ubits ff_loc_input_buffer_index 0
      store16ubits ff_loc_input_buffer_count (length code))
    else stops exit_100

unfoldable pub init_stacks : F (Unit {0})
init_stacks c = done (tt, ff_init_all_stacks c)

-- `ctx->run = b;`
unfoldable pub set_run : Bool → F (Unit {0})
set_run b c = done (tt, record c { run = b })

-- The first address of the input buffer, `>IN` and the count.
unfoldable pub clear_input_buffer : F (Unit {0})
clear_input_buffer = do
  write_at ff_loc_input_buffer 0
  store16ubits ff_loc_input_buffer_index 0
  store16ubits ff_loc_input_buffer_count 0

unfoldable pub ff_reset : F (Unit {0})
ff_reset = do
  set_run true
  init_stacks
  set_dict_head 0
  clear_input_buffer
  store16ubits ff_loc_base 10
  store16ubits ff_loc_here ff_system_variables_end
  store16ubits ff_system_variables_end 0

-- `return ctx->recover;`
unfoldable pub get_recover : F ℕ
get_recover c = done (c.recover, c)

-- A word that was being compiled is taken out of the dictionary.
unfoldable pub scrub_word : F (Unit {0})
scrub_word = do
  h ← get_dict_head
  previous ← fetch16ubits h
  set_dict_head previous
  store16ubits ff_loc_state ff_state_interpreting

unfoldable pub instr_abort : ℕ → F ℕ
instr_abort word = do
  state ← fetch16ubits ff_loc_state
  clear_input_buffer
  init_stacks
  if state == ff_state_compiling then scrub_word else pure tt
  get_recover

-- `if (is_empty(...)) { ...; return instr_abort(ctx, word); } else { ... }`
unfoldable pub unless_empty : StackName → ℕ → F ℕ → F ℕ
unless_empty s word m c = if is_empty (stack_of s c) then instr_abort word c else m c

-- `if (will_overflow(...)) { ...; return instr_abort(ctx, word); } else { ... }`
unfoldable pub unless_full : StackName → ℕ → F ℕ → F ℕ
unless_full s word m c = if will_overflow (stack_of s c) then instr_abort word c else m c
