-- ===== src/Forth/StackWords.antt =====
-- CF_Forth_V2, `ff.c`: the words that move values between the data stack, the variables and the data
-- space, and those that print.
use fprcade.Common.{
  ℕ, List, [], ◌∷◌, ◌==◌, ltb, if◌then◌else◌, u8, u16, i16, to_u16, ◌+ℤ◌, false, ◌+◌,
}
use fprcade.Forth.State.{
  F, ◌>>=◌, ◌>>◌, done, next, get_ip, ff_cell_size, ff_loc_here, ff_loc_state, ff_loc_base,
  ff_loc_word_buffer,
}
use fprcade.Forth.State.{on_data}
use fprcade.Forth.Memory.{read_at, fetch16ubits, store16ubits, push_cell, pop_cell}
use fprcade.Forth.Startup.{set_run, unless_empty, unless_full}

unfoldable pub instr_drop : ℕ → F ℕ
instr_drop word = unless_empty on_data word (do _ ← pop_cell on_data; next 2)

unfoldable pub instr_add : ℕ → F ℕ
instr_add dict_entry = unless_empty on_data dict_entry (do
  n1 ← pop_cell on_data
  unless_empty on_data dict_entry
      (do n2 ← pop_cell on_data; push_cell on_data (to_u16 (i16 n1 +ℤ i16 n2)); next 2))

-- `FORTH_TRUE` and `FORTH_FALSE`.
abbrev pub forth_true : ℕ
forth_true = 1

abbrev pub forth_false : ℕ
forth_false = 0

unfoldable pub instr_equal : ℕ → F ℕ
instr_equal dict_entry = unless_empty on_data dict_entry (do
  n1 ← pop_cell on_data
  unless_empty on_data dict_entry (do
    n2 ← pop_cell on_data
    push_cell on_data (if n1 == n2 then forth_true else forth_false)
    next 2))

unfoldable pub instr_dup : ℕ → F ℕ
instr_dup word = unless_empty on_data word (do
  n ← pop_cell on_data
  push_cell on_data n
  unless_full on_data word (do push_cell on_data n; next 2))

unfoldable pub instr_store : ℕ → F ℕ
instr_store word = unless_empty on_data word (do
  addr ← pop_cell on_data
  unless_empty on_data word (do n ← pop_cell on_data; store16ubits addr n; next 2))

-- The guard is the one for a push.
unfoldable pub instr_at : ℕ → F ℕ
instr_at word =
    unless_full on_data word
      (do a ← pop_cell on_data; v ← fetch16ubits a; push_cell on_data v; next 2)

-- `fetch8bits`, in a cell.
unfoldable pub sign_extend : ℕ → ℕ
sign_extend v = if ltb v 128 then v else 65280 + v

unfoldable pub instr_c_at : ℕ → F ℕ
instr_c_at word =
    unless_empty on_data word
      (do a ← pop_cell on_data; v ← read_at a; push_cell on_data (sign_extend v); next 2)

unfoldable pub instr_allot : ℕ → F ℕ
instr_allot dict_entry = unless_empty on_data dict_entry (do
  n ← pop_cell on_data
  here ← fetch16ubits ff_loc_here
  store16ubits ff_loc_here (u16 (here + n))
  next 2)

unfoldable pub instr_comma : ℕ → F ℕ
instr_comma word = unless_empty on_data word (do
  number ← pop_cell on_data
  here ← fetch16ubits ff_loc_here
  store16ubits here number
  store16ubits ff_loc_here (u16 (here + ff_cell_size))
  next 2)

unfoldable pub helper_get_variable : ℕ → ℕ → F ℕ
helper_get_variable dict_entry variable =
    unless_full on_data dict_entry (do push_cell on_data variable; next 2)

unfoldable pub instr_base : ℕ → F ℕ
instr_base dict_entry = helper_get_variable dict_entry ff_loc_base

unfoldable pub instr_state : ℕ → F ℕ
instr_state dict_entry = helper_get_variable dict_entry ff_loc_state

unfoldable pub instr_wordbuffer : ℕ → F ℕ
instr_wordbuffer dict_entry = helper_get_variable dict_entry ff_loc_word_buffer

unfoldable pub instr_push : ℕ → F ℕ
instr_push word =
    unless_full on_data word
      (do ip ← get_ip; n ← fetch16ubits (u16 (ip + 2)); push_cell on_data n; next 4)

unfoldable pub instr_pass : ℕ → F ℕ
instr_pass word = next 2

unfoldable pub instr_bye : ℕ → F ℕ
instr_bye word = do set_run false; next 2

-- `printf`, of a text.
unfoldable pub print : List ℕ → F (Unit {0})
print [] c = done (tt, c)
print (ch ∷ text) c = print text (record c { output = ch ∷ c.output })

unfoldable pub instr_emit : ℕ → F ℕ
instr_emit word = unless_empty on_data word (do ch ← pop_cell on_data; print (u8 ch ∷ []); next 2)
