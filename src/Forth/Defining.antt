-- ===== src/Forth/Defining.antt =====
-- CF_Forth_V2, `ff.c`: the words that look up the dictionary and add to it.
use fprcade.Common.{ℕ, Bool, ◌==◌, ltb, if◌then◌else◌, u16, bit_and, bit_or, ◌&&◌, ◌+◌, ◌-◌}
use fprcade.Forth.State.{
  F, pure, ◌>>=◌, ◌>>◌, stops, assert_failed, next, get_ip, get_dict_head, ff_loc_here,
  ff_loc_state, ff_loc_word_buffer, ff_memory_size,
}
use fprcade.Forth.State.{on_data, on_return}
use fprcade.Forth.Memory.{read_at, fetch16ubits, store16ubits, push_cell, pop_cell}
use fprcade.Forth.Dictionary.{
  get_code_field, set_code_field, get_parameter_field, in_dataspace, add_dict_entry,
  find_via_opcode, name_walk, de_flags, de_does_code, ef_machine_code, ef_immediate, ef_dirty,
}
use fprcade.Forth.Startup.{
  instr_abort, unless_empty, unless_full, ff_state_compiling, ff_state_interpreting,
}
use fprcade.Forth.StackWords.{instr_drop, forth_true, forth_false}
use fprcade.Forth.Input.{instr_word}
use fprcade.Forth.Opcodes.{op_create_enter, op_enter, op_exit, op_does_enter, op_does_rt}

-- `header->flags |= f;` and `header->flags &= ~f;`
unfoldable pub set_flag : ℕ → ℕ → F (Unit {0})
set_flag header f = do
  flags ← fetch16ubits (header + de_flags)
  store16ubits (header + de_flags) (bit_or flags f)

unfoldable pub clear_flag : ℕ → ℕ → F (Unit {0})
clear_flag header f = do
  flags ← fetch16ubits (header + de_flags)
  store16ubits (header + de_flags) (bit_and flags (65535 - f))

-- A name with a count of 128 or more is negative, but not empty.
unfoldable pub instr_find : ℕ → F ℕ
instr_find dict_entry = unless_full on_data dict_entry (do
  h ← get_dict_head
  push_cell on_data b' '
  _ ← instr_word 0
  word ← pop_cell on_data
  count ← read_at word
  found ← if count == 0 then pure 0 else name_walk ff_memory_size word h
  push_cell on_data found
  next 2)

-- `count > 0`, for an `int8_t`.
abbrev pub is_positive_count : ℕ → Bool
is_positive_count count = ltb 0 count && ltb count 128

unfoldable pub instr_create : ℕ → F ℕ
instr_create dict_entry = unless_full on_data dict_entry (do
  push_cell on_data b' '
  _ ← instr_word dict_entry
  count ← read_at ff_loc_word_buffer
  if is_positive_count count
      then (do
        _ ← instr_drop dict_entry
        header ← add_dict_entry (in_dataspace ff_loc_word_buffer)
        set_flag header ef_machine_code
        set_code_field header op_create_enter
        clear_flag header ef_dirty
        does_code ← fetch16ubits (dict_entry + de_does_code)
        store16ubits (header + de_does_code) does_code
        next 2)
      else instr_abort dict_entry)

unfoldable pub instr_create_enter : ℕ → F ℕ
instr_create_enter dict_entry =
    unless_full on_data dict_entry (do
      parameter_field ← get_parameter_field dict_entry
      push_cell on_data parameter_field
      next 2)

unfoldable pub instr_does_rt : ℕ → F ℕ
instr_does_rt dict_entry = do
  header ← get_dict_head
  code_field ← get_code_field header
  if code_field == op_create_enter then pure tt else stops assert_failed
  set_code_field header op_does_enter
  ip ← get_ip
  store16ubits (header + de_does_code) (u16 (ip + 4))
  next 2

unfoldable pub instr_does : ℕ → F ℕ
instr_does dict_entry = do
  header ← get_dict_head
  here ← fetch16ubits ff_loc_here
  does_rt_entry ← find_via_opcode op_does_rt
  store16ubits here does_rt_entry
  exit_entry ← find_via_opcode op_exit
  store16ubits (u16 (here + 2)) exit_entry
  store16ubits ff_loc_here (u16 (u16 (here + 2) + 2))
  store16ubits (header + de_does_code) (u16 (u16 (here + 2) + 2))
  next 2

unfoldable pub instr_does_enter : ℕ → F ℕ
instr_does_enter dict_entry = unless_full on_data dict_entry (do
  parameter_field ← get_parameter_field dict_entry
  push_cell on_data parameter_field
  unless_full on_return dict_entry (do
    ip ← get_ip
    push_cell on_return (u16 (ip + 2))
    fetch16ubits (dict_entry + de_does_code)))

unfoldable pub instr_colon : ℕ → F ℕ
instr_colon dict_entry = unless_full on_data dict_entry (do
  push_cell on_data b' '
  _ ← instr_word dict_entry
  word_buffer ← pop_cell on_data
  count ← read_at word_buffer
  if is_positive_count count
      then (do
        header ← add_dict_entry (in_dataspace word_buffer)
        set_flag header ef_machine_code
        set_flag header ef_dirty
        set_code_field header op_enter
        store16ubits ff_loc_state ff_state_compiling
        next 2)
      else instr_abort dict_entry)

unfoldable pub instr_semicolon : ℕ → F ℕ
instr_semicolon dict_entry = do
  header ← get_dict_head
  here ← fetch16ubits ff_loc_here
  exit_entry ← find_via_opcode op_exit
  store16ubits here exit_entry
  store16ubits ff_loc_here (u16 (here + 2))
  store16ubits ff_loc_state ff_state_interpreting
  clear_flag header ef_dirty
  next 2

unfoldable pub instr_immediate : ℕ → F ℕ
instr_immediate word = do header ← get_dict_head; set_flag header ef_immediate; next 2

unfoldable pub instr_qimmediate : ℕ → F ℕ
instr_qimmediate word = unless_empty on_data word (do
  xt ← pop_cell on_data
  flags ← fetch16ubits (xt + de_flags)
  push_cell on_data (if bit_and flags ef_immediate == 0 then forth_false else forth_true)
  next 2)
