-- ===== src/Forth/ControlFlow.antt =====
-- CF_Forth_V2, `ff.c`: the words that compile literals, branches and loops, and the instructions that
-- they compile.
use fprcade.Common.{ℕ, ◌==◌, if◌then◌else◌, u16, ◌+◌}
use fprcade.Forth.State.{F, ◌>>=◌, ◌>>◌, next, get_ip, ff_loc_here}
use fprcade.Forth.State.{on_control, on_data, on_return}
use fprcade.Forth.Memory.{fetch16ubits, store16ubits, push_cell, pop_cell}
use fprcade.Forth.Dictionary.{get_parameter_field, find_via_opcode}
use fprcade.Forth.Startup.{unless_empty, unless_full}
use fprcade.Forth.Opcodes.{op_push, op_jump, op_jump_if}

unfoldable pub instr_begin : ℕ → F ℕ
instr_begin dict_entry =
    unless_full on_control dict_entry
      (do here ← fetch16ubits ff_loc_here; push_cell on_control here; next 2)

unfoldable pub instr_literal : ℕ → F ℕ
instr_literal word = unless_empty on_data word (do
  n ← pop_cell on_data
  here ← fetch16ubits ff_loc_here
  push_entry ← find_via_opcode op_push
  store16ubits here push_entry
  store16ubits (u16 (here + 2)) n
  store16ubits ff_loc_here (u16 (u16 (here + 2) + 2))
  next 2)

unfoldable pub instr_if : ℕ → F ℕ
instr_if word = unless_full on_control word (do
  here ← fetch16ubits ff_loc_here
  jump_if_false_entry ← find_via_opcode op_jump_if
  store16ubits here jump_if_false_entry
  store16ubits (u16 (here + 2)) 0
  push_cell on_control (u16 (here + 2))
  store16ubits ff_loc_here (u16 (u16 (here + 2) + 2))
  next 2)

unfoldable pub instr_then : ℕ → F ℕ
instr_then word = do
  here ← fetch16ubits ff_loc_here
  unless_empty on_control word (do a ← pop_cell on_control; store16ubits a here; next 2)

unfoldable pub instr_else : ℕ → F ℕ
instr_else word = unless_empty on_control word (do
  here ← fetch16ubits ff_loc_here
  jump_entry ← find_via_opcode op_jump
  store16ubits here jump_entry
  a ← pop_cell on_control
  store16ubits a (u16 (here + 4))
  push_cell on_control (u16 (here + 2))
  store16ubits ff_loc_here (u16 (u16 (here + 2) + 2))
  next 2)

unfoldable pub instr_again : ℕ → F ℕ
instr_again word = unless_empty on_control word (do
  here ← fetch16ubits ff_loc_here
  jump_entry ← find_via_opcode op_jump
  store16ubits here jump_entry
  a ← pop_cell on_control
  store16ubits (u16 (here + 2)) a
  store16ubits ff_loc_here (u16 (u16 (here + 2) + 2))
  next 2)

unfoldable pub instr_jump : ℕ → F ℕ
instr_jump dict_entry = do ip ← get_ip; fetch16ubits (u16 (ip + 2))

unfoldable pub instr_jump_if_false : ℕ → F ℕ
instr_jump_if_false word = unless_empty on_data word (do
  n ← pop_cell on_data
  if n == 0 then (do ip ← get_ip; fetch16ubits (u16 (ip + 2))) else next 4)

unfoldable pub instr_enter : ℕ → F ℕ
instr_enter dict_entry =
    unless_full on_return dict_entry
      (do ip ← get_ip; push_cell on_return (u16 (ip + 2)); get_parameter_field dict_entry)

unfoldable pub instr_exit : ℕ → F ℕ
instr_exit dict_entry = unless_empty on_return dict_entry (pop_cell on_return)
