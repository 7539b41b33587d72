-- ===== src/Forth/Table.antt =====
-- CF_Forth_V2, `ff.c`: the instruction table and EXECUTE, which goes through it.
use fprcade.Common.{ℕ, zero, suc, List, [], ◌∷◌, ◌==◌, ltb, if◌then◌else◌}
use fprcade.Forth.State.{
  F, pure, ◌>>=◌, stops, assert_failed, out_of_bounds, never_ends, next, get_ip, ff_memory_size,
  max_instruction_count,
}
use fprcade.Forth.State.{on_data}
use fprcade.Forth.Memory.{fetch16ubits, pop_cell}
use fprcade.Forth.Dictionary.{get_code_field}
use fprcade.Forth.Startup.{instr_abort, unless_empty, get_recover}
use fprcade.Forth.Opcodes.{
  op_create, op_create_enter, op_word, op_allot, op_enter, op_exit, op_execute, op_jump, op_jump_if,
  op_push, op_drop, op_find, op_state, op_query, op_colon, op_semicolon, op_comma, op_dot, op_begin,
  op_then, op_if, op_else, op_again, op_literal, op_pliteral, op_emit, op_abort, op_immediate,
  op_qimmediate, op_bye, op_at, op_c_at, op_pass, op_equal, op_dup, op_bnumber, op_wordbuffer,
  op_base, op_store, op_paren, op_decompile, op_add, op_does, op_does_enter, op_does_rt,
}
use fprcade.Forth.StackWords.{
  instr_drop, instr_add, instr_equal, instr_dup, instr_store, instr_at, instr_c_at, instr_allot,
  instr_comma, instr_base, instr_state, instr_wordbuffer, instr_push, instr_pass, instr_bye,
  instr_emit,
}
use fprcade.Forth.Printing.{instr_dot}
use fprcade.Forth.Input.{instr_word, instr_query, instr_paren}
use fprcade.Forth.Defining.{
  instr_find, instr_create, instr_create_enter, instr_does_rt, instr_does, instr_does_enter,
  instr_colon, instr_semicolon, instr_immediate, instr_qimmediate,
}
use fprcade.Forth.ControlFlow.{
  instr_begin, instr_literal, instr_if, instr_then, instr_else, instr_again, instr_jump,
  instr_jump_if_false, instr_enter, instr_exit,
}
use fprcade.Forth.Numbers.{instr_pnumber}
use fprcade.Forth.Decompiler.{instr_decompile}

unfoldable pub instr_illegal : ℕ → F ℕ
instr_illegal dict_entry = do ip ← get_ip; code ← fetch16ubits ip; stops assert_failed

-- EXECUTE, where `call` is the call through the instruction table.
unfoldable pub instr_execute : (ℕ → ℕ → F ℕ) → ℕ → F ℕ
instr_execute call dict_entry = unless_empty on_data dict_entry (do
  word ← pop_cell on_data
  opcode ← get_code_field word
  ip ← call opcode word
  recover ← get_recover
  if ip == recover
      then pure ip
      else if opcode == op_enter
      then pure ip
      else if opcode == op_does_enter
      then pure ip
      else next 2)

-- The entries that `fill_instruction_table` overwrites.
unfoldable pub instruction_table : (ℕ → ℕ → F ℕ) → List (ℕ × (ℕ → F ℕ))
instruction_table call =
    (op_drop, instr_drop)
    ∷ (op_dup, instr_dup)
    ∷ (op_word, instr_word)
    ∷ (op_create, instr_create)
    ∷ (op_create_enter, instr_create_enter)
    ∷ (op_does, instr_does)
    ∷ (op_does_rt, instr_does_rt)
    ∷ (op_does_enter, instr_does_enter)
    ∷ (op_execute, instr_execute call)
    ∷ (op_allot, instr_allot)
    ∷ (op_state, instr_state)
    ∷ (op_colon, instr_colon)
    ∷ (op_semicolon, instr_semicolon)
    ∷ (op_comma, instr_comma)
    ∷ (op_dot, instr_dot)
    ∷ (op_emit, instr_emit)
    ∷ (op_begin, instr_begin)
    ∷ (op_if, instr_if)
    ∷ (op_then, instr_then)
    ∷ (op_else, instr_else)
    ∷ (op_jump, instr_jump)
    ∷ (op_jump_if, instr_jump_if_false)
    ∷ (op_query, instr_query)
    ∷ (op_immediate, instr_immediate)
    ∷ (op_qimmediate, instr_qimmediate)
    ∷ (op_at, instr_at)
    ∷ (op_store, instr_store)
    ∷ (op_c_at, instr_c_at)
    ∷ (op_pass, instr_pass)
    ∷ (op_push, instr_push)
    ∷ (op_literal, instr_literal)
    ∷ (op_pliteral, instr_literal)
    ∷ (op_again, instr_again)
    ∷ (op_find, instr_find)
    ∷ (op_wordbuffer, instr_wordbuffer)
    ∷ (op_equal, instr_equal)
    ∷ (op_enter, instr_enter)
    ∷ (op_exit, instr_exit)
    ∷ (op_bnumber, instr_pnumber)
    ∷ (op_bye, instr_bye)
    ∷ (op_abort, instr_abort)
    ∷ (op_base, instr_base)
    ∷ (op_paren, instr_paren)
    ∷ (op_decompile, instr_decompile)
    ∷ (op_add, instr_add)
    ∷ []

-- An opcode that no entry has is illegal.
unfoldable pub table_entry : List (ℕ × (ℕ → F ℕ)) → ℕ → ℕ → F ℕ
table_entry [] opcode = instr_illegal
table_entry (entry ∷ entries) opcode =
    if entry.0 == opcode then entry.1 else table_entry entries opcode

-- `instruction_table[opcode](ctx, word)`, with at most `depth` calls of EXECUTE inside one another.
-- Each of these takes a cell of the data stack, and no other word runs in between: after 65536 of them
-- the stack pointer comes to the same place again.
unfoldable pub call_instruction : ℕ → ℕ → ℕ → F ℕ
call_instruction zero opcode word = stops never_ends
call_instruction (suc depth) opcode word =
    if ltb opcode max_instruction_count
    then table_entry (instruction_table (call_instruction depth)) opcode word
    else stops out_of_bounds

unfoldable pub run_instruction : ℕ → ℕ → F ℕ
run_instruction = call_instruction ff_memory_size
