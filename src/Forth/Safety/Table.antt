-- ===== src/Forth/Safety/Table.antt =====
-- The instruction table and EXECUTE under the assertions on the stacks.
use fprcade.Common.{
  ℕ, zero, suc, ◌≡◌, ◌≢◌, sym, Bool, true, false, List, [], ◌∷◌, if◌then◌else◌, ◌==◌, ltb, arith,
  Bool-cases, inl, inr,
}
use fprcade.Forth.State.{F, ff_memory_size, max_instruction_count}
use fprcade.Forth.StackWords.{instr_base, instr_state, instr_wordbuffer}
use fprcade.Forth.Opcodes.{op_dot, op_at, op_execute, op_enter, op_does_enter}
use fprcade.Forth.Table.{
  instr_illegal, instr_execute, instruction_table, table_entry, call_instruction, run_instruction,
}
use fprcade.Forth.Safety.Rules.{
  bind, bind-Quiet, quiet, from_ready, settle, branch, branch-Quiet, pure-Quiet,
}
use fprcade.Forth.Safety.Cells.{fetch16ubits-Quiet, stops-Quiet}
use fprcade.Forth.Safety.Guards.{next-Quiet, get_ip-Quiet, get_recover-Quiet, instr_abort-ready}
use fprcade.Forth.Safety.Branches.{get_code_field-Quiet}
use fprcade.Forth.Safety.Branches.{
  instr_begin-IsSafe, instr_literal-IsSafe, instr_if-IsSafe, instr_then-IsSafe, instr_else-IsSafe,
  instr_again-IsSafe, instr_jump-IsSafe, instr_jump_if_false-IsSafe, instr_enter-IsSafe,
  instr_exit-IsSafe,
}
use fprcade.Forth.Safety.Decompiler.{instr_decompile-IsSafe}
use fprcade.Forth.Safety.Defining.{
  instr_find-IsSafe, instr_create-IsSafe, instr_create_enter-IsSafe, instr_does_rt-IsSafe,
  instr_does-IsSafe, instr_does_enter-IsSafe, instr_colon-IsSafe, instr_semicolon-IsSafe,
  instr_immediate-IsSafe, instr_qimmediate-IsSafe,
}
use fprcade.Forth.Safety.Input.{instr_paren-IsSafe, instr_word-IsSafe, instr_query-IsSafe}
use fprcade.Forth.Safety.Numbers.{instr_pnumber-IsSafe, instr_dot-IsSafe}
use fprcade.Forth.Safety.Words.{
  instr_drop-IsSafe, instr_add-IsSafe, instr_equal-IsSafe, instr_dup-IsSafe, instr_store-IsSafe,
  instr_c_at-IsSafe, instr_allot-IsSafe, instr_comma-IsSafe, instr_push-IsSafe, instr_pass-IsSafe,
  instr_bye-IsSafe, instr_emit-IsSafe, instr_at-IsSafe,
}
use fprcade.Forth.StackWords.{instr_at}
use fprcade.Forth.Printing.{instr_dot}
use fprcade.Forth.Safety.Words.{IsSafe, with_popped, variable-IsSafe}

instr_base-IsSafe : (strict : Bool) → IsSafe strict instr_base
unfolding instr_base
instr_base-IsSafe strict word = variable-IsSafe _ strict word

instr_state-IsSafe : (strict : Bool) → IsSafe strict instr_state
unfolding instr_state
instr_state-IsSafe strict word = variable-IsSafe _ strict word

instr_wordbuffer-IsSafe : (strict : Bool) → IsSafe strict instr_wordbuffer
unfolding instr_wordbuffer
instr_wordbuffer-IsSafe strict word = variable-IsSafe _ strict word

-- The entries of a table for an opcode are safe.
infixr 30 ◌&◌
data AllSafe (strict : Bool) (opcode : ℕ) : List (ℕ × (ℕ → F ℕ)) → Type 0 where
  none_left : AllSafe strict opcode []
  ◌&◌ :
      {op : ℕ} {m : ℕ → F ℕ} {entries : List (ℕ × (ℕ → F ℕ))}
      → (op ≡ opcode → IsSafe strict m)
      → AllSafe strict opcode entries
      → AllSafe strict opcode ((op, m) ∷ entries)

table_safe :
    (strict : Bool) (opcode : ℕ) (call : ℕ → ℕ → F ℕ)
    → (op_dot ≡ opcode → IsSafe strict instr_dot)
    → (op_at ≡ opcode → IsSafe strict instr_at)
    → (op_execute ≡ opcode → IsSafe strict (instr_execute call))
    → AllSafe strict opcode (instruction_table call)
unfolding instruction_table
table_safe strict opcode call dot at execute =
    (λ _. instr_drop-IsSafe strict)
    & (λ _. instr_dup-IsSafe strict)
    & (λ _. instr_word-IsSafe strict)
    & (λ _. instr_create-IsSafe strict)
    & (λ _. instr_create_enter-IsSafe strict)
    & (λ _. instr_does-IsSafe strict)
    & (λ _. instr_does_rt-IsSafe strict)
    & (λ _. instr_does_enter-IsSafe strict)
    & execute
    & (λ _. instr_allot-IsSafe strict)
    & (λ _. instr_state-IsSafe strict)
    & (λ _. instr_colon-IsSafe strict)
    & (λ _. instr_semicolon-IsSafe strict)
    & (λ _. instr_comma-IsSafe strict)
    & dot
    & (λ _. instr_emit-IsSafe strict)
    & (λ _. instr_begin-IsSafe strict)
    & (λ _. instr_if-IsSafe strict)
    & (λ _. instr_then-IsSafe strict)
    & (λ _. instr_else-IsSafe strict)
    & (λ _. instr_jump-IsSafe strict)
    & (λ _. instr_jump_if_false-IsSafe strict)
    & (λ _. instr_query-IsSafe strict)
    & (λ _. instr_immediate-IsSafe strict)
    & (λ _. instr_qimmediate-IsSafe strict)
    & at
    & (λ _. instr_store-IsSafe strict)
    & (λ _. instr_c_at-IsSafe strict)
    & (λ _. instr_pass-IsSafe strict)
    & (λ _. instr_push-IsSafe strict)
    & (λ _. instr_literal-IsSafe strict)
    & (λ _. instr_literal-IsSafe strict)
    & (λ _. instr_again-IsSafe strict)
    & (λ _. instr_find-IsSafe strict)
    & (λ _. instr_wordbuffer-IsSafe strict)
    & (λ _. instr_equal-IsSafe strict)
    & (λ _. instr_enter-IsSafe strict)
    & (λ _. instr_exit-IsSafe strict)
    & (λ _. instr_pnumber-IsSafe strict)
    & (λ _. instr_bye-IsSafe strict)
    & (λ _ word. instr_abort-ready word strict)
    & (λ _. instr_base-IsSafe strict)
    & (λ _. instr_paren-IsSafe strict)
    & (λ _. instr_decompile-IsSafe strict)
    & (λ _. instr_add-IsSafe strict)
    & none_left

instr_illegal-IsSafe : (strict : Bool) → IsSafe strict instr_illegal
unfolding instr_illegal
instr_illegal-IsSafe strict word = settle (
    bind-Quiet get_ip-Quiet
      λ ip. bind-Quiet (fetch16ubits-Quiet ip) (λ code. stops-Quiet (λ _. tt)))

entry_choice :
    (strict : Bool) (op opcode : ℕ) {m n : ℕ → F ℕ}
    → (op ≡ opcode → IsSafe strict m)
    → IsSafe strict n
    → IsSafe strict (if op == opcode then m else n)
entry_choice strict op opcode {m} {n} h k word c p = elim (Bool-cases (op == opcode)) [
  | inl e ↦ rw e (h (ground arith) word c p)
  | inr e ↦ rw e (k word c p)
]

table_entry-IsSafe :
    (strict : Bool) (opcode : ℕ) (table : List (ℕ × (ℕ → F ℕ)))
    → AllSafe strict opcode table
    → IsSafe strict (table_entry table opcode)
unfolding table_entry
table_entry-IsSafe strict opcode [] none_left = instr_illegal-IsSafe strict
table_entry-IsSafe strict opcode ((op, m) ∷ table) (h & hs) =
    entry_choice strict op opcode h (table_entry-IsSafe strict opcode table hs)

pub instr_execute-IsSafe :
    (strict : Bool) (call : ℕ → ℕ → F ℕ)
    → ((opcode : ℕ) → IsSafe strict (call opcode))
    → IsSafe strict (instr_execute call)
unfolding instr_execute
instr_execute-IsSafe strict call h dict_entry = with_popped dict_entry λ word.
    quiet (get_code_field-Quiet word) λ opcode. bind (from_ready (h opcode word)) λ ip. settle (
      bind-Quiet get_recover-Quiet λ recover. branch-Quiet (ip == recover) (pure-Quiet ip) (
        branch-Quiet (opcode == op_enter) (pure-Quiet ip)
          (branch-Quiet (opcode == op_does_enter) (pure-Quiet ip) (next-Quiet 2))))

call_instruction-IsSafe : (depth opcode : ℕ) → IsSafe false (call_instruction depth opcode)
unfolding call_instruction
call_instruction-IsSafe zero opcode word = settle (stops-Quiet (λ _. tt))
call_instruction-IsSafe (suc depth) opcode word =
    branch (ltb opcode max_instruction_count)
      (table_entry-IsSafe false opcode (instruction_table (call_instruction depth))
        (table_safe false opcode (call_instruction depth) (λ _. instr_dot-IsSafe)
          (λ _. instr_at-IsSafe)
          (λ _.
            instr_execute-IsSafe false (call_instruction depth) (call_instruction-IsSafe depth)))
        word)
      (settle (stops-Quiet (λ _. tt)))

-- Whatever the opcode, an instruction run with the stacks in their places leaves them there and meets
-- no top.
pub run_instruction-IsSafe : (opcode : ℕ) → IsSafe false (run_instruction opcode)
unfolding run_instruction
run_instruction-IsSafe opcode = call_instruction-IsSafe ff_memory_size opcode

-- An instruction other than `.`, `@` and EXECUTE, whatever the depth that EXECUTE may go to.
call_instruction-guarded :
    (depth opcode : ℕ)
    → opcode ≢ op_dot
    → opcode ≢ op_at
    → opcode ≢ op_execute
    → IsSafe true (call_instruction depth opcode)
unfolding call_instruction
call_instruction-guarded zero opcode h k l word = settle (stops-Quiet (λ _. tt))
call_instruction-guarded (suc depth) opcode h k l word =
    branch (ltb opcode max_instruction_count)
      (table_entry-IsSafe true opcode (instruction_table (call_instruction depth))
        (table_safe true opcode (call_instruction depth) (λ e. absurd (h (sym e)))
          (λ e. absurd (k (sym e))) (λ e. absurd (l (sym e))))
        word)
      (settle (stops-Quiet (λ _. tt)))

-- With the stacks in their places, an instruction other than `.`, `@` and EXECUTE neither pops from an
-- empty stack nor pushes on a full one, and leaves the stacks in their places.
pub run_instruction-guarded :
    (opcode : ℕ)
    → opcode ≢ op_dot
    → opcode ≢ op_at
    → opcode ≢ op_execute
    → IsSafe true (run_instruction opcode)
unfolding run_instruction
run_instruction-guarded opcode h k l = call_instruction-guarded ff_memory_size opcode h k l
