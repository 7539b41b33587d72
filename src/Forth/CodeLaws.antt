-- ===== src/Forth/CodeLaws.antt =====
-- One step of the inner interpreter, and the instructions that compiled code is made of, where the
-- stacks are in their places.
use fprcade.Common.{
  ℕ, ◌≡◌, ◌≢◌, refl, ap, ◌∙◌, Bool, true, false, ◌==◌, if◌then◌else◌, u16, ◌+◌, ◌-◌, ◌*◌, ◌<◌,
  arith,
}
use fprcade.Forth.State.{ForthContext, done, F, ◌>>=◌, StackName, stack_of, next, get_ip, on_data}
use fprcade.Forth.Memory.{fetch16ubits, pop_cell, is_empty, will_overflow}
use fprcade.Forth.Startup.{unless_empty, unless_full, instr_abort}
use fprcade.Forth.Dictionary.{get_code_field}
use fprcade.Forth.Opcodes.{op_push, op_jump_if, op_jump, op_enter, op_exit}
use fprcade.Forth.StackWords.{instr_push}
use fprcade.Forth.ControlFlow.{instr_jump_if_false, instr_jump, instr_enter, instr_exit}
use fprcade.Forth.Table.{run_instruction, call_instruction, instruction_table, table_entry}
use fprcade.Forth.Interpreters.{set_ip, inner_step}
use fprcade.Forth.MemoryLaws.{word_at, bind_ok, fetch_ok, pop_ok, popped}
use fprcade.Forth.Safety.Rules.{Has, filled}

-- The opcode in the header at an address.
abbrev pub code_at : (ℕ → ℕ) → ℕ → ℕ
code_at d e = word_at d (e + 4) + 65536 * word_at d (e + 4 + 2)

pub code_ok :
    (e : ℕ) (c : ForthContext)
    → e + 7 < 65536
    → get_code_field e c ≡ done (code_at c.dataspace e, c)
unfolding get_code_field
code_ok e c h =
    bind_ok (fetch16ubits (e + 4)) _ c (fetch_ok (e + 4) c (omega arith))
    ∙ bind_ok (fetch16ubits (e + 4 + 2)) _ c (fetch_ok (e + 4 + 2) c (omega arith))

-- A guard that is passed.
pub full_ok :
    (s : StackName) (word : ℕ) (m : F ℕ) (c : ForthContext)
    → (stack_of s c).where_ + 2 ≢ (stack_of s c).top
    → unless_full s word m c ≡ m c
unfolding unless_full will_overflow
full_ok s word m c h = ap (λ (b : Bool). if b then instr_abort word c else m c) (test s c h)
  where
    test :
        (s : StackName) (c : ForthContext)
        → (stack_of s c).where_ + 2 ≢ (stack_of s c).top
        → ((stack_of s c).where_ + 2 == (stack_of s c).top) ≡ false
    test s c h = ground arith

pub empty_ok :
    (s : StackName) (word : ℕ) (m : F ℕ) (c : ForthContext)
    → (stack_of s c).where_ ≢ (stack_of s c).bottom
    → unless_empty s word m c ≡ m c
unfolding unless_empty is_empty
empty_ok s word m c h = ap (λ (b : Bool). if b then instr_abort word c else m c) (test s c h)
  where
    test :
        (s : StackName) (c : ForthContext)
        → (stack_of s c).where_ ≢ (stack_of s c).bottom
        → ((stack_of s c).where_ == (stack_of s c).bottom) ≡ false
    test s c h = ground arith

-- The word in the cell at `ip` is run, by the opcode in its header.
pub step_ok :
    (c : ForthContext) (e op : ℕ) {after : ℕ} {c' : ForthContext}
    → c.ip + 1 < 65536
    → word_at c.dataspace c.ip ≡ e
    → e + 7 < 65536
    → code_at c.dataspace e ≡ op
    → run_instruction op e c ≡ done (after, c')
    → inner_step c ≡ done (tt, record c' { ip = after })
unfolding inner_step get_ip set_ip
step_ok c e op {after} {c'} h i j k l =
    bind_ok (fetch16ubits c.ip) _ c (fetch_ok c.ip c h ∙ ap (λ (x : ℕ). done (x, c)) i)
    ∙ bind_ok (get_code_field e) _ c (code_ok e c j ∙ ap (λ (x : ℕ). done (x, c)) k)
    ∙ bind_ok (run_instruction op e) _ c l

pub run_push : (w : ℕ) (c : ForthContext) → run_instruction op_push w c ≡ instr_push w c
unfolding run_instruction call_instruction instruction_table table_entry
run_push w c = refl

pub run_jump_if :
    (w : ℕ) (c : ForthContext) → run_instruction op_jump_if w c ≡ instr_jump_if_false w c
unfolding run_instruction call_instruction instruction_table table_entry
run_jump_if w c = refl

pub run_jump : (w : ℕ) (c : ForthContext) → run_instruction op_jump w c ≡ instr_jump w c
unfolding run_instruction call_instruction instruction_table table_entry
run_jump w c = refl

pub run_enter : (w : ℕ) (c : ForthContext) → run_instruction op_enter w c ≡ instr_enter w c
unfolding run_instruction call_instruction instruction_table table_entry
run_enter w c = refl

pub run_exit : (w : ℕ) (c : ForthContext) → run_instruction op_exit w c ≡ instr_exit w c
unfolding run_instruction call_instruction instruction_table table_entry
run_exit w c = refl

-- The pointers of stacks in their places are in the data space, apart from each other.
pub data_pop_ok :
    (c : ForthContext)
    → Has (filled on_data) c
    → pop_cell on_data c ≡ done (word_at c.dataspace (c.data_stack.where_ - 2), popped on_data c)
data_pop_ok c h =
    pop_ok on_data c (omega (arith, h.data_placed, h.known)) (omega arith) (omega arith)

pub small : (i : ℕ) → i < 65536 → u16 i ≡ i
small i h = omega arith

either_done :
    (b : Bool) (m k : F ℕ) {c c' : ForthContext} {x y : ℕ}
    → m c ≡ done (x, c')
    → k c ≡ done (y, c')
    → (if b then m else k) c ≡ done (if b then x else y, c')
either_done true m n h k = h
either_done false m n h k = k

pub jump_if_ok :
    (w : ℕ) (c : ForthContext)
    → Has (filled on_data) c
    → c.ip + 4 < 65536
    → instr_jump_if_false w c
      ≡ done (
        if word_at c.dataspace (c.data_stack.where_ - 2) == 0
            then word_at c.dataspace (c.ip + 2)
            else c.ip + 4,
        popped on_data c,
      )
unfolding instr_jump_if_false next get_ip
jump_if_ok w c h l =
    empty_ok on_data w _ c (omega (arith, h.data_placed, h.known))
    ∙ bind_ok (pop_cell on_data) _ c (data_pop_ok c h)
    ∙ either_done (word_at c.dataspace (c.data_stack.where_ - 2) == 0)
        (do ip ← get_ip; fetch16ubits (u16 (ip + 2))) (next 4)
        (ap (λ (i : ℕ). fetch16ubits i (popped on_data c)) (small (c.ip + 2) (omega arith))
          ∙ fetch_ok (c.ip + 2) (popped on_data c) (omega arith))
        (ap (λ (i : ℕ). done (i, popped on_data c)) (small (c.ip + 4) l))
