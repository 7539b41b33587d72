-- ===== src/Forth/Conditionals.antt =====
-- IF and THEN: what they compile, and that the compiled branch skips its body exactly where the flag
-- is 0.
use mathlib.Core.Path.{subst}
use fprcade.Common.{
  ℕ, suc, ◌≡◌, sym, ap, ◌∙◌, ◌⊎◌, inl, inr, List, [], ◌∷◌, length, u16, ◌+◌, ◌-◌, ◌*◌, ◌≤◌, ◌<◌,
  arith,
}
use fprcade.Forth.State.{
  CellStack, ForthContext, Outcome, done, F, pure, ◌>>=◌, ◌>>◌, next, on_control, on_data,
}
use fprcade.Forth.Memory.{fetch16ubits, store16ubits, push_cell, pop_cell}
use fprcade.Forth.Dictionary.{find_via_opcode}
use fprcade.Forth.Opcodes.{op_jump_if}
use fprcade.Forth.StackWords.{instr_comma}
use fprcade.Forth.ControlFlow.{instr_if, instr_then}
use fprcade.Forth.MemoryLaws.{
  word_at, put_word, bind_ok, fetch_ok, store_ok, pop_ok, push_ok, popped, pushed, word_at-put_word,
  word_at-put_other,
}
use fprcade.Forth.CodeLaws.{code_at, full_ok, empty_ok, data_pop_ok, small}
use fprcade.Forth.Safety.Rules.{Has, filled, roomy, Placed}
use fprcade.Forth.Outcomes.{Succeeds, succeeds, bind-Succeeds, by_value}
pub mod Starts
pub use Starts.*

-- A cell of code: its value is pushed, and `,` compiles it.
compile_cell : ℕ → F (Unit {0})
compile_cell v = do push_cell on_data v; _ ← instr_comma 0; pure tt

abbrev cell_compiled : ℕ → ℕ → ℕ → ℕ → ForthContext → ForthContext
cell_compiled h u b x c =
    let w = c.data_stack.where_ in
    record c {
      dataspace = put_word (put_word (put_word c.dataspace w u) h x) 2 b;
      data_stack = record c.data_stack { where_ = w };
    }

comma_ok :
    (h w : ℕ) (c : ForthContext)
    → Compiling h c
    → Has (filled on_data) c
    → instr_comma w c
      ≡ done (
        u16 (c.ip + 2),
        record (popped on_data c) {
          dataspace =
              put_word
                (put_word c.dataspace h (word_at c.dataspace (c.data_stack.where_ - 2)))
                2
                (h + 2);
        },
      )
unfolding instr_comma next
comma_ok h w c i s =
    let n = word_at c.dataspace (c.data_stack.where_ - 2) in
    let c' = popped on_data c in
    empty_ok on_data w _ c (omega (arith, s.data_placed, s.known))
    ∙ bind_ok (pop_cell on_data) _ c (data_pop_ok c s)
    ∙ bind_ok (fetch16ubits 2) _ c'
        (fetch_ok 2 c' (omega arith) ∙ ap (λ (x : ℕ). done (x, c')) i.here)
    ∙ bind_ok (store16ubits h n) _ c' (store_ok h n c' (omega arith))
    ∙ bind_ok (store16ubits 2 (u16 (h + 2))) _ _ (store_ok 2 (u16 (h + 2)) _ (omega arith))
    ∙ ap
        (λ (b : ℕ).
          done (u16 (c.ip + 2), record c' { dataspace = put_word (put_word c.dataspace h n) 2 b }))
        (small (h + 2) (omega arith))

-- HERE, and the value on the data stack, after a push.
pushed_here :
    (h v : ℕ) (c : ForthContext)
    → Compiling h c
    → Has (roomy on_data) c
    → Compiling h (pushed on_data v c)
pushed_here h v c i s = record {
  here =
      word_at-put_other c.dataspace c.data_stack.where_ 2 (u16 v)
        (inr (omega (arith, s.data_placed)))
      ∙ i.here;
  above = i.above;
  below = i.below;
}

pub pushed-Placed :
    {low high : ℕ} (t : CellStack)
    → Placed low high t
    → t.where_ + 4 ≤ t.top
    → Placed low high (record t { where_ = t.where_ + 2 })
pushed-Placed t p h = ground arith

pushed-filled :
    (v : ℕ) (c : ForthContext) → Has (roomy on_data) c → Has (filled on_data) (pushed on_data v c)
pushed-filled v c s = record {
  control_placed = s.control_placed;
  data_placed = pushed-Placed c.data_stack s.data_placed s.known;
  return_placed = s.return_placed;
  known = omega (arith, s.data_placed);
}

pub back : (w : ℕ) → w + 2 - 2 ≡ w
back w = omega arith

-- The context after `,`, with the stack pointer and the value as they come.
abbrev cell_compiled_at : ℕ → ℕ → ℕ → ℕ → ℕ → ForthContext → ForthContext
cell_compiled_at w h b x v c = record c {
  dataspace = put_word (put_word (put_word c.dataspace c.data_stack.where_ (u16 v)) h x) 2 b;
  data_stack = record c.data_stack { where_ = w };
}

compile_cell_ok :
    (h v : ℕ) (c : ForthContext)
    → Compiling h c
    → Has (roomy on_data) c
    → compile_cell v c ≡ done (tt, cell_compiled h (u16 v) (h + 2) (u16 v) c)
unfolding compile_cell
compile_cell_ok h v c i s =
    bind_ok (push_cell on_data v) _ c
      (push_ok on_data v c (omega (arith, s.data_placed)) (omega (arith, s.data_placed, s.known)))
    ∙ bind_ok (instr_comma 0) _ (pushed on_data v c)
        (comma_ok h 0 (pushed on_data v c) (pushed_here h v c i s) (pushed-filled v c s))
    ∙ ap
        (λ (w : ℕ). done (
          tt,
          cell_compiled_at w h (h + 2)
              (word_at (put_word c.dataspace c.data_stack.where_ (u16 v)) w) v c,
        ))
        (back c.data_stack.where_)
    ∙ ap (λ (x : ℕ). done (tt, cell_compiled h (u16 v) (h + 2) x c))
        (word_at-put_word c.dataspace c.data_stack.where_ (u16 v) ∙ small (u16 v) (omega arith))

-- The code between IF and THEN.
pub compile_cells : List ℕ → F (Unit {0})
compile_cells [] = pure tt
compile_cells (v ∷ vs) = do compile_cell v; compile_cells vs

-- Between IF and THEN, with HERE at h' by now.
pub record Body (h e k h' : ℕ) (c : ForthContext) : Type 0 where
  pub pending : Pending h e k c.dataspace
  pub here : word_at c.dataspace 2 ≡ h'
  pub after_jump : h + 4 ≤ h'
  pub has : Has (roomy on_data) c
  pub pointer : c.control_stack.where_ ≡ k + 2

cell_Body :
    (h e k h' v : ℕ) (c : ForthContext)
    → Spaced h e k
    → h' ≤ 65360
    → Body h e k h' c
    → Body h e k (h' + 2) (cell_compiled h' (u16 v) (h' + 2) (u16 v) c)
cell_Body h e k h' v c s l b = record {
  pending = put_word-Pending h e k 2 (h' + 2) _ s (inr (omega arith)) (
      put_word-Pending h e k h' (u16 v) _ s (inl (omega (arith, b.after_jump), omega arith)) (
        put_word-Pending h e k c.data_stack.where_ (u16 v) _ s
          (inl (omega (arith, s.below_stacks, b.has.data_placed), omega (arith, b.has.data_placed)))
          b.pending));
  here =
      word_at-put_word (put_word (put_word c.dataspace c.data_stack.where_ (u16 v)) h' (u16 v)) 2
        (h' + 2)
      ∙ small (h' + 2) (omega arith);
  after_jump = omega (arith, b.after_jump);
  has = b.has;
  pointer = b.pointer;
}

pub compile_cells_ok :
    (cells : List ℕ) (h e k h' : ℕ) (c : ForthContext)
    → Spaced h e k
    → h' + 2 * length cells ≤ 65360
    → Body h e k h' c
    → Succeeds (Body h e k (h' + 2 * length cells)) (compile_cells cells c)
unfolding compile_cells
compile_cells_ok [] h e k h' c s l b =
    subst (λ (n : ℕ). Succeeds {A = Unit {0}} (Body h e k n) (done (tt, c))) (none_added h')
      (succeeds b)
  where
    none_added : (n : ℕ) → n ≡ n + 2 * 0
    none_added n = omega arith
compile_cells_ok (v ∷ vs) h e k h' c s l b =
    subst
      (λ (o : Outcome (Unit {0} × ForthContext)).
        Succeeds (Body h e k (h' + 2 * suc (length vs))) o)
      (sym
        (bind_ok (compile_cell v) (λ _. compile_cells vs) c (compile_cell_ok h' v c at_here b.has)))
      (subst (λ (n : ℕ). Succeeds (Body h e k n) (compile_cells vs c')) (one_added h' (length vs))
        (compile_cells_ok vs h e k (h' + 2) c' s (omega (arith, l))
          (cell_Body h e k h' v c s (omega (arith, l)) b)))
  where
    c' : ForthContext
    c' = cell_compiled h' (u16 v) (h' + 2) (u16 v) c

    at_here : Compiling h' c
    at_here = record {
      here = b.here;
      above = omega (arith, b.after_jump, s.after_word, s.after_variables);
      below = omega (arith, l);
    }

    one_added : (n m : ℕ) → n + 2 + 2 * m ≡ n + 2 * suc m
    one_added n m = omega arith

pub then_ok :
    (h e k h' w : ℕ) (c : ForthContext)
    → Spaced h e k
    → h' ≤ 65360
    → Has (filled on_control) c
    → Body h e k h' c
    → instr_then w c
      ≡ done (
        u16 (c.ip + 2),
        record (popped on_control c) { dataspace = put_word c.dataspace (h + 2) h' },
      )
unfolding instr_then next
then_ok h e k h' w c s l f b =
    bind_ok (fetch16ubits 2) _ c (fetch_ok 2 c (omega arith) ∙ ap (λ (x : ℕ). done (x, c)) b.here)
    ∙ empty_ok on_control w _ c (omega (arith, f.control_placed, f.known))
    ∙ bind_ok (pop_cell on_control) _ c (
        pop_ok on_control c (omega (arith, f.control_placed, f.known))
          (omega (arith, f.control_placed)) (omega (arith, f.control_placed))
        ∙ ap (λ (a : ℕ). done (a, popped on_control c)) operand_is)
    ∙ bind_ok (store16ubits (h + 2) h') _ (popped on_control c)
        (store_ok (h + 2) h' (popped on_control c) (omega (arith, s.below_stacks)))
  where
    operand_is : word_at c.dataspace (c.control_stack.where_ - 2) ≡ h + 2
    operand_is =
        ap (λ (w : ℕ). word_at c.dataspace (w - 2)) b.pointer
        ∙ ap (λ (w : ℕ). word_at c.dataspace w) (back k)
        ∙ b.pending.operand
