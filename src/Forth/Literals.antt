-- ===== src/Forth/Literals.antt =====
-- LITERAL and the instruction PUSH that it compiles.
use fprcade.Common.{ℕ, ◌≡◌, ap, ◌∙◌, inl, inr, u16, ◌+◌, ◌-◌, ◌≤◌, ◌<◌, arith}
use fprcade.Forth.State.{CellStack, ForthContext, done, ◌>>=◌, ◌>>◌, next, get_ip, on_data}
use fprcade.Forth.Memory.{fetch16ubits, store16ubits, push_cell, pop_cell}
use fprcade.Forth.Dictionary.{find_via_opcode}
use fprcade.Forth.Opcodes.{op_push}
use fprcade.Forth.StackWords.{instr_push}
use fprcade.Forth.ControlFlow.{instr_literal}
use fprcade.Forth.Interpreters.{inner_step, set_ip}
use fprcade.Forth.MemoryLaws.{
  word_at, put_word, bind_ok, fetch_ok, store_ok, push_ok, pushed, popped, word_at-put_word,
  word_at-put_other,
}
use fprcade.Forth.CodeLaws.{code_at, step_ok, full_ok, empty_ok, run_push, data_pop_ok, small}
use fprcade.Forth.Conditionals.{Compiling, WordAt, four}
use fprcade.Forth.Safety.Rules.{Has, filled, roomy, Placed}

-- The context after LITERAL at h.
abbrev pub literal_compiled : ℕ → ℕ → ℕ → ForthContext → ForthContext
literal_compiled h e n c = record (popped on_data c) {
  dataspace = put_word (put_word (put_word c.dataspace h e) (h + 2) n) 2 (h + 4);
}

literal_ok :
    (h e w : ℕ) (c : ForthContext)
    → Compiling h c
    → Has (filled on_data) c
    → WordAt op_push e h (popped on_data c)
    → instr_literal w c
      ≡ done
          (u16 (c.ip + 2), literal_compiled h e (word_at c.dataspace (c.data_stack.where_ - 2)) c)
unfolding instr_literal next
literal_ok h e w c i s f =
    let n = word_at c.dataspace (c.data_stack.where_ - 2) in
    let c' = popped on_data c in
    let at : ℕ → ℕ → ForthContext =
      λ a b. record c' { dataspace = put_word (put_word (put_word c.dataspace h e) a n) 2 b } in
    empty_ok on_data w _ c (omega (arith, s.data_placed, s.known))
    ∙ bind_ok (pop_cell on_data) _ c (data_pop_ok c s)
    ∙ bind_ok (fetch16ubits 2) _ c'
        (fetch_ok 2 c' (omega arith) ∙ ap (λ (x : ℕ). done (x, c')) i.here)
    ∙ bind_ok (find_via_opcode op_push) _ c' f.found
    ∙ bind_ok (store16ubits h e) _ c' (store_ok h e c' (omega (arith, i.below)))
    ∙ bind_ok (store16ubits (u16 (h + 2)) n) _ _
        (store_ok (u16 (h + 2)) n _ (omega (arith, i.below)))
    ∙ bind_ok (store16ubits 2 (u16 (u16 (h + 2) + 2))) _ _
        (store_ok 2 (u16 (u16 (h + 2) + 2)) _ (omega arith))
    ∙ ap (λ (a : ℕ). done (u16 (c.ip + 2), at a (u16 (a + 2))))
        (small (h + 2) (omega (arith, i.below)))
    ∙ ap (λ (b : ℕ). done (u16 (c.ip + 2), at (h + 2) b)) (four h (omega (arith, i.below)))

-- The cells that LITERAL compiled, and the header of PUSH.
literal_cells :
    (h e n : ℕ) (d : ℕ → ℕ)
    → 1166 ≤ e
    → e + 8 ≤ h
    → h ≤ 65360
    → code_at d e ≡ op_push
    → (word_at (put_word (put_word (put_word d h e) (h + 2) n) 2 (h + 4)) h ≡ e)
      × (word_at (put_word (put_word (put_word d h e) (h + 2) n) 2 (h + 4)) (h + 2) ≡ u16 n)
      × (code_at (put_word (put_word (put_word d h e) (h + 2) n) 2 (h + 4)) e ≡ op_push)
literal_cells h e n d a l m k = (
  word_at-put_other d2 2 h (h + 4) (inl (omega arith))
      ∙ word_at-put_other d1 (h + 2) h n (inr (omega arith))
      ∙ word_at-put_word d h e
      ∙ small e (omega arith),
  word_at-put_other d2 2 (h + 2) (h + 4) (inl (omega arith)) ∙ word_at-put_word d1 (h + 2) n,
  omega (
    arith,
    kept (e + 4) (omega arith) (omega arith),
    kept (e + 4 + 2) (omega arith) (omega arith),
  ),
)
  where
    d1 : ℕ → ℕ
    d1 = put_word d h e

    d2 : ℕ → ℕ
    d2 = put_word d1 (h + 2) n

    kept : (j : ℕ) → 4 ≤ j → j + 1 < h → word_at (put_word d2 2 (h + 4)) j ≡ word_at d j
    kept j p q =
        word_at-put_other d2 2 j (h + 4) (inl (omega arith))
        ∙ word_at-put_other d1 (h + 2) j n (inr (omega arith))
        ∙ word_at-put_other d h j e (inr (omega arith))

push_instr_ok :
    (w : ℕ) (c : ForthContext)
    → Has (roomy on_data) c
    → c.ip + 4 < 65536
    → instr_push w c ≡ done (c.ip + 4, pushed on_data (word_at c.dataspace (c.ip + 2)) c)
unfolding instr_push next get_ip
push_instr_ok w c s l =
    full_ok on_data w _ c (omega (arith, s.data_placed, s.known))
    ∙ ap (λ (a : ℕ). (fetch16ubits a >>= λ n. do push_cell on_data n; next 4) c)
        (small (c.ip + 2) (omega arith))
    ∙ bind_ok (fetch16ubits (c.ip + 2)) _ c (fetch_ok (c.ip + 2) c (omega arith))
    ∙ bind_ok (push_cell on_data (word_at c.dataspace (c.ip + 2))) _ c
        (push_ok on_data _ c (omega (arith, s.data_placed)) (omega (arith, s.data_placed, s.known)))
    ∙ ap (λ (a : ℕ). done (a, pushed on_data (word_at c.dataspace (c.ip + 2)) c))
        (small (c.ip + 4) l)

popped_roomy : (c : ForthContext) → Has (filled on_data) c → Has (roomy on_data) (popped on_data c)
popped_roomy c s = record {
  control_placed = s.control_placed;
  data_placed = popped_placed c.data_stack s.data_placed s.known;
  return_placed = s.return_placed;
  known = omega (arith, s.known, s.data_placed);
}
  where
    popped_placed :
        (t : CellStack)
        → Placed 65378 65442 t
        → t.bottom + 2 ≤ t.where_
        → Placed 65378 65442 (record t { where_ = t.where_ - 2 })
    popped_placed t p k = ground arith

-- Where LITERAL took a number n from the data stack and compiled it at h, the inner interpreter at h
-- pushes the 16 bits of n and goes on behind it.
pub literal-inner_step :
    (h e w : ℕ) (c : ForthContext)
    → Compiling h c
    → Has (filled on_data) c
    → WordAt op_push e h (popped on_data c)
    → (do _ ← instr_literal w; set_ip h; inner_step) c ≡ (
        let n = word_at c.dataspace (c.data_stack.where_ - 2) in
        done (tt, record (pushed on_data (u16 n) (literal_compiled h e n c)) { ip = h + 4 }))
unfolding set_ip
literal-inner_step h e w c i s f =
    let n = word_at c.dataspace (c.data_stack.where_ - 2) in
    let c' = record (literal_compiled h e n c) { ip = h } in
    let cells = literal_cells h e n c.dataspace f.above f.below i.below f.code in
    bind_ok (instr_literal w) _ c (literal_ok h e w c i s f)
    ∙ step_ok c' e op_push (omega (arith, i.below)) cells.0 (omega (arith, f.below, i.below))
        cells.2 (run_push e c' ∙ push_instr_ok e c' (popped_roomy c s) (omega (arith, i.below)))
    ∙ ap (λ (v : ℕ). done (tt, record (pushed on_data v c') { ip = h + 4 })) cells.1
