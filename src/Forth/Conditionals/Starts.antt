-- ===== src/Forth/Conditionals/Starts.antt =====
-- IF: the context that it leaves, and the jump that waits for its operand.
use fprcade.Common.{ℕ, ◌≡◌, ap, ◌∙◌, ◌⊎◌, u16, ◌+◌, ◌≤◌, ◌<◌, arith}
use fprcade.Forth.State.{ForthContext, done, next, on_control}
use fprcade.Forth.Memory.{fetch16ubits, store16ubits, push_cell}
use fprcade.Forth.Dictionary.{find_via_opcode}
use fprcade.Forth.Opcodes.{op_jump_if}
use fprcade.Forth.ControlFlow.{instr_if}
use fprcade.Forth.MemoryLaws.{
  word_at, put_word, bind_ok, fetch_ok, store_ok, push_ok, word_at-put_other,
}
use fprcade.Forth.CodeLaws.{code_at, full_ok, small}
use fprcade.Forth.Safety.Rules.{Has, roomy}

-- HERE stands at h, after the variables and well below the stacks.
pub record Compiling (h : ℕ) (c : ForthContext) : Type 0 where
  pub here : word_at c.dataspace 2 ≡ h
  pub above : 1166 ≤ h
  pub below : h ≤ 65360

-- The word that an opcode is found by, in the dictionary below HERE.
pub record WordAt (op e h : ℕ) (c : ForthContext) : Type 0 where
  pub found : find_via_opcode op c ≡ done (e, c)
  pub code : code_at c.dataspace e ≡ op
  pub above : 1166 ≤ e
  pub below : e + 8 ≤ h

-- The context after IF at h.
abbrev pub if_compiled : ℕ → ℕ → ℕ → ℕ → ForthContext → ForthContext
if_compiled h a b e c =
    let k = c.control_stack.where_ in
    record c {
      dataspace = put_word (put_word (put_word (put_word c.dataspace h e) a 0) k (u16 a)) 2 b;
      control_stack = record c.control_stack { where_ = k + 2 };
    }

pub four : (h : ℕ) → h + 4 < 65536 → u16 (h + 2 + 2) ≡ h + 4
four h l = omega arith

pub if_ok :
    (h e w : ℕ) (c : ForthContext)
    → Compiling h c
    → Has (roomy on_control) c
    → WordAt op_jump_if e h c
    → instr_if w c ≡ done (u16 (c.ip + 2), if_compiled h (h + 2) (h + 4) e c)
unfolding instr_if next
if_ok h e w c i s f =
    full_ok on_control w _ c (omega (arith, s.control_placed, s.known))
    ∙ bind_ok (fetch16ubits 2) _ c (fetch_ok 2 c (omega arith) ∙ ap (λ (x : ℕ). done (x, c)) i.here)
    ∙ bind_ok (find_via_opcode op_jump_if) _ c f.found
    ∙ bind_ok (store16ubits h e) _ c (store_ok h e c (omega arith))
    ∙ bind_ok (store16ubits (u16 (h + 2)) 0) _ _ (store_ok (u16 (h + 2)) 0 _ (omega arith))
    ∙ bind_ok (push_cell on_control (u16 (h + 2))) _ _ (
        push_ok on_control (u16 (h + 2)) _ (omega (arith, s.control_placed))
          (omega (arith, s.control_placed, s.known)))
    ∙ bind_ok (store16ubits 2 (u16 (u16 (h + 2) + 2))) _ _
        (store_ok 2 (u16 (u16 (h + 2) + 2)) _ (omega arith))
    ∙ ap (λ (a : ℕ). done (u16 (c.ip + 2), if_compiled h a (u16 (a + 2)) e c))
        (small (h + 2) (omega arith))
    ∙ ap (λ (b : ℕ). done (u16 (c.ip + 2), if_compiled h (h + 2) b e c)) (four h (omega arith))

-- The jump stands at h, its operand waits at h + 2, and the cell at k holds the address of the operand.
pub record Pending (h e k : ℕ) (d : ℕ → ℕ) : Type 0 where
  pub jump : word_at d h ≡ e
  pub low : word_at d (e + 4) ≡ op_jump_if
  pub high : word_at d (e + 4 + 2) ≡ 0
  pub operand : word_at d k ≡ h + 2

-- The addresses of these cells are apart from one another.
pub record Spaced (h e k : ℕ) : Type 0 where
  pub after_variables : 1166 ≤ e
  pub after_word : e + 8 ≤ h
  pub below_stacks : h ≤ 65366
  pub in_stack : 65444 ≤ k
  pub in_space : k + 2 ≤ 65482

-- A cell stored after the jump and below the control stack, or in a variable, leaves them as they are.
pub put_word-Pending :
    (h e k i v : ℕ) (d : ℕ → ℕ)
    → Spaced h e k
    → (h + 3 < i) × (i < 65442) ⊎ (i + 1 < 1166)
    → Pending h e k d
    → Pending h e k (put_word d i v)
put_word-Pending h e k i v d s a p = record {
  jump = word_at-put_other d i h v (ground arith) ∙ p.jump;
  low = word_at-put_other d i (e + 4) v (ground arith) ∙ p.low;
  high = word_at-put_other d i (e + 4 + 2) v (ground arith) ∙ p.high;
  operand = word_at-put_other d i k v (ground arith) ∙ p.operand;
}
