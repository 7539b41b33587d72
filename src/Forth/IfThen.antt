-- ===== src/Forth/IfThen.antt =====
-- A whole conditional, compiled and run.
use fprcade.Common.{
  ℕ, ◌≡◌, Bool, true, false, refl, ap, ◌∙◌, inl, inr, List, length, ◌==◌, if◌then◌else◌, u16, ◌+◌,
  ◌-◌, ◌*◌, ◌≤◌, ◌<◌, arith,
}
use fprcade.Forth.State.{ForthContext, Outcome, done, F, pure, ◌>>=◌, ◌>>◌, on_control, on_data}
use fprcade.Forth.Opcodes.{op_jump_if}
use fprcade.Forth.ControlFlow.{instr_if, instr_then}
use fprcade.Forth.Interpreters.{inner_step}
use fprcade.Forth.MemoryLaws.{word_at, put_word, popped, word_at-put_word, word_at-put_other}
use fprcade.Forth.CodeLaws.{step_ok, run_jump_if, jump_if_ok, small}
use fprcade.Forth.Outcomes.{Succeeds, succeeds, bind-Succeeds, by_value}
use fprcade.Forth.Conditionals.{
  Compiling, WordAt, if_compiled, if_ok, Pending, Spaced, Body, compile_cells, compile_cells_ok,
  then_ok, pushed-Placed,
}
use fprcade.Forth.Safety.Rules.{Has, filled, roomy}

-- IF, the cells of a body, and THEN.
pub if_then : List ℕ → F (Unit {0})
if_then cells = do _ ← instr_if 0; compile_cells cells; _ ← instr_then 0; pure tt

-- The compiled branch: the jump at h, and its operand.
record Branch (h e h' : ℕ) (d : ℕ → ℕ) : Type 0 where
  pub jump : word_at d h ≡ e
  pub low : word_at d (e + 4) ≡ op_jump_if
  pub high : word_at d (e + 4 + 2) ≡ 0
  pub operand : word_at d (h + 2) ≡ h'

-- The data space that IF leaves, at the cells that it does not write and at those that it does.
abbrev if_dataspace : ℕ → ℕ → ℕ → (ℕ → ℕ) → ℕ → ℕ
if_dataspace h e k d =
    put_word (put_word (put_word (put_word d h e) (h + 2) 0) k (u16 (h + 2))) 2 (h + 4)

kept_below :
    (h e k j : ℕ) (d : ℕ → ℕ)
    → 4 ≤ j
    → j + 1 < h
    → h + 3 < k
    → word_at (if_dataspace h e k d) j ≡ word_at d j
kept_below h e k j d l m n =
    word_at-put_other (put_word (put_word (put_word d h e) (h + 2) 0) k (u16 (h + 2))) 2 j (h + 4)
      (inl (omega arith))
    ∙ word_at-put_other (put_word (put_word d h e) (h + 2) 0) k j (u16 (h + 2)) (inr (omega arith))
    ∙ word_at-put_other (put_word d h e) (h + 2) j 0 (inr (omega arith))
    ∙ word_at-put_other d h j e (inr (omega arith))

jump_stored :
    (h e k : ℕ) (d : ℕ → ℕ) → 4 ≤ h → e < 65536 → h + 3 < k → word_at (if_dataspace h e k d) h ≡ e
jump_stored h e k d l m n =
    word_at-put_other (put_word (put_word (put_word d h e) (h + 2) 0) k (u16 (h + 2))) 2 h (h + 4)
      (inl (omega arith))
    ∙ word_at-put_other (put_word (put_word d h e) (h + 2) 0) k h (u16 (h + 2)) (inr (omega arith))
    ∙ word_at-put_other (put_word d h e) (h + 2) h 0 (inr (omega arith))
    ∙ word_at-put_word d h e
    ∙ small e m

place_stored :
    (h e k : ℕ) (d : ℕ → ℕ) → h + 2 < 65536 → 4 ≤ k → word_at (if_dataspace h e k d) k ≡ h + 2
place_stored h e k d l m =
    word_at-put_other (put_word (put_word (put_word d h e) (h + 2) 0) k (u16 (h + 2))) 2 k (h + 4)
      (inl (omega arith))
    ∙ word_at-put_word (put_word (put_word d h e) (h + 2) 0) k (u16 (h + 2))
    ∙ ap u16 (small (h + 2) l)
    ∙ small (h + 2) l

-- IF leaves the state between IF and THEN.
if_Body :
    (h e : ℕ) (c : ForthContext)
    → Compiling h c
    → Has (roomy on_control) c
    → Has (roomy on_data) c
    → WordAt op_jump_if e h c
    → Body h e c.control_stack.where_ (h + 4) (if_compiled h (h + 2) (h + 4) e c)
if_Body h e c i r q f =
    let k = c.control_stack.where_ in
    record {
      pending = record {
        jump =
            jump_stored h e k c.dataspace (omega (arith, i.above)) (omega (arith, f.below, i.below))
              (omega (arith, i.below, r.control_placed));
        low =
            kept_below h e k (e + 4) c.dataspace (omega arith) (omega (arith, f.below))
              (omega (arith, i.below, r.control_placed))
            ∙ omega (arith, f.code);
        high =
            kept_below h e k (e + 4 + 2) c.dataspace (omega arith) (omega (arith, f.below))
              (omega (arith, i.below, r.control_placed))
            ∙ omega (arith, f.code);
        operand =
            place_stored h e k c.dataspace (omega (arith, i.below))
              (omega (arith, r.control_placed));
      };
      here =
          word_at-put_word
            (put_word (put_word (put_word c.dataspace h e) (h + 2) 0) k (u16 (h + 2))) 2 (h + 4)
          ∙ small (h + 4) (omega (arith, i.below));
      after_jump = omega arith;
      has = record {
        control_placed = pushed-Placed c.control_stack r.control_placed r.known;
        data_placed = q.data_placed;
        return_placed = q.return_placed;
        known = q.known;
      };
      pointer = refl;
    }

-- A branch that was compiled is taken exactly where the flag is 0.
Branch-step :
    (h e h' : ℕ) (x : ForthContext)
    → x.ip ≡ h
    → h + 4 < 65536
    → e + 7 < 65536
    → Has (filled on_data) x
    → Branch h e h' x.dataspace
    → inner_step x
      ≡ done (
        tt,
        record (popped on_data x) {
          ip = if word_at x.dataspace (x.data_stack.where_ - 2) == 0 then h' else h + 4;
        },
      )
Branch-step h e h' x i l m f b =
    step_ok x e op_jump_if (omega (arith, i)) (ap (λ (a : ℕ). word_at x.dataspace a) i ∙ b.jump) m
      (opcode b.low b.high) (run_jump_if e x ∙ jump_if_ok e x f (omega (arith, i)))
    ∙ ap (λ (o : ℕ). done (tt, record (popped on_data x) { ip = o }))
        (targets (word_at x.dataspace (x.data_stack.where_ - 2) == 0))
  where
    opcode : {u v : ℕ} → u ≡ op_jump_if → v ≡ 0 → u + 65536 * v ≡ op_jump_if
    opcode p q = omega arith

    targets :
        (flag : Bool)
        → (if flag then word_at x.dataspace (x.ip + 2) else x.ip + 4) ≡ (if flag then h' else h + 4)
    targets true = ap (λ (a : ℕ). word_at x.dataspace (a + 2)) i ∙ b.operand
    targets false = ap (λ (a : ℕ). a + 4) i

-- THEN leaves the branch complete.
then_Branch :
    (h e k h' : ℕ) (d : ℕ → ℕ)
    → Spaced h e k
    → h' < 65536
    → Pending h e k d
    → Branch h e h' (put_word d (h + 2) h')
then_Branch h e k h' d s l p = record {
  jump = word_at-put_other d (h + 2) h h' (inr (omega arith)) ∙ p.jump;
  low = word_at-put_other d (h + 2) (e + 4) h' (inr (omega (arith, s.after_word))) ∙ p.low;
  high = word_at-put_other d (h + 2) (e + 4 + 2) h' (inr (omega (arith, s.after_word))) ∙ p.high;
  operand = word_at-put_word d (h + 2) h' ∙ small h' l;
}

Body-filled :
    (h e k h' : ℕ) (c : ForthContext) → 65444 ≤ k → Body h e k h' c → Has (filled on_control) c
Body-filled h e k h' c l b = record {
  control_placed = b.has.control_placed;
  data_placed = b.has.data_placed;
  return_placed = b.has.return_placed;
  known = omega (arith, b.pointer, b.has.control_placed);
}

if_then-Branch :
    (cells : List ℕ) (h e : ℕ) (c : ForthContext)
    → Compiling h c
    → h + 4 + 2 * length cells ≤ 65360
    → Has (roomy on_control) c
    → Has (roomy on_data) c
    → WordAt op_jump_if e h c
    → Succeeds (λ c'. Branch h e (h + 4 + 2 * length cells) c'.dataspace) (if_then cells c)
unfolding if_then
if_then-Branch cells h e c i l r q f =
    bind-Succeeds _ (by_value (if_ok h e 0 c i r f) (if_Body h e c i r q f)) λ _ c1 b1.
      bind-Succeeds _ (compile_cells_ok cells h e k (h + 4) c1 spaced l b1) λ _ c2 b2.
        bind-Succeeds _
          (by_value
            (then_ok h e k end 0 c2 spaced l
              (Body-filled h e k end c2 (omega (arith, r.control_placed)) b2) b2)
            (then_Branch h e k end c2.dataspace spaced (omega (arith, l)) b2.pending))
          (λ _ c3 b3. succeeds b3)
  where
    k : ℕ
    k = c.control_stack.where_

    end : ℕ
    end = h + 4 + 2 * length cells

    spaced : Spaced h e k
    spaced = record {
      after_variables = f.above;
      after_word = f.below;
      below_stacks = omega (arith, i.below);
      in_stack = omega (arith, r.control_placed);
      in_space = omega (arith, r.control_placed, r.known);
    }

-- With HERE at h and room on the control and the data stack, IF, a body of compiled cells and THEN do
-- return, and an inner interpreter that comes to h with a flag on its data stack takes it and goes on
-- behind the body where it is 0, and else at the first cell of the body.
pub inner_step-if_then :
    (cells : List ℕ) (h e : ℕ) (c x : ForthContext)
    → Compiling h c
    → h + 4 + 2 * length cells ≤ 65360
    → Has (roomy on_control) c
    → Has (roomy on_data) c
    → WordAt op_jump_if e h c
    → x.ip ≡ h
    → Has (filled on_data) x
    → Succeeds
        (λ c'.
          inner_step (record x { dataspace = c'.dataspace })
          ≡ done (
            tt,
            record (popped on_data x) {
              dataspace = c'.dataspace;
              ip =
                  if word_at c'.dataspace (x.data_stack.where_ - 2) == 0
                  then h + 4 + 2 * length cells
                  else h + 4;
            },
          ))
        (if_then cells c)
inner_step-if_then cells h e c x i l r q f a s =
    weaken_Succeeds (if_then-Branch cells h e c i l r q f) λ c' b.
      Branch-step h e (h + 4 + 2 * length cells) (record x { dataspace = c'.dataspace }) a
        (omega (arith, i.below)) (omega (arith, f.below, i.below)) s b
  where
    weaken_Succeeds :
        {A : Type 0} {Q R : ForthContext → Type 0} {o : Outcome (A × ForthContext)}
        → Succeeds Q o
        → ((c : ForthContext) → Q c → R c)
        → Succeeds R o
    weaken_Succeeds (succeeds h) k = succeeds (k _ h)
