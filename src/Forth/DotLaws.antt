-- ===== src/Forth/DotLaws.antt =====
-- What goes wrong in `.` and `@`.
use native.Mathlib.Nat.{div-mul-le_self, div-le_self, pow-suc}
use fprcade.Common.{
  ℕ, zero, suc, ◌≡◌, ◌≢◌, refl, ap, ◌∙◌, true, false, List, [], ◌∷◌, ◌++◌, length, ℤ, pos, i16,
  ◌==◌, ltb, ◌+◌, ◌-◌, ◌/◌, ◌^◌, ◌≤◌, ◌<◌, arith, le→ltb, Bool-cases, inl, inr,
}
use fprcade.Forth.State.{
  ForthContext, Outcome, Stop, done, stop, pop_assert, indeterminate, F, ◌>>=◌, on_data,
}
use fprcade.Forth.Memory.{fetch16ubits, pop_cell}
use fprcade.Forth.StackWords.{instr_at}
use fprcade.Forth.Printing.{
  dot_char, positive_quotient, dot_loop, buffer_char, print_down, print_in_base, instr_dot,
}
use fprcade.Forth.MemoryLaws.{word_at, bind_ok, fetch_ok, popped}
use fprcade.Forth.CodeLaws.{full_ok, data_pop_ok}
use fprcade.Forth.Safety.Rules.{Has, ready, filled}

pop_empty :
    (c : ForthContext)
    → c.data_stack.where_ ≡ c.data_stack.bottom
    → pop_cell on_data c ≡ stop pop_assert
unfolding pop_cell
pop_empty c e = rw (same c.data_stack.where_ c.data_stack.bottom e) refl
  where
    same : (m n : ℕ) → m ≡ n → (m == n) ≡ true
    same m n e = ground arith

-- A stop of the first piece ends the chain.
bind_stop :
    {A B : Type 0} {s : Stop} (m : F A) (f : A → F B) (c : ForthContext)
    → m c ≡ stop s
    → (m >>= f) c ≡ stop s
bind_stop {A} {B} m f c e =
    ap {B = Outcome (B × ForthContext)}
      (λ (r : Outcome (A × ForthContext)). elim r [ stop e ↦ stop e | done (a, c') ↦ f a c' ]) e

-- On an empty data stack `.` and `@` do not abort: they fail the assertion of `pop`, which ends the
-- program.
pub instr_dot-instr_at-empty :
    (w : ℕ) (c : ForthContext)
    → Has ready c
    → c.data_stack.where_ ≡ c.data_stack.bottom
    → (instr_dot w c ≡ stop pop_assert) × (instr_at w c ≡ stop pop_assert)
unfolding instr_dot instr_at
instr_dot-instr_at-empty w c s e = (
  bind_stop (pop_cell on_data) _ c (pop_empty c e),
  full_ok on_data w _ c (omega (arith, s.data_placed))
      ∙ bind_stop (pop_cell on_data) _ c (pop_empty c e),
)

print_down_past :
    (buffer : List ℕ) (i : ℕ) (c : ForthContext)
    → length buffer ≤ i
    → print_down buffer i c ≡ stop indeterminate
unfolding print_down buffer_char
print_down_past buffer zero c h = rw (le→ltb zero (length buffer) h) refl
print_down_past buffer (suc i) c h = rw (le→ltb (suc i) (length buffer) h) refl

print_filled : List ℕ → F (Unit {0})
print_filled buffer = print_down buffer (length buffer)

halved : (m base k : ℕ) → 2 ≤ base → m < 2 ^ suc k → m / base < 2 ^ k
halved m base k h l = grind (arith, div-mul-le_self m base, pow-suc 2 k)

-- The loop of `.` in a base of two or more ends before its assertion fails, and the first character
-- that is printed then is one that it did not write.
dot_loop_prints :
    (fuel k : ℕ) (n : ℤ) (base : ℕ) (number : ℤ) (buffer : List ℕ) (c : ForthContext)
    → 2 ≤ base
    → positive_quotient number base < 2 ^ k
    → k + 2 ≤ fuel
    → (dot_loop fuel n base number buffer >>= print_filled) c ≡ stop indeterminate
unfolding dot_loop print_filled
dot_loop_prints zero k n base number buffer c h l m = absurd (omega arith)
dot_loop_prints (suc fuel) k n base number buffer c h l m =
    elim (Bool-cases (positive_quotient number base == 0)) [
      | inl e ↦
          rw (not_zero fuel (omega arith), e)
            (print_down_past (buffer ++ dot_char n base ∷ [])
              (length (buffer ++ dot_char n base ∷ [])) c (omega arith))
      | inr e ↦
          rw (not_zero fuel (omega arith), e)
            (more k l m e (λ j p q.
              dot_loop_prints fuel j n base (pos (positive_quotient number base))
                (buffer ++ dot_char n base ∷ []) c h p q))
    ]
  where
    not_zero : (i : ℕ) → 1 ≤ i → (i == 0) ≡ false
    not_zero i h = ground arith

    more :
        (k : ℕ)
        → positive_quotient number base < 2 ^ k
        → k + 2 ≤ suc fuel
        → (positive_quotient number base == 0) ≡ false
        → ((j : ℕ)
            → positive_quotient number base / base < 2 ^ j
            → j + 2 ≤ fuel
            → (dot_loop fuel n base
                    (pos (positive_quotient number base))
                    (buffer ++ dot_char n base ∷ [])
                  >>= print_filled)
                c
              ≡ stop indeterminate)
        → (dot_loop fuel n base
                (pos (positive_quotient number base))
                (buffer ++ dot_char n base ∷ [])
              >>= print_filled)
            c
          ≡ stop indeterminate
    more zero l m e ih = absurd (ground arith)
    more (suc k) l m e ih = ih k (halved (positive_quotient number base) base k h l) (omega arith)

print_in_base_stops :
    (n : ℤ) (base : ℕ) (c : ForthContext)
    → 2 ≤ base
    → base ≢ 10
    → base ≢ 16
    → positive_quotient n base < 2 ^ 15
    → print_in_base n base c ≡ stop indeterminate
unfolding print_in_base print_filled
print_in_base_stops n base c h i j l =
    rw (other base 16 j, other base 10 i, other base 0 (omega arith))
      (dot_loop_prints 17 15 n base n [] c h l (omega arith))
  where
    other : (b k : ℕ) → b ≢ k → (b == k) ≡ false
    other b k h = ground arith

quotient_small : (w base : ℕ) → 2 ≤ base → positive_quotient (i16 w) base < 2 ^ 15
quotient_small w base h = elim (Bool-cases (ltb w 32768)) [
  | inl e ↦ rw e (smaller e)
  | inr e ↦ rw e (omega arith)
]
  where
    smaller : ltb w 32768 ≡ true → w / base < 32768
    smaller e = ground (arith, div-le_self w base)

-- With a base of two or more that is neither ten nor sixteen, `.` takes any number and then prints a
-- character of its buffer that was never written.
pub instr_dot-indeterminate :
    (w base : ℕ) (c : ForthContext)
    → Has (filled on_data) c
    → word_at c.dataspace 6 ≡ base
    → 2 ≤ base
    → base ≢ 10
    → base ≢ 16
    → instr_dot w c ≡ stop indeterminate
unfolding instr_dot
instr_dot-indeterminate w base c s e h i j =
    let n = word_at c.dataspace (c.data_stack.where_ - 2) in
    let c' = popped on_data c in
    bind_ok (pop_cell on_data) _ c (data_pop_ok c s)
    ∙ bind_ok (fetch16ubits 6) _ c' (fetch_ok 6 c' (omega arith) ∙ ap (λ (x : ℕ). done (x, c')) e)
    ∙ bind_stop (print_in_base (i16 n) base) _ c'
        (print_in_base_stops (i16 n) base c' h i j (quotient_small n base h))
