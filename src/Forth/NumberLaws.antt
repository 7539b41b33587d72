-- ===== src/Forth/NumberLaws.antt =====
-- (NUMBER) on a string of decimal digits.
use fprcade.Common.{
  ℕ, suc, ◌≡◌, refl, sym, ap, ◌∙◌, false, List, [], ◌∷◌, length, some, ◌==◌, u16, ◌+◌, ◌-◌, ◌*◌,
  ◌%◌, ◌≤◌, ◌<◌, arith,
}
use fprcade.Forth.State.{ForthContext, done, next, on_data}
use fprcade.Forth.Memory.{read_at, fetch16ubits, push_cell, pop_cell}
use fprcade.Forth.Numbers.{digit_value, u32, number_loop, number_start, parse_number, instr_pnumber}
use fprcade.Forth.MemoryLaws.{word_at, bind_ok, fetch_ok, read_at_ok, push_ok, pushed, popped}
use fprcade.Forth.CodeLaws.{empty_ok, full_ok, data_pop_ok}
use fprcade.Forth.Safety.Rules.{Has, filled}

-- The characters from index i of the string on are these decimal digits.
pub data DigitsAt (m : ℕ → ℕ) (string : ℕ) : ℕ → List ℕ → Type 0 where
  no_digit : {i : ℕ} → DigitsAt m string i []
  digit :
      {i d : ℕ} {digits : List ℕ}
      → d < 10
      → string + i < 65536
      → m (string + i) ≡ 48 + d
      → DigitsAt m string (i + 1) digits
      → DigitsAt m string i (d ∷ digits)

-- The number that digits stand for behind those of v.
pub decimal_from : ℕ → List ℕ → ℕ
decimal_from v [] = v
decimal_from v (d ∷ digits) = decimal_from (v * 10 + d) digits

digit_ok : (d : ℕ) → d < 10 → digit_value (48 + d) 10 ≡ some d
unfolding digit_value
digit_ok d h = ground arith

differs : (d k : ℕ) → k < 48 → (48 + d == k) ≡ false
differs d k h = ground arith

wrapped : (v d : ℕ) → u32 (u32 (u32 v * 10) + d) ≡ u32 (v * 10 + d)
wrapped v d = omega arith

number_loop_ok :
    (c : ForthContext) (string i v : ℕ) (digits : List ℕ)
    → DigitsAt c.dataspace string i digits
    → number_loop (length digits) string i 10 false (u32 v) c
      ≡ done (some (u32 (decimal_from v digits)), c)
unfolding number_loop decimal_from
number_loop_ok c string i v _ no_digit = refl
number_loop_ok c string i v _ (digit {d} {digits} l b e rest) =
    bind_ok (read_at (string + i)) _ c (read_at_ok (string + i) c b ∙ ap (λ (x : ℕ). done (x, c)) e)
    ∙ rw (differs d 45 (omega arith), digit_ok d l, wrapped v d)
        (number_loop_ok c string (i + 1) (v * 10 + d) digits rest)

low_half : (v : ℕ) → u16 (u32 v) ≡ v % 65536
low_half v = omega arith

one_less : (n : ℕ) → suc n - 1 ≡ n
one_less n = omega arith

small_digit : (d : ℕ) → d < 10 → u32 d ≡ d
small_digit d h = omega arith

parse_number_ok :
    (string d : ℕ) (digits : List ℕ) (c : ForthContext)
    → word_at c.dataspace 6 ≡ 10
    → DigitsAt c.dataspace string 0 (d ∷ digits)
    → parse_number string (suc (length digits)) c ≡ done (some (decimal_from d digits % 65536), c)
unfolding parse_number number_start
parse_number_ok string d digits c base (digit l b e rest) =
    bind_ok (read_at string) _ c
      (read_at_ok string c (omega arith) ∙ ap (λ (x : ℕ). done (x, c)) (first string e))
    ∙ bind_ok (fetch16ubits 6) _ c (fetch_ok 6 c (omega arith) ∙ ap (λ (x : ℕ). done (x, c)) base)
    ∙ rw
        (
          differs d 39 (omega arith),
          differs d 37 (omega arith),
          differs d 35 (omega arith),
          differs d 36 (omega arith),
          differs d 45 (omega arith),
          digit_ok d l,
        )
        (bind_ok (number_loop (suc (length digits) - 1) string 1 10 false d) _ c looped
          ∙ ap (λ (n : ℕ). done (some n, c)) (low_half (decimal_from d digits)))
  where
    looped :
        number_loop (suc (length digits) - 1) string 1 10 false d c
        ≡ done (some (u32 (decimal_from d digits)), c)
    looped =
        ap (λ (k : ℕ). number_loop k string 1 10 false d c) (one_less (length digits))
        ∙ ap (λ (v : ℕ). number_loop (length digits) string 1 10 false v c) (sym (small_digit d l))
        ∙ number_loop_ok c string 1 d digits rest

    first : (s : ℕ) → c.dataspace (s + 0) ≡ 48 + d → c.dataspace s ≡ 48 + d
    first s e = ap c.dataspace (omega arith) ∙ e

-- With a base of ten and room for one more cell, (NUMBER) replaces the address of a counted string of
-- decimal digits by the number that they stand for modulo 2^16, and a 1.
pub instr_pnumber-decimal :
    (w a d : ℕ) (digits : List ℕ) (c : ForthContext)
    → Has (filled on_data) c
    → c.data_stack.where_ + 4 ≤ c.data_stack.top
    → word_at c.dataspace 6 ≡ 10
    → word_at c.dataspace (c.data_stack.where_ - 2) ≡ a
    → a < 65535
    → c.dataspace a ≡ suc (length digits)
    → DigitsAt c.dataspace (a + 1) 0 (d ∷ digits)
    → instr_pnumber w c
      ≡ done (
        u16 (c.ip + 2),
        pushed on_data 1 (pushed on_data (decimal_from d digits % 65536) (popped on_data c)),
      )
unfolding instr_pnumber next
instr_pnumber-decimal w a d digits c s r base top l count chars =
    let c1 = popped on_data c in
    let v = decimal_from d digits % 65536 in
    let c2 = pushed on_data v c1 in
    empty_ok on_data w _ c (omega (arith, s.data_placed, s.known))
    ∙ bind_ok (pop_cell on_data) _ c (data_pop_ok c s ∙ ap (λ (x : ℕ). done (x, c1)) top)
    ∙ bind_ok (read_at a) _ c1 (read_at_ok a c1 (omega arith) ∙ ap (λ (x : ℕ). done (x, c1)) count)
    ∙ bind_ok (parse_number (a + 1) (suc (length digits))) _ c1
        (parse_number_ok (a + 1) d digits c1 base chars)
    ∙ bind_ok (push_cell on_data v) _ c1 (
        push_ok on_data v c1 (omega (arith, s.data_placed)) (omega (arith, s.data_placed, s.known)))
    ∙ full_ok on_data w _ c2 (omega (arith, s.data_placed, s.known, r))
    ∙ bind_ok (push_cell on_data 1) _ c2 (
        push_ok on_data 1 c2 (omega (arith, s.data_placed))
          (omega (arith, s.data_placed, s.known, r)))
