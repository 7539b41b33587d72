-- ===== src/Emulator/LogicLaws.antt =====
-- FPEmu, `fpemu.c`: EQ, the bitwise operators and the products on the data stack.
use fprcade.Common.{
  ℕ, ◌≡◌, ◌<◌, ◌≤◌, ◌+◌, ◌-◌, ◌*◌, ◌%◌, arith, Bool, true, false, List, ◌∷◌, ◌==◌, refl, ap, ◌∙◌,
  bit_and, bit_or, bit_xor, i16, to_u16, ◌*ℤ◌, lt→ltb, le→ltb, ◌≢◌,
}
use fprcade.Emulator.State.{CpuContext, ◌>>=◌, data_id, max_stack_size, fault, int_overflow}
use fprcade.Emulator.Stacks.{push, pop, pushed}
use fprcade.Emulator.StackLaws.{push_fits, popped, bind_ok}
use fprcade.Emulator.MoveLaws.{after_pop}
use fprcade.Emulator.Arithmetic.{exec_eq, exec_bitwise, exec_mul, int_result, truth}
use fprcade.Emulator.StackViews.{
  Holds, Leaves, two_operands, pop-Holds, pushed-contents, cells_view,
}
use fprcade.Emulator.OperatorLaws.{test_operands}

-- With two values on a data stack that is not full: EQ leaves whether they are equal, and AND, OR
-- and XOR what their operator makes of the bits of the lower and the upper one, modulo 2^16.
-- Everything else of the processor is kept.
pub exec_eq-exec_bitwise-Leaves :
    (c : CpuContext) (a b : ℕ) (rest : List ℕ)
    → Holds c (a ∷ (b ∷ rest))
    → Leaves exec_eq c (truth (b == a) ∷ rest)
      × Leaves (exec_bitwise bit_and) c ((bit_and b a % 65536) ∷ rest)
      × Leaves (exec_bitwise bit_or) c ((bit_or b a % 65536) ∷ rest)
      × Leaves (exec_bitwise bit_xor) c ((bit_xor b a % 65536) ∷ rest)
unfolding exec_eq exec_bitwise
exec_eq-exec_bitwise-Leaves c a b rest h = (
  test_operands (λ v w. w == v) c a b rest h,
  two_operands (λ v w. bit_and w v) c a b rest h,
  two_operands (λ v w. bit_or w v) c a b rest h,
  two_operands (λ v w. bit_xor w v) c a b rest h,
)

complement : (a x b : ℕ) → a + x ≡ 65536 → a * b + x * b ≡ 65536 * b
complement a x b e = omega (arith, ap (λ (t : ℕ). t * b) e)

-- The products with x for 65536 - a and y for 65536 - b.
product_low : (a b x y : ℕ) → a + x ≡ 65536 → b + y ≡ 65536 → x * y % 65536 ≡ a * b % 65536
product_low a b x y e f = omega (arith, complement a x b e, complement b y x f, complement b y a f)

-- The product of two patterns read with a sign, modulo 2^16.
signed_product : (a b : ℕ) → a < 65536 → b < 65536 → to_u16 (i16 a *ℤ i16 b) % 65536 ≡ a * b % 65536
unfolding ◌*ℤ◌
signed_product a b p q = ground (
  arith,
  product_low a b (65536 - a) (65536 - b) (omega arith) (omega arith),
  complement a (65536 - a) b (omega arith),
  complement b (65536 - b) a (omega arith),
)

push_one :
    (c : CpuContext) (v : ℕ) (xs : List ℕ)
    → c.data_stack.top < max_stack_size
    → c.data_stack.top + 1 ≢ c.data_stack.size
    → Holds c xs
    → Leaves (push data_id v) c ((v % 65536) ∷ xs)
push_one c v xs p room h = record {
  after = pushed data_id v c;
  returns = push_fits data_id v c p;
  shows = (pushed-contents c v p room).0 ∙ ap (λ (l : List ℕ). (v % 65536) ∷ l) h.view;
  keeps = (pushed-contents c v p room).1;
}

-- The multiplication of two 16 bit values on a data stack that is not full leaves the product modulo
-- 2^16, signed or unsigned, where the product of the patterns is below 2^31.
exec_mul-Leaves :
    (is_signed : Bool) (c : CpuContext) (a b : ℕ) (rest : List ℕ)
    → a < 65536
    → b < 65536
    → a * b < 0x8000_0000
    → Holds c (a ∷ (b ∷ rest))
    → Leaves (exec_mul is_signed) c ((a * b % 65536) ∷ rest)
unfolding exec_mul int_result
exec_mul-Leaves true c a b rest p q r h =
    rw (signed_product a b p q) at (two_operands (λ v w. to_u16 (i16 v *ℤ i16 w)) c a b rest h)
exec_mul-Leaves false c a b rest p q r h =
    after_pop (λ v. pop data_id >>= λ w. int_result (v * w) >>= λ r'. push data_id r') c a
      (b ∷ rest) _ h
      (after_pop (λ w. int_result (a * w) >>= λ r'. push data_id r') once b rest _ first
        (rw (lt→ltb (a * b) 0x8000_0000 r) (
          push_one (popped data_id once) (a * b) rest (omega (arith, second.fits, some_values))
            (omega (arith, second.below, some_values)) second)))
  where
    once : CpuContext
    once = popped data_id c

    first : Holds once (b ∷ rest)
    first = (pop-Holds c a (b ∷ rest) h).1

    second : Holds (popped data_id once) rest
    second = (pop-Holds once b rest first).1

    some_values : 1 < c.data_stack.top
    some_values = omega (
      arith,
      (cells_view c.data_stack.values c.data_stack.top a (b ∷ rest) h.view).0,
      (cells_view c.data_stack.values (c.data_stack.top - 1) b rest first.view).0,
    )

-- The unsigned multiplication overflows an `int`, which C leaves undefined, on every two operands on
-- a data stack that is not full whose product is 2^31 or more.
exec_mul_overflows :
    (c : CpuContext) (a b : ℕ) (rest : List ℕ)
    → 0x8000_0000 ≤ a * b
    → Holds c (a ∷ (b ∷ rest))
    → exec_mul false c ≡ fault int_overflow
unfolding exec_mul int_result
exec_mul_overflows c a b rest r h =
    bind_ok (pop data_id) _ c (pop-Holds c a (b ∷ rest) h).0
    ∙ bind_ok (pop data_id) _ (popped data_id c)
        (pop-Holds (popped data_id c) b rest (pop-Holds c a (b ∷ rest) h).1).0
    ∙ rw (le→ltb (a * b) 0x8000_0000 r) refl
