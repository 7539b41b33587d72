-- ===== src/Emulator/OperatorLaws.antt =====
-- FPEmu, `fpemu.c`: the operators on the data stack.
use fprcade.Common.{
  ℕ, ◌≡◌, ◌<◌, ◌+◌, ◌-◌, ◌%◌, arith, true, false, refl, Bool, ltb, if◌then◌else◌, List, ◌∷◌, u16,
  i16, to_u16, ◌+ℤ◌, ap, ◌∙◌, neg_ℤ, ltb_ℤ, leb_ℤ, leb, not,
}
use fprcade.Emulator.State.{CpuContext, ok, ◌>>=◌, data_id}
use fprcade.Emulator.Stacks.{push, pushed, pop}
use fprcade.Emulator.StackLaws.{push_fits, popped, bind_ok}
use fprcade.Emulator.Arithmetic.{exec_add, exec_lt, exec_gte, exec_gt, exec_lte, truth}
use fprcade.Emulator.Run.{exec_neg, exec_not}
use fprcade.Emulator.StackViews.{
  Holds, Leaves, two_operands, cells_view, pop-Holds, pushed-contents, contents, Keeps, Keeps-trans,
  popped-Keeps,
}

-- ADD of two 16 bit values on a data stack that is not full leaves the sum modulo 2^16 in their place,
-- for the signed and the unsigned form alike, and keeps everything else of the processor.
pub exec_add-Leaves :
    (is_signed : Bool) (c : CpuContext) (a b : ℕ) (rest : List ℕ)
    → a < 65536
    → b < 65536
    → Holds c (a ∷ (b ∷ rest))
    → Leaves (exec_add is_signed) c (((a + b) % 65536) ∷ rest)
unfolding exec_add ◌+ℤ◌
exec_add-Leaves true c a b rest p q h =
    let e : to_u16 (i16 a +ℤ i16 b) % 65536 ≡ (a + b) % 65536 = ground arith in
    rw e at (two_operands (λ v w. to_u16 (i16 v +ℤ i16 w)) c a b rest h)
exec_add-Leaves false c a b rest p q h =
    let e : u16 (a + b) % 65536 ≡ (a + b) % 65536 = omega arith in
    rw e at (two_operands (λ v w. u16 (v + w)) c a b rest h)

truth_fits : (b : Bool) → truth b % 65536 ≡ truth b
truth_fits true = refl
truth_fits false = refl

-- The order of two 16 bit values: as they are, or, for the signed reading, with the sign bit flipped.
abbrev pub less : Bool → ℕ → ℕ → Bool
less true x y = ltb ((x + 32768) % 65536) ((y + 32768) % 65536)
less false x y = ltb x y

signed_less :
    (s : Bool) (x y : ℕ)
    → x < 65536
    → y < 65536
    → (if s then ltb_ℤ (i16 x) (i16 y) else ltb x y) ≡ less s x y
signed_less true x y p q = ground arith
signed_less false x y p q = refl

signed_le :
    (s : Bool) (x y : ℕ)
    → x < 65536
    → y < 65536
    → (if s then leb_ℤ (i16 x) (i16 y) else leb x y) ≡ not (less s y x)
signed_le true x y p q = ground arith
signed_le false x y p q = ground arith

pub test_operands :
    (f : ℕ → ℕ → Bool) (c : CpuContext) (a b : ℕ) (rest : List ℕ)
    → Holds c (a ∷ (b ∷ rest))
    → Leaves
        (pop data_id >>= λ v. pop data_id >>= λ w. push data_id (truth (f v w)))
        c
        (truth (f a b) ∷ rest)
test_operands f c a b rest h =
    rw (truth_fits (f a b)) at (two_operands (λ v w. truth (f v w)) c a b rest h)

-- The comparisons of two 16 bit values on a data stack that is not full: with a on top of b, LT
-- tells whether b is less than a, GT whether a is less than b, and LTE and GTE are their opposites,
-- in the signed and in the unsigned order. Everything else of the processor is kept.
pub comparisons-Leaves :
    (s : Bool) (c : CpuContext) (a b : ℕ) (rest : List ℕ)
    → a < 65536
    → b < 65536
    → Holds c (a ∷ (b ∷ rest))
    → Leaves (exec_lt s) c (truth (less s b a) ∷ rest)
      × Leaves (exec_gt s) c (truth (less s a b) ∷ rest)
      × Leaves (exec_lte s) c (truth (not (less s a b)) ∷ rest)
      × Leaves (exec_gte s) c (truth (not (less s b a)) ∷ rest)
unfolding exec_lt exec_gt exec_lte exec_gte
comparisons-Leaves s c a b rest p q h = (
  rw (signed_less s b a q p) at
      (test_operands (λ v w. if s then ltb_ℤ (i16 w) (i16 v) else ltb w v) c a b rest h),
  rw (signed_less s a b p q) at
      (test_operands (λ v w. if s then ltb_ℤ (i16 v) (i16 w) else ltb v w) c a b rest h),
  rw (signed_le s b a q p) at
      (test_operands (λ v w. if s then leb_ℤ (i16 w) (i16 v) else leb w v) c a b rest h),
  rw (signed_le s a b p q) at
      (test_operands (λ v w. if s then leb_ℤ (i16 v) (i16 w) else leb v w) c a b rest h),
)

one_operand :
    (f : ℕ → ℕ) (c : CpuContext) (a : ℕ) (rest : List ℕ)
    → Holds c (a ∷ rest)
    → Leaves (pop data_id >>= λ v. push data_id (f v)) c ((f a % 65536) ∷ rest)
one_operand f c a rest h = record {
  after = pushed data_id (f a) (popped data_id c);
  returns =
      bind_ok (pop data_id) (λ v. push data_id (f v)) c first.0
      ∙ push_fits data_id (f a) (popped data_id c) (omega (arith, first.1.fits, room));
  shows = written.0 ∙ ap (λ (l : List ℕ). (f a % 65536) ∷ l) first.1.view;
  keeps = Keeps-trans c (popped data_id c) _ (popped-Keeps c) written.1;
}
  where
    first : (pop data_id c ≡ ok (a, popped data_id c)) × Holds (popped data_id c) rest
    first = pop-Holds c a rest h

    room : c.data_stack.top - 1 + 1 ≡ c.data_stack.top
    room = omega (arith, (cells_view c.data_stack.values c.data_stack.top a rest h.view).0)

    written :
        (contents (pushed data_id (f a) (popped data_id c))
          ≡ (f a % 65536) ∷ contents (popped data_id c))
        × Keeps (popped data_id c) (pushed data_id (f a) (popped data_id c))
    written =
        pushed-contents (popped data_id c) (f a) (omega (arith, h.fits, room))
          (omega (arith, h.below, room))

-- NEG of a 16 bit value on a data stack that is not full leaves the two's complement, and NOT one
-- less than that.
exec_neg-exec_not-Leaves :
    (c : CpuContext) (a : ℕ) (rest : List ℕ)
    → a < 65536
    → Holds c (a ∷ rest)
    → Leaves exec_neg c (((65536 - a) % 65536) ∷ rest) × Leaves exec_not c ((65535 - a) ∷ rest)
unfolding exec_neg exec_not neg_ℤ
exec_neg-exec_not-Leaves c a rest p h =
    let e : to_u16 (neg_ℤ (i16 a)) % 65536 ≡ (65536 - a) % 65536 = ground arith in
    let f : (65535 - a) % 65536 ≡ 65535 - a = omega arith in
    (
      rw e at (one_operand (λ v. to_u16 (neg_ℤ (i16 v))) c a rest h),
      rw f at (one_operand (λ v. 0xFFFF - v) c a rest h),
    )
