-- ===== src/Common/Bits.antt =====
-- Masks and disjoint fields: `&` with a run of ones, and `|` of values that share no bit, as
-- arithmetic, at every width.
use Prim.Native.Nat.{
  ℕ, zero, suc, ◌+◌, ◌-◌, ◌*◌, ◌/◌, ◌%◌, ◌^◌, ◌≤◌, ◌<◌, min, max, bit_and, bit_or, digits,
}
use Prim.Native.Nat.{bit_and-bitwise, bit_or-bitwise}
use mathlib.Core.Path.{◌≡◌, refl, ap}
use native.Mathlib.Nat.{pow-suc, one-le-pow}
use native.Mathlib.Omega.{arith}

-- The digit recursion gives the same value on any fuel that covers its first argument.
digits_enough :
    (z : ℕ → ℕ) (f : ℕ → ℕ → ℕ) (k l x y : ℕ) → x ≤ k → x ≤ l → digits z f k x y ≡ digits z f l x y
digits_enough z f zero zero x y p q = refl
digits_enough z f zero (suc l) zero y p q = refl
digits_enough z f zero (suc l) (suc x) y p q = elim p [ ]
digits_enough z f (suc k) zero zero y p q = refl
digits_enough z f (suc k) zero (suc x) y p q = elim q [ ]
digits_enough z f (suc k) (suc l) zero y p q = refl
digits_enough z f (suc k) (suc l) (suc x) y p q =
    rw (digits_enough z f k l (suc x / 2) (y / 2) (omega arith) (omega arith))

-- The lowest binary digit of `&` and of `|`.
and_low : (x y : ℕ) → bit_and x y ≡ bit_and (x / 2) (y / 2) * 2 + min (x % 2) (y % 2)
and_low zero y = omega (arith, bit_and-bitwise 0 y, bit_and-bitwise 0 (y / 2))
and_low (suc x) y = omega (
  arith,
  bit_and-bitwise (suc x) y,
  bit_and-bitwise (suc x / 2) (y / 2),
  digits_enough (λ _. 0) min x (suc x / 2) (suc x / 2) (y / 2) (omega arith) (omega arith),
)

or_low : (x y : ℕ) → bit_or x y ≡ bit_or (x / 2) (y / 2) * 2 + max (x % 2) (y % 2)
or_low zero y = omega (arith, bit_or-bitwise 0 y, bit_or-bitwise 0 (y / 2))
or_low (suc x) y = omega (
  arith,
  bit_or-bitwise (suc x) y,
  bit_or-bitwise (suc x / 2) (y / 2),
  digits_enough (λ b. b) max x (suc x / 2) (suc x / 2) (y / 2) (omega arith) (omega arith),
)

and_none : (n x : ℕ) → x ≤ n → bit_and x 0 ≡ 0
and_none n zero h = refl
and_none zero (suc x) h = elim h [ ]
and_none (suc n) (suc x) h = omega (arith, and_low (suc x) 0, and_none n (suc x / 2) (omega arith))

or_none : (n x : ℕ) → x ≤ n → bit_or x 0 ≡ x
or_none n zero h = refl
or_none zero (suc x) h = elim h [ ]
or_none (suc n) (suc x) h = omega (arith, or_low (suc x) 0, or_none n (suc x / 2) (omega arith))

or_comm_below : (n x y : ℕ) → x + y ≤ n → bit_or x y ≡ bit_or y x
or_comm_below zero zero zero h = refl
or_comm_below zero (suc x) y h = absurd (omega arith)
or_comm_below zero zero (suc y) h = absurd (omega arith)
or_comm_below (suc n) zero zero h = refl
or_comm_below (suc n) (suc x) y h =
    omega
      (arith, or_low (suc x) y, or_low y (suc x), or_comm_below n (suc x / 2) (y / 2) (omega arith))
or_comm_below (suc n) zero (suc y) h =
    omega (arith, or_low 0 (suc y), or_low (suc y) 0, or_comm_below n 0 (suc y / 2) (omega arith))

pub or_comm : (x y : ℕ) → bit_or x y ≡ bit_or y x
or_comm x y = or_comm_below (x + y) x y (omega arith)

double_power : (q k : ℕ) → q * 2 ^ suc k ≡ 2 * (q * 2 ^ k)
double_power q k = omega (arith, ap (λ (t : ℕ). q * t) (pow-suc 2 k))

-- A mask that stands above bit k meets only the digits above bit k.
above : (k q r m : ℕ) → r < 2 ^ k → bit_and (q * 2 ^ k + r) (m * 2 ^ k) ≡ bit_and q m * 2 ^ k
above zero q r m h = ground arith
above (suc k) q r m h = ground (
  arith,
  and_low (q * 2 ^ suc k + r) (m * 2 ^ suc k),
  double_power q k,
  double_power m k,
  double_power (bit_and q m) k,
  pow-suc 2 k,
  above k q (r / 2) m (omega (arith, pow-suc 2 k)),
)

ones : (k q r : ℕ) → r < 2 ^ k → bit_and (q * 2 ^ k + r) (2 ^ k - 1) ≡ r
ones zero q r h = omega (arith, and_none (q * 1 + r) (q * 1 + r) (omega arith))
ones (suc k) q r h = ground (
  arith,
  and_low (q * 2 ^ suc k + r) (2 ^ suc k - 1),
  double_power q k,
  pow-suc 2 k,
  one-le-pow k 2,
  ones k q (r / 2) (omega (arith, pow-suc 2 k)),
)

-- `x & (2^k - 1)` is the remainder by `2^k`.
pub and_ones : (k x : ℕ) → bit_and x (2 ^ k - 1) ≡ x % 2 ^ k
and_ones k x = ground (arith, one-le-pow k 2, ones k (x / 2 ^ k) (x % 2 ^ k))

pub and_above : (k x m : ℕ) → bit_and x (m * 2 ^ k) ≡ bit_and (x / 2 ^ k) m * 2 ^ k
and_above k x m = ground (arith, one-le-pow k 2, above k (x / 2 ^ k) (x % 2 ^ k) m)

-- The field of w bits that starts at bit k.
pub and_field : (k w x : ℕ) → bit_and x ((2 ^ w - 1) * 2 ^ k) ≡ x / 2 ^ k % 2 ^ w * 2 ^ k
and_field k w x = rw (and_above k x (2 ^ w - 1), and_ones w (x / 2 ^ k)) refl

-- `|` of a value above bit k and one below it is their sum.
pub or_fields : (k q r : ℕ) → r < 2 ^ k → bit_or (q * 2 ^ k) r ≡ q * 2 ^ k + r
or_fields zero q r h = ground (arith, or_none (q * 1) (q * 1))
or_fields (suc k) q r h = ground (
  arith,
  or_low (q * 2 ^ suc k) r,
  double_power q k,
  pow-suc 2 k,
  or_fields k q (r / 2) (omega (arith, pow-suc 2 k)),
)

-- `|` with a value that stands above bit k leaves the digits below bit k.
pub or_above :
    (k p q r : ℕ) → r < 2 ^ k → bit_or (p * 2 ^ k + r) (q * 2 ^ k) ≡ bit_or p q * 2 ^ k + r
or_above zero p q r h = ground arith
or_above (suc k) p q r h = ground (
  arith,
  or_low (p * 2 ^ suc k + r) (q * 2 ^ suc k),
  double_power p k,
  double_power q k,
  double_power (bit_or p q) k,
  pow-suc 2 k,
  or_above k p q (r / 2) (omega (arith, pow-suc 2 k)),
)
