-- ===== src/Common/Words.antt =====
-- The fixed width integers of C: casts, shifts, and the signed reading of a 16 bit pattern.
use Prim.Native.Nat.{ℕ, ◌+◌, ◌-◌, ◌*◌, ◌/◌, ◌%◌, ◌^◌}
use fprcade.Common.Tests.{ltb, if◌then◌else◌}
use fprcade.Common.Integers.{ℤ, pos, negsuc}

abbrev pub u8 : ℕ → ℕ
u8 n = n % 256

abbrev pub u16 : ℕ → ℕ
u16 n = n % 65536

infixl 75 ◌<<<◌ ◌>>>◌
abbrev pub ◌<<<◌ : ℕ → ℕ → ℕ
x <<< k = x * 2 ^ k

abbrev pub ◌>>>◌ : ℕ → ℕ → ℕ
x >>> k = x / 2 ^ k

-- `a - b` in `uint16_t`.
abbrev pub sub16 : ℕ → ℕ → ℕ
sub16 a b = (a % 65536 + 65536 - b % 65536) % 65536

-- The number that a 16 bit pattern stands for as an `int16_t`.
abbrev pub i16 : ℕ → ℤ
i16 w = if ltb w 32768 then pos w else negsuc (65535 - w)

-- The cast to `uint16_t` of a signed value, which keeps it modulo 2^16.
abbrev pub to_u16 : ℤ → ℕ
to_u16 (pos n) = n % 65536
to_u16 (negsuc n) = 65535 - n % 65536
