-- ===== src/Common/Texts.antt =====
-- Texts as lists of character codes.
use Prim.Native.Nat.{ℕ, ◌+◌, ◌-◌, ◌/◌, ◌%◌}
use fprcade.Common.Tests.{ltb, if◌then◌else◌}
use Prim.Native.Char.{code}
use Prim.Native.String.{String}
use mathlib.Core.List.{List, [], ◌∷◌}

abbrev pub codes : String → List ℕ
codes String.[] = []
codes (String.◌∷◌ c s) = code c ∷ codes s

-- `%x` of one digit and `%04x` of a 16 bit number.
abbrev pub low_hex_digit : ℕ → ℕ
low_hex_digit d = if ltb d 10 then b'0' + d else b'a' + (d - 10)

abbrev pub four_digits : ℕ → List ℕ
four_digits n =
    low_hex_digit (n / 4096)
    ∷ (low_hex_digit (n / 256 % 16) ∷ (low_hex_digit (n / 16 % 16) ∷ (low_hex_digit (n % 16) ∷ [])))
