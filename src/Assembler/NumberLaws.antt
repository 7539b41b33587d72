-- ===== src/Assembler/NumberLaws.antt =====
-- FAsm, `fa.c`: `read_number` reads back the hexadecimal numbers that the symbol file shows.
use fprcade.Common.{
  ℕ, ◌≡◌, ◌<◌, ◌+◌, ◌*◌, ◌/◌, ◌%◌, arith, Bool, false, ◌==◌, [], ◌∷◌, some, refl, ◌∙◌, pos, lt→ltb,
}
use fprcade.Assembler.Text.{Text, ErrorReason, to_digit, in_base}
use fprcade.Assembler.Hex.{hex_digit, hex_word}
use fprcade.Assembler.Symbols.{SymbolTable}
use fprcade.Assembler.Numbers.{number, digits_value, plus_digit, read_digits, read_number}

-- A hexadecimal digit below 16 is read as its value, and is no sign.
to_digit-hex_digit :
    (d : ℕ) → d < 16 → (to_digit (hex_digit d) 16 ≡ some d) × ((hex_digit d == b'-') ≡ false)
unfolding to_digit in_base
to_digit-hex_digit d h = (ground arith, ground arith)

-- One digit more, while the value stays small.
read_digits_step :
    (negative : Bool) (r d : ℕ) (word : Text)
    → r < 65536
    → d < 16
    → read_digits 16 negative r (hex_digit d ∷ word) ≡ read_digits 16 negative (r * 16 + d) word
unfolding read_digits plus_digit
read_digits_step negative r d word h k =
    rw
      (
        lt→ltb (r * 16) 0x8000_0000_0000_0000 (omega arith),
        (to_digit-hex_digit d k).1,
        (to_digit-hex_digit d k).0,
        lt→ltb (r * 16 + d) 0x8000_0000_0000_0000 (omega arith),
      )
      refl

read_digits-hex_word :
    (negative : Bool) (v : ℕ) → v < 65536 → read_digits 16 negative 0 (hex_word v) ≡ digits_value v
read_digits-hex_word negative v h =
    read_digits_step negative 0 (v / 256 / 16) _ (omega arith) (omega arith)
    ∙ read_digits_step negative (0 * 16 + v / 256 / 16) (v / 256 % 16) _ (omega arith) (omega arith)
    ∙ read_digits_step negative ((0 * 16 + v / 256 / 16) * 16 + v / 256 % 16) (v % 256 / 16) _
        (omega arith) (omega arith)
    ∙ read_digits_step negative (((0 * 16 + v / 256 / 16) * 16 + v / 256 % 16) * 16 + v % 256 / 16)
        (v % 256 % 16) _ (omega arith) (omega arith)
    ∙ done
  where
    done :
        read_digits 16 negative
          ((((0 * 16 + v / 256 / 16) * 16 + v / 256 % 16) * 16 + v % 256 / 16) * 16 + v % 256 % 16)
          []
        ≡ digits_value v
    done =
        let e : (((0 * 16 + v / 256 / 16) * 16 + v / 256 % 16) * 16 + v % 256 / 16) * 16
              + v % 256 % 16
            ≡ v =
          omega arith in
        rw e (unfold read_digits in refl)

-- A word of '$' and the four hexadecimal digits of a 16 bit number is read as that number, whatever
-- the symbols.
pub read_number-hex_word :
    (v : ℕ) (table : SymbolTable) (reason : ErrorReason)
    → v < 65536
    → read_number (b'$' ∷ hex_word v) table reason ≡ number (pos v) false
unfolding read_number
read_number-hex_word v table reason h =
    rw ((to_digit-hex_digit (v / 256 / 16) (omega arith)).1, read_digits-hex_word false v h) refl
