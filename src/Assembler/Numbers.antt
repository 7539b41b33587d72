-- ===== src/Assembler/Numbers.antt =====
-- FAsm, `fa.c`: `read_number`.
use fprcade.Common.{
  ℕ, Bool, true, false, ◌&&◌, ◌==◌, ltb, if◌then◌else◌, [], ◌∷◌, ◌+◌, ◌*◌, ◌-◌, none, some, length,
  get_or, ℤ, pos, neg_ℤ, u16, drop,
}
use fprcade.Assembler.Text.{Text, ErrorReason, address_error, syntax_error, first_char, to_digit}
use fprcade.Assembler.Symbols.{SymbolTable, find_symbol}

-- `number v n` is a success with the value and `is_negative`; `failed r` is a failure with the reason
-- that is left behind; `overflow` is an `int64_t` that overflows, which C leaves undefined.
pub data Number : Type 0 where
  number : ℤ → Bool → Number
  failed : ErrorReason → Number
  overflow : Number

-- The value of the digits, before the sign.
pub data Digits : Type 0 where
  digits_value : ℕ → Digits
  digits_wrong digits_overflow : Digits

-- `result += d` after `result = result * base`.
unfoldable pub plus_digit : ℕ → (ℕ → Digits) → Digits
plus_digit r k = if ltb r 0x8000_0000_0000_0000 then k r else digits_overflow

-- The loop over the remaining characters.
unfoldable pub read_digits : ℕ → Bool → ℕ → Text → Digits
unfolding plus_digit
read_digits base is_negative result [] = digits_value result
read_digits base is_negative result (c ∷ word) = plus_digit (result * base) λ r.
    if c == b'-'
    then (if is_negative then digits_wrong else read_digits base is_negative r word)
    else elim (to_digit c base) [
      | none ↦ digits_wrong
      | some d ↦ plus_digit (r + d) (λ r'. read_digits base is_negative r' word)
    ]

-- The final part: the reason, the sign and the outputs.
unfoldable pub malformed : ErrorReason → Number
malformed address_error = failed address_error
malformed _ = failed syntax_error

unfoldable pub signed_number : ErrorReason → Bool → Digits → Number
unfolding neg_ℤ malformed
signed_number reason is_negative (digits_value n) =
    number (if is_negative then neg_ℤ (pos n) else pos n) is_negative
signed_number reason is_negative digits_wrong = malformed reason
signed_number reason is_negative digits_overflow = overflow

-- A number with a base prefix; the flag says whether a lone sign is refused.
unfoldable pub read_prefixed : ℕ → Bool → Text → ErrorReason → Number
unfolding signed_number
read_prefixed base refuses_lone_sign word reason =
    if ltb 1 (u16 (length word))
    then (let is_negative = get_or word 1 0 == b'-' in
        if refuses_lone_sign && (is_negative && u16 (length word) == 2)
        then malformed reason
        else signed_number reason is_negative
            (read_digits base is_negative 0 (drop (if is_negative then 2 else 1) word)))
    else malformed reason

-- The value of a label.
unfoldable pub read_label : SymbolTable → Text → Number
read_label table word = elim (find_symbol table word) [
  | none ↦ failed address_error
  | some location ↦ number (pos location) false
]

unfoldable pub read_plain : Text → SymbolTable → ErrorReason → Number
unfolding read_label signed_number
read_plain word table reason = elim (to_digit (first_char word) 10) [
  | none ↦ read_label table word
  | some d ↦ signed_number reason false (read_digits 10 false d (drop 1 word))
]

-- `(int32_t)word[1]`, of a `char` with a sign.
unfoldable pub char_value : ℕ → ℤ
unfolding neg_ℤ
char_value c = if ltb c 128 then pos c else neg_ℤ (pos (256 - c))

unfoldable pub read_number : Text → SymbolTable → ErrorReason → Number
unfolding char_value read_prefixed read_plain signed_number malformed
read_number word table reason =
    let c = first_char word in
    if c == b'\''
    then (if u16 (length word) == 3 && get_or word 2 0 == b'\''
        then number (char_value (get_or word 1 0)) false
        else malformed reason)
    else if c == b'%'
    then read_prefixed 2 true word reason
    else if c == b'#'
    then read_prefixed 10 true word reason
    else if c == b'$'
    then read_prefixed 16 false word reason
    else if c == b'-'
    then signed_number reason true (read_digits 10 true 0 (drop 1 word))
    else read_plain word table reason
