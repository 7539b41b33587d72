-- ===== src/Forth/Printing.antt =====
-- CF_Forth_V2, `ff.c`: `instr_dot`, and the conversions of `printf` that the words use.
use fprcade.Common.{
  ℕ, zero, suc, List, [], ◌∷◌, ◌++◌, ℤ, pos, negsuc, i16, low_hex_digit, ◌==◌, ltb, leb, ◌||◌,
  length, get_or, if◌then◌else◌, u8, ◌+◌, ◌-◌, ◌/◌, ◌%◌,
}
use fprcade.Forth.State.{
  F, pure, ◌>>=◌, ◌>>◌, stops, assert_failed, indeterminate, zero_division, next, ff_loc_base,
}
use fprcade.Forth.State.{on_data}
use fprcade.Forth.Memory.{fetch16ubits, pop_cell}
use fprcade.Forth.StackWords.{print}

-- The digits of a number below `base ^ fuel`, before those of a text.
unfoldable pub digits_before : ℕ → ℕ → ℕ → List ℕ → List ℕ
digits_before zero base n text = text
digits_before (suc fuel) base n text =
    let rest = digits_before fuel base (n / base) (low_hex_digit (n % base) ∷ text) in
    if n == 0 then text else rest

-- `%u` and `%x` of a number below 2^32.
unfoldable pub unsigned_text : ℕ → ℕ → List ℕ
unsigned_text base n = if n == 0 then b'0' ∷ [] else digits_before 32 base n []

-- `%d` of an `int16_t`.
unfoldable pub signed_text : ℤ → List ℕ
signed_text (pos n) = unsigned_text 10 n
signed_text (negsuc n) = b'-' ∷ unsigned_text 10 (n + 1)

-- An `int16_t` as an `unsigned int`.
abbrev pub as_unsigned : ℤ → ℕ
as_unsigned (pos n) = n
as_unsigned (negsuc n) = 4294967295 - n

-- `c = n % base; c += (c < 10) ? '0' : 'A';` with the sign of `n` and in a signed `char`.
unfoldable pub dot_char : ℤ → ℕ → ℕ
dot_char n base = let d = remainder n in u8 (d + (if ltb d 10 || leb 128 d then b'0' else b'A'))
  where
    remainder : ℤ → ℕ
    remainder (pos m) = u8 (m % base)
    remainder (negsuc m) = u8 (256 - u8 ((m + 1) % base))

-- `number / base`, where that is positive, and else 0.
abbrev pub positive_quotient : ℤ → ℕ → ℕ
positive_quotient (pos m) base = m / base
positive_quotient (negsuc m) base = 0

-- The loop that fills `buffer`, with `fuel` places left before the assertion fails.
unfoldable pub dot_loop : ℕ → ℤ → ℕ → ℤ → List ℕ → F (List ℕ)
dot_loop zero n base number buffer = stops assert_failed
dot_loop (suc fuel) n base number buffer =
    let filled = buffer ++ dot_char n base ∷ [] in
    let rest = positive_quotient number base in
    if fuel == 0
    then stops assert_failed
    else if rest == 0
    then pure filled
    else dot_loop fuel n base (pos rest) filled

-- A character of `buffer` that no round of the loop wrote is indeterminate.
unfoldable pub buffer_char : List ℕ → ℕ → F ℕ
buffer_char buffer i =
    if ltb i (length buffer) then pure (get_or buffer i 0) else stops indeterminate

-- `for (; i >= 0; --i) { printf("%c", buffer[i]); }`
unfoldable pub print_down : List ℕ → ℕ → F (Unit {0})
print_down buffer zero = do ch ← buffer_char buffer zero; print (ch ∷ [])
print_down buffer (suc i) = do ch ← buffer_char buffer (suc i); print (ch ∷ []); print_down buffer i

unfoldable pub print_in_base : ℤ → ℕ → F (Unit {0})
print_in_base n base =
    if base == 16
    then print (unsigned_text 16 (as_unsigned n) ++ b' ' ∷ [])
    else if base == 10
    then print (signed_text n ++ b' ' ∷ [])
    else if base == 0
    then stops zero_division
    else (do buffer ← dot_loop 17 n base n []; print_down buffer (length buffer))

unfoldable pub instr_dot : ℕ → F ℕ
instr_dot word = do
  n ← pop_cell on_data
  base ← fetch16ubits ff_loc_base
  print_in_base (i16 n) base
  next 2
