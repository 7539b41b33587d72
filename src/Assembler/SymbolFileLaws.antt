-- ===== src/Assembler/SymbolFileLaws.antt =====
-- FAsm, `fa.c`: the symbol file is read back by the assembler.
use mathlib.Core.Path.{ap₂}
use mathlib.Core.List.{append_assoc}
use fprcade.Common.{
  sym, ℕ, ◌≡◌, ◌≢◌, ◌<◌, ◌/◌, ◌%◌, arith, true, false, [], ◌∷◌, ◌++◌, refl, ap, ◌∙◌, codes,
  four_digits, low_hex_digit,
}
use fprcade.Assembler.Text.{Text, is_space, skip_spaces}
use fprcade.Assembler.Hex.{hex_digit, hex_byte, hex_word}
use fprcade.Assembler.Lines.{
  remove_remarks, remove_remarks_from, strip_line, copy_line, stripped_char, to_upper,
  next_in_string, next_in_char, drop_trailing, cons_unless_blank,
}
use fprcade.Assembler.WordLaws.{Letters}
use fprcade.Assembler.SymbolFile.{symbol_line}

-- No character begins a string, a character constant or a remark.
abbrev pub Plain : Text → Type 0
Plain [] = Unit
Plain (c ∷ line) = (c ≢ b'"') × (c ≢ b'\'') × (c ≢ b';') × Plain line

Plain-append : (a b : Text) → Plain a → Plain b → Plain (a ++ b)
Plain-append [] b p q = q
Plain-append (c ∷ a) b p q = (p.0, p.1, p.2, Plain-append a b p.3 q)

remove_remarks-Plain : (line : Text) → Plain line → remove_remarks_from false line ≡ line
unfolding remove_remarks_from
remove_remarks-Plain [] p = refl
remove_remarks-Plain (c ∷ line) p = ground (arith, p.0, p.2, remove_remarks-Plain line p.3)

-- The characters in upper case.
abbrev pub upper : Text → Text
upper [] = []
upper (c ∷ line) = to_upper c ∷ upper line

copy_line-Plain :
    (line : Text) → Plain line → copy_line false false line ≡ (upper line, false, false)
unfolding copy_line stripped_char next_in_string next_in_char
copy_line-Plain [] p = refl
copy_line-Plain (c ∷ line) p = ground (arith, p.0, p.1, copy_line-Plain line p.3)

upper-append : (a b : Text) → upper (a ++ b) ≡ upper a ++ upper b
upper-append [] b = refl
upper-append (c ∷ a) b = ap (λ (t : Text). to_upper c ∷ t) (upper-append a b)

-- A digit of the symbol file, in upper case.
to_upper-low_hex_digit : (d : ℕ) → d < 16 → to_upper (low_hex_digit d) ≡ hex_digit d
unfolding to_upper
to_upper-low_hex_digit d h = ground arith

upper-four_digits : (v : ℕ) → v < 65536 → upper (four_digits v) ≡ hex_word v
upper-four_digits v h =
    let e : v / 4096 ≡ v / 256 / 16 = omega arith in
    let f : v / 16 % 16 ≡ v % 256 / 16 = omega arith in
    let g : v % 16 ≡ v % 256 % 16 = omega arith in
    rw
      (
        to_upper-low_hex_digit (v / 4096) (omega arith),
        to_upper-low_hex_digit (v / 256 % 16) (omega arith),
        to_upper-low_hex_digit (v / 16 % 16) (omega arith),
        to_upper-low_hex_digit (v % 16) (omega arith),
        e,
        f,
        g,
      )
      refl

-- A line feed at the end is dropped, and nothing is dropped after a letter.
drop_trailing-append : (a : Text) → drop_trailing (a ++ 10 ∷ []) ≡ drop_trailing a
unfolding drop_trailing cons_unless_blank is_space
drop_trailing-append [] = refl
drop_trailing-append (c ∷ a) = ap (cons_unless_blank c) (drop_trailing-append a)

drop_trailing-Letters :
    (a w : Text) (c : ℕ) → Letters (c ∷ w) → drop_trailing (a ++ c ∷ w) ≡ a ++ c ∷ w
unfolding drop_trailing cons_unless_blank
drop_trailing-Letters [] [] c l = rw (l.0) refl
drop_trailing-Letters [] (d ∷ w) c l = rw (drop_trailing-Letters [] w d l.2) refl
drop_trailing-Letters (x ∷ []) w c l = rw (drop_trailing-Letters [] w c l) refl
drop_trailing-Letters (x ∷ (y ∷ a)) w c l = rw (drop_trailing-Letters (y ∷ a) w c l) refl

-- The stripped line.
abbrev pub definition : Text → ℕ → Text
definition symbol value = codes ".DEF " ++ (symbol ++ (codes " $" ++ hex_word value))

hex_digit-Letters : (d : ℕ) → d < 16 → (is_space (hex_digit d) ≡ false) × (hex_digit d ≢ 0)
unfolding is_space
hex_digit-Letters d h = (ground arith, ground arith)

pub hex_word-Letters : (v : ℕ) → v < 65536 → Letters (hex_word v)
hex_word-Letters v h =
    let a = hex_digit-Letters (v / 256 / 16) (omega arith) in
    let b = hex_digit-Letters (v / 256 % 16) (omega arith) in
    let c = hex_digit-Letters (v % 256 / 16) (omega arith) in
    let d = hex_digit-Letters (v % 256 % 16) (omega arith) in
    (a.0, a.1, (b.0, b.1, (c.0, c.1, (d.0, d.1, tt))))

low_hex_digit-Plain : (d : ℕ) → d < 16 → Plain (low_hex_digit d ∷ [])
low_hex_digit-Plain d h = (ground arith, ground arith, ground arith, tt)

four_digits-Plain : (v : ℕ) → v < 65536 → Plain (four_digits v)
four_digits-Plain v h =
    let a = low_hex_digit-Plain (v / 4096) (omega arith) in
    let b = low_hex_digit-Plain (v / 256 % 16) (omega arith) in
    let c = low_hex_digit-Plain (v / 16 % 16) (omega arith) in
    let d = low_hex_digit-Plain (v % 16) (omega arith) in
    (a.0, a.1, a.2, (b.0, b.1, b.2, (c.0, c.1, c.2, (d.0, d.1, d.2, tt))))

symbol_line-Plain :
    (symbol : Text) (v : ℕ) → Plain symbol → v < 65536 → Plain (symbol_line symbol v)
unfolding symbol_line
symbol_line-Plain symbol v p h =
    Plain-append (codes ".def ") _
      (
        omega arith,
        omega arith,
        omega arith,
        (
          omega arith,
          omega arith,
          omega arith,
          (
            omega arith,
            omega arith,
            omega arith,
            (omega arith, omega arith, omega arith, (omega arith, omega arith, omega arith, tt)),
          ),
        ),
      )
      (Plain-append symbol _ p (
        Plain-append (codes " $") (four_digits v ++ 10 ∷ [])
          (omega arith, omega arith, omega arith, (omega arith, omega arith, omega arith, tt))
          (Plain-append (four_digits v) (10 ∷ []) (four_digits-Plain v h)
            (omega arith, omega arith, omega arith, tt))))

upper-symbol_line :
    (symbol : Text) (v : ℕ)
    → upper symbol ≡ symbol
    → v < 65536
    → upper (symbol_line symbol v) ≡ definition symbol v ++ 10 ∷ []
unfolding symbol_line to_upper
upper-symbol_line symbol v u h = ap (λ (t : Text). codes ".DEF " ++ t) (shown ∙ regrouped)
  where
    digits : upper (four_digits v ++ 10 ∷ []) ≡ hex_word v ++ 10 ∷ []
    digits =
        upper-append (four_digits v) (10 ∷ [])
        ∙ ap (λ (t : Text). t ++ 10 ∷ []) (upper-four_digits v h)

    shown :
        upper (symbol ++ (codes " $" ++ (four_digits v ++ 10 ∷ [])))
        ≡ symbol ++ (codes " $" ++ (hex_word v ++ 10 ∷ []))
    shown =
        upper-append symbol (codes " $" ++ (four_digits v ++ 10 ∷ []))
        ∙ ap₂ ◌++◌ u (ap (λ (t : Text). codes " $" ++ t) digits)

    regrouped :
        symbol ++ (codes " $" ++ (hex_word v ++ 10 ∷ []))
        ≡ (symbol ++ (codes " $" ++ hex_word v)) ++ 10 ∷ []
    regrouped = sym (append_assoc symbol (codes " $" ++ hex_word v) (10 ∷ []))

drop_trailing-definition :
    (symbol : Text) (v : ℕ) → v < 65536 → drop_trailing (definition symbol v) ≡ definition symbol v
drop_trailing-definition symbol v h = rw at_end at (
    drop_trailing-Letters (codes ".DEF " ++ (symbol ++ codes " $"))
      (hex_digit (v / 256 % 16) ∷ hex_byte (v % 256)) (hex_digit (v / 256 / 16))
      (hex_word-Letters v h))
  where
    at_end : (codes ".DEF " ++ (symbol ++ codes " $")) ++ hex_word v ≡ definition symbol v
    at_end = ap (λ (t : Text). codes ".DEF " ++ t) (append_assoc symbol (codes " $") (hex_word v))

-- The stripped line of the symbol file.
pub strip_line-symbol_line :
    (symbol : Text) (v : ℕ)
    → Plain symbol
    → upper symbol ≡ symbol
    → v < 65536
    → strip_line (remove_remarks (symbol_line symbol v)) ≡ (definition symbol v, true)
unfolding strip_line remove_remarks
strip_line-symbol_line symbol v p u h =
    rw
      (
        remove_remarks-Plain (symbol_line symbol v) plain,
        no_indent,
        copy_line-Plain (symbol_line symbol v) plain,
        upper-symbol_line symbol v u h,
        drop_trailing-append (definition symbol v),
        drop_trailing-definition symbol v h,
      )
      refl
  where
    plain : Plain (symbol_line symbol v)
    plain = symbol_line-Plain symbol v p h

    no_indent : skip_spaces (symbol_line symbol v) ≡ symbol_line symbol v
    no_indent = unfold symbol_line skip_spaces is_space in refl
