-- ===== src/Assembler/Termination.antt =====
-- FAsm, `fa.c`: the loops end. The loop of `.b` gets past each word, and a pass gets past each line
-- whose strings end, so the fuel that the definitions take is enough.
use fprcade.Common.{
  ℕ, zero, suc, ◌≡◌, ◌<◌, ◌≤◌, ◌+◌, ◌-◌, arith, Bool, true, false, ltb, ◌==◌, [], ◌∷◌, Option, none,
  some, refl, length, drop, Bool-cases, lt→ltb, inl, inr,
}
use mathlib.Core.Option
use fprcade.Assembler.Text.{Text, ErrorReason, word_prefix, get_word, skip_spaces, skip_word}
use fprcade.Assembler.Symbols.{SymbolTable}
use fprcade.Assembler.Numbers.{read_number}
use fprcade.Assembler.Hex.{HexWriter, hex_push_byte}
use fprcade.Assembler.Instructions.{
  Phase, scan, assembling, Outcome, returns, undefined, out_of_fuel,
}
use fprcade.Assembler.Directives.{
  directed, ByteValue, byte_value, break_with, go_on_with, byte_undefined, byte_of, dot_b_loop,
}

-- Whether a result was reached within the fuel.
abbrev pub ended : {A : Type 0} → Outcome A → Bool
ended (returns a) = true
ended undefined = true
ended out_of_fuel = false

word_prefix-length :
    (separator room : ℕ) (line : Text)
    → (elim (word_prefix separator room line) [ none ↦ room | some w ↦ length w ]) ≤ length line
unfolding word_prefix
word_prefix-length separator zero line = omega arith
word_prefix-length separator (suc room) [] = omega arith
word_prefix-length separator (suc room) (x ∷ line) = elim (Bool-cases (x == separator)) [
  | inl e ↦ rw e (omega arith)
  | inr e ↦ rw e (more (word_prefix separator room line) (word_prefix-length separator room line))
]
  where
    more :
        (o : Option Text)
        → (elim o [ none ↦ room | some w ↦ length w ]) ≤ length line
        → (elim (Option.map (λ (w : Text). x ∷ w) o) [ none ↦ suc room | some w ↦ length w ])
          ≤ suc (length line)
    more none h = omega (arith, h)
    more (some w) h = omega (arith, h)

-- A word is no longer than the line.
pub get_word-length :
    (line : Text) (separator room : ℕ) → (get_word line separator room).1 ≤ length line
unfolding get_word
get_word-length line separator room =
    go (word_prefix separator room line) refl (word_prefix-length separator room line)
  where
    go :
        (o : Option Text)
        → word_prefix separator room line ≡ o
        → (elim (word_prefix separator room line) [ none ↦ room | some w ↦ length w ]) ≤ length line
        → (get_word line separator room).1 ≤ length line
    go none e h = let k : room ≤ length line = rw e at h in rw (get_word, e) k
    go (some w) e h = let k : length w ≤ length line = rw e at h in rw (get_word, e) k

pub skip_spaces-length : (line : Text) → length (skip_spaces line) ≤ length line
unfolding skip_spaces
skip_spaces-length [] = omega arith
skip_spaces-length (c ∷ line) = ground (arith, skip_spaces-length line)

pub skip_word-length : (line : Text) → length (skip_word line) ≤ length line
unfolding skip_word
skip_word-length [] = omega arith
skip_word-length (c ∷ line) = ground (arith, skip_word-length line)

length-drop : (n : ℕ) (line : Text) → n ≤ length line → length (drop n line) ≡ length line - n
length-drop zero line h = omega arith
length-drop (suc n) [] h = absurd (omega arith)
length-drop (suc n) (c ∷ line) h = omega (arith, length-drop n line (omega arith))

-- Where the next word of `.b` starts, the line is shorter.
rest-length :
    (line : Text) (n : ℕ)
    → 0 < n
    → n ≤ length line
    → length (skip_spaces (drop n line)) < length line
rest-length line n p q = omega (arith, skip_spaces-length (drop n line), length-drop n line q)

pub dot_b_loop-ended :
    (fuel : ℕ) (word : Text) (n : ℕ) (line : Text) (phase : Phase) (table : SymbolTable)
    (h : HexWriter) (address : ℕ) (reason : ErrorReason)
    → n ≤ length line
    → length line < fuel
    → ended (dot_b_loop fuel (word, n) line phase table h address reason) ≡ true
unfolding dot_b_loop directed
dot_b_loop-ended zero word n line phase table h address reason p q = elim q [ ]
dot_b_loop-ended (suc fuel) word zero line phase table h address reason p q = refl
dot_b_loop-ended (suc fuel) word (suc n) line phase table h address reason p q =
    go phase (byte_of (read_number word table reason)) refl λ h' a r ph.
      dot_b_loop-ended fuel (get_word line' 32 32).0 (get_word line' 32 32).1 line' ph table h' a r
        (get_word-length line' 32 32) (omega (arith, rest-length line (suc n) (omega arith) p))
  where
    line' : Text
    line' = skip_spaces (drop (suc n) line)

    some_word : ltb 0 (suc n) ≡ true
    some_word = lt→ltb 0 (suc n) (omega arith)

    go :
        (phase : Phase) (b : ByteValue)
        → byte_of (read_number word table reason) ≡ b
        → ((h' : HexWriter) (a : ℕ) (r : ErrorReason) (ph : Phase)
            → ended (dot_b_loop fuel (get_word line' 32 32) line' ph table h' a r) ≡ true)
        → ended (dot_b_loop (suc fuel) (word, suc n) line phase table h address reason) ≡ true
    go scan b eb k = rw (ended, some_word) (k h (address + 1) reason scan)
    go assembling (byte_value v) eb k =
        rw (ended, some_word, eb) (k (hex_push_byte v h) (address + 1) reason assembling)
    go assembling (break_with r) eb k = rw (ended, some_word, eb) refl
    go assembling (go_on_with r) eb k = rw (ended, some_word, eb) (k h (address + 1) r assembling)
    go assembling byte_undefined eb k = rw (ended, some_word, eb) refl
