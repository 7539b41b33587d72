-- ===== src/Assembler/WordLaws.antt =====
-- FAsm, `fa.c`: a line of words with one space between them is split into those words.
use fprcade.Common.{
  ℕ, zero, suc, ◌≡◌, ◌≢◌, ◌<◌, arith, true, false, ◌==◌, List, [], ◌∷◌, ◌++◌, some, refl, length,
  drop,
}
use mathlib.Core.List.{append-nil}
use fprcade.Assembler.Text.{Text, first_char, is_space, skip_spaces, word_prefix, get_word}
use fprcade.Assembler.Lines.{words_from, parse_line_into_words}

-- A character of a word is neither a space nor the NUL.
abbrev pub Letters : Text → Type 0
Letters [] = Unit
Letters (c ∷ w) = (is_space c ≡ false) × (c ≢ 0) × Letters w

-- A word that fits its buffer.
abbrev pub Fits : Text → Type 0
Fits w = Letters w × (0 < length w) × (length w < 32)

abbrev pub AllFit : List Text → Type 0
AllFit [] = Unit
AllFit (w ∷ words) = Fits w × AllFit words

-- The words with a space between each two.
abbrev pub joined : List Text → Text
joined [] = []
joined (w ∷ []) = w
joined (w ∷ (v ∷ words)) = w ++ 32 ∷ joined (v ∷ words)

space_is_space : is_space 32 ≡ true
unfolding is_space
space_is_space = refl

not_separator : (c : ℕ) → is_space c ≡ false → (c == 32) ≡ false
unfolding is_space
not_separator c h = ground arith

-- What may follow a word: the end, or a space.
abbrev EndsWord : Text → Type 0
EndsWord [] = Unit
EndsWord (c ∷ rest) = c ≡ 32

word_prefix-append :
    (room : ℕ) (w rest : Text)
    → Letters w
    → EndsWord rest
    → length w < room
    → word_prefix 32 room (w ++ rest) ≡ some w
unfolding word_prefix
word_prefix-append zero w rest l e h = elim h [ ]
word_prefix-append (suc room) [] [] l e h = refl
word_prefix-append (suc room) [] (c ∷ rest) l e h = rw e refl
word_prefix-append (suc room) (c ∷ w) rest l e h =
    rw (not_separator c l.0, word_prefix-append room w rest l.2 e (omega arith)) refl

pub get_word-append :
    (w rest : Text) → Fits w → EndsWord rest → get_word (w ++ rest) 32 32 ≡ (w, length w)
unfolding get_word
get_word-append w rest f e = rw (word_prefix-append 32 w rest f.0 e f.2, get_word) refl

pub get_word_whole : (w : Text) → Fits w → get_word w 32 32 ≡ (w, length w)
get_word_whole w f = rw append-nil at (get_word-append w [] f tt)

drop-append : (w rest : Text) → drop (length w) (w ++ rest) ≡ rest
drop-append [] rest = refl
drop-append (c ∷ w) rest = drop-append w rest

drop_whole : (w : Text) → drop (length w) w ≡ []
drop_whole [] = refl
drop_whole (c ∷ w) = drop_whole w

not_too_long : (w : Text) → Fits w → (length w == 32) ≡ false
not_too_long w f = ground (arith, f.2)

no_more : first_char (skip_spaces []) ≡ 0
unfolding skip_spaces
no_more = refl

first_char-joined :
    (w : Text) (words : List Text) → Fits w → (first_char (joined (w ∷ words)) == 0) ≡ false
first_char-joined [] words f = absurd (omega arith)
first_char-joined (c ∷ w) [] f = ground arith
first_char-joined (c ∷ w) (v ∷ words) f = ground arith

skip_spaces-joined :
    (w : Text) (words : List Text)
    → Fits w
    → skip_spaces (32 ∷ joined (w ∷ words)) ≡ joined (w ∷ words)
unfolding skip_spaces
skip_spaces-joined [] words f = absurd (omega arith)
skip_spaces-joined (c ∷ w) [] f = rw (space_is_space, f.0.0) refl
skip_spaces-joined (c ∷ w) (v ∷ words) f = rw (space_is_space, f.0.0) refl

words_from-joined :
    (room : ℕ) (w : Text) (words : List Text)
    → length words < room
    → AllFit (w ∷ words)
    → words_from room (joined (w ∷ words)) ≡ (w ∷ words, true)
unfolding words_from
words_from-joined zero w words h f = elim h [ ]
words_from-joined (suc room) w [] h f =
    rw (get_word_whole w f.0, not_too_long w f.0, drop_whole w, no_more) refl
words_from-joined (suc room) w (v ∷ words) h f =
    rw
      (
        get_word-append w (32 ∷ joined (v ∷ words)) f.0 refl,
        not_too_long w f.0,
        drop-append w (32 ∷ joined (v ∷ words)),
        skip_spaces-joined v words f.1.0,
        first_char-joined v words f.1.0,
        words_from-joined room v words (omega arith) f.1,
      )
      refl

-- A line of one to six words of at most 31 characters, with one space between each two, is split into
-- those words.
pub parse_line_into_words-joined :
    (w : Text) (words : List Text)
    → length words < 6
    → AllFit (w ∷ words)
    → parse_line_into_words (joined (w ∷ words)) ≡ (w ∷ words, true)
unfolding parse_line_into_words
parse_line_into_words-joined w words h f = words_from-joined 6 w words h f
