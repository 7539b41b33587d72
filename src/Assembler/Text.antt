-- ===== src/Assembler/Text.antt =====
-- FAsm, `fa.c`: the identifiers of sizes and stacks, digits, and the scanning of words. A line is the
-- list of its character codes, with no final NUL; a position in it is the rest of the line from there.
use fprcade.Common.{
  ℕ, zero, suc, Bool, true, false, ◌&&◌, ◌||◌, ◌==◌, ltb, leb, if◌then◌else◌, List, [], ◌∷◌, ◌+◌,
  ◌-◌, Option, none, some, length, get_or,
}
use mathlib.Core.Option

abbrev pub Text : Type 0
Text = List ℕ

-- `word[0]`, which is the NUL of an empty word.
abbrev pub first_char : Text → ℕ
first_char w = get_or w 0 0

pub data ErrorReason : Type 0 where
  all_ok unknown_directive syntax_error directive_too_long address_error stack_id_error :
      ErrorReason

-- The size's bits in an opcode; 0xF is `eSZ_Unknown`.
unfoldable pub get_size_id : ℕ → ℕ
get_size_id c = if c == b'B' then 0x1 else if c == b'W' then 0x2 else if c == b'L' then 0x4 else 0xF

-- The stack's bits in an opcode; 0xF is `eSID_Unknown`.
unfoldable pub get_stack_id : ℕ → ℕ
get_stack_id c =
    if c == b'D'
    then 0x0
    else if c == b'C'
    then 0x1
    else if c == b'R'
    then 0x2
    else if c == b'T'
    then 0x3
    else 0xF

-- `none` is the -1 of a character that is no digit in the base.
unfoldable pub in_base : ℕ → ℕ → Option ℕ
in_base base d = if leb base d then none else some d

unfoldable pub to_digit : ℕ → ℕ → Option ℕ
unfolding in_base
to_digit c base =
    if leb b'a' c && leb c b'z'
    then in_base base (10 + c - b'a')
    else if leb b'A' c && leb c b'Z'
    then in_base base (10 + c - b'A')
    else if ltb c b'0'
    then none
    else in_base base (c - b'0')

-- `isspace` in the C locale.
unfoldable pub is_space : ℕ → Bool
is_space c = c == 32 || (leb 9 c && leb c 13)

unfoldable pub skip_word : Text → Text
skip_word [] = []
skip_word (c ∷ line) = if is_space c then c ∷ line else skip_word line

unfoldable pub skip_spaces : Text → Text
skip_spaces [] = []
skip_spaces (c ∷ line) = if is_space c then skip_spaces line else c ∷ line

-- The loop of `get_word`, with the number of characters that the buffer can still take.
unfoldable pub word_prefix : ℕ → ℕ → Text → Option Text
word_prefix separator zero line = none
word_prefix separator (suc room) [] = some []
word_prefix separator (suc room) (x ∷ line) =
    if x == separator then some [] else Option.map (λ w. x ∷ w) (word_prefix separator room line)

-- The word and its length; an empty word and `max_len` where the word does not fit.
unfoldable pub get_word : Text → ℕ → ℕ → Text × ℕ
unfolding word_prefix
get_word line separator max_len = elim (word_prefix separator max_len line) [
  | none ↦ ([], max_len)
  | some w ↦ (w, length w)
]

-- `strcmp(a, b) == 0`.
unfoldable pub same_text : Text → Text → Bool
same_text [] [] = true
same_text [] (y ∷ b) = false
same_text (x ∷ a) [] = false
same_text (x ∷ a) (y ∷ b) = x == y && same_text a b
