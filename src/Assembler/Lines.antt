-- ===== src/Assembler/Lines.antt =====
-- FAsm, `fa.c`: what kind a line is, remarks, stripping, and the split into words.
use fprcade.Common.{
  ℕ, zero, suc, Bool, true, false, not, ◌&&◌, ◌==◌, leb, if◌then◌else◌, List, [], ◌∷◌, ◌-◌, drop,
}
use fprcade.Assembler.Text.{Text, first_char, is_space, skip_spaces, get_word}

-- A ':' before the first space.
unfoldable pub is_label : Text → Bool
is_label [] = false
is_label (c ∷ line) = if c == b':' then true else if is_space c then false else is_label line

unfoldable pub is_directive : Text → Bool
is_directive line = first_char line == b'.'

unfoldable pub is_instruction : Text → Bool
is_instruction line = not (first_char line == 0)

-- The loop of `remove_remarks`; the flag, `inside_remark` in the source, is set inside a string.
unfoldable pub remove_remarks_from : Bool → Text → Text
remove_remarks_from inside [] = []
remove_remarks_from true (c ∷ line) = c ∷ remove_remarks_from (not (c == b'"')) line
remove_remarks_from false (c ∷ line) =
    if c == b';' then [] else c ∷ remove_remarks_from (c == b'"') line

unfoldable pub remove_remarks : Text → Text
unfolding remove_remarks_from
remove_remarks line = remove_remarks_from false line

-- `toupper` in the C locale.
unfoldable pub to_upper : ℕ → ℕ
to_upper c = if leb b'a' c && leb c b'z' then c - 32 else c

-- The two flags after a character: a string is not looked for in a character constant, nor a constant
-- in a string.
unfoldable pub next_in_string : Bool → Bool → ℕ → Bool
next_in_string in_string in_char c = if not in_char && c == b'"' then not in_string else in_string

unfoldable pub next_in_char : Bool → Bool → ℕ → Bool
next_in_char in_string' in_char c = if not in_string' && c == b'\'' then not in_char else in_char

unfoldable pub stripped_char : Bool → Bool → ℕ → ℕ
unfolding to_upper
stripped_char in_string in_char c = if not in_string && not in_char then to_upper c else c

-- The copying loop, and the flags at its end.
unfoldable pub copy_line : Bool → Bool → Text → Text × Bool × Bool
unfolding next_in_string next_in_char stripped_char
copy_line in_string in_char [] = ([], in_string, in_char)
copy_line in_string in_char (c ∷ line) =
    let in_string' = next_in_string in_string in_char c in
    let in_char' = next_in_char in_string' in_char c in
    let (text, s, k) = copy_line in_string' in_char' line in
    (stripped_char in_string' in_char' c ∷ text, s, k)

-- Trailing spaces; the text begins with no space.
unfoldable pub cons_unless_blank : ℕ → Text → Text
cons_unless_blank c [] = if is_space c then [] else c ∷ []
cons_unless_blank c (d ∷ line) = c ∷ (d ∷ line)

unfoldable pub drop_trailing : Text → Text
unfolding cons_unless_blank
drop_trailing [] = []
drop_trailing (c ∷ line) = cons_unless_blank c (drop_trailing line)

-- The stripped line, and whether strings and character constants were ended.
unfoldable pub strip_line : Text → Text × Bool
unfolding copy_line drop_trailing
strip_line line =
    let (text, in_string, in_char) = copy_line false false (skip_spaces line) in
    (drop_trailing text, not in_string && not in_char)

abbrev pub max_number_of_parsed_words : ℕ
max_number_of_parsed_words = 6

-- The loop of `parse_line_into_words`, with the number of words that may still come. The flag is
-- false for a word that is too long or a line with too many words.
unfoldable pub words_from : ℕ → Text → List Text × Bool
words_from zero line = ([], first_char line == 0)
words_from (suc room) line =
    let (word, n) = get_word line 32 32 in
    let rest = skip_spaces (drop n line) in
    let (words, is_ok) = words_from room rest in
    if n == 32
    then ([], false)
    else if first_char rest == 0
    then (word ∷ [], true)
    else (word ∷ words, is_ok)

unfoldable pub parse_line_into_words : Text → List Text × Bool
unfolding words_from
parse_line_into_words line = words_from max_number_of_parsed_words line
