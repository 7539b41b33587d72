-- ===== src/Forth/Input.antt =====
-- CF_Forth_V2, `ff.c`: the words that read the input buffer, `(` and WORD, and QUERY, which fills it.
use fprcade.Common.{
  ℕ, zero, suc, List, [], ◌∷◌, ◌++◌, ◌==◌, ltb, if◌then◌else◌, u8, u16, codes, ◌+◌, ◌-◌,
}
use fprcade.Forth.State.{
  F, pure, ◌>>=◌, ◌>>◌, done, stop, stops, assert_failed, indeterminate, next,
  ff_loc_input_buffer_index, ff_loc_input_buffer_count, ff_loc_word_buffer, ff_loc_input_buffer,
}
use fprcade.Forth.State.{on_data}
use fprcade.Forth.Memory.{read_at, write_at, fetch16ubits, store16ubits, push_cell, pop_cell, depth}
use fprcade.Forth.Startup.{instr_abort, unless_empty, paste_code}
use fprcade.Forth.StackWords.{print, sign_extend}
use fprcade.Forth.Printing.{unsigned_text}

-- The character at `input_buffer + i`.
unfoldable pub input_char : ℕ → F ℕ
input_char i = read_at (u16 (ff_loc_input_buffer + i))

-- The loop of `instr_paren` from the index i with k = n - i characters left: the last character and
-- the index.
unfoldable pub paren_loop : ℕ → ℕ → ℕ → F (ℕ × ℕ)
paren_loop zero ch i = pure (ch, i)
paren_loop (suc k) ch i =
    if ch == b')' then pure (ch, i) else (do later ← input_char i; paren_loop k later (i + 1))

unfoldable pub instr_paren : ℕ → F ℕ
instr_paren word = do
  i ← fetch16ubits ff_loc_input_buffer_index
  n ← fetch16ubits ff_loc_input_buffer_count
  if ltb n i then stops assert_failed else if i == n then instr_abort word else (do
    ch ← input_char i
    found ← paren_loop (n - i) ch i
    if found.0 == b')'
        then (do store16ubits ff_loc_input_buffer_index found.1; next 2)
        else instr_abort word)

-- The loop of `instr_word` that skips delimiters, with k = n - i characters left.
unfoldable pub skip_delimiters : ℕ → ℕ → ℕ → ℕ → F (ℕ × ℕ)
skip_delimiters zero delimitor ch i = pure (ch, i)
skip_delimiters (suc k) delimitor ch i =
    if ch == delimitor
    then (do later ← input_char (i + 1); skip_delimiters k delimitor later (i + 1))
    else pure (ch, i)

-- `word_buffer + l + 1`, where `l` is an `int8_t`.
unfoldable pub word_place : ℕ → ℕ
word_place l = u16 (ff_loc_word_buffer + sign_extend l + 1)

-- The loop that copies the word: its length, the last character and the index.
unfoldable pub copy_word : ℕ → ℕ → ℕ → ℕ → ℕ → F (ℕ × ℕ × ℕ)
copy_word zero delimitor l ch i = pure (l, ch, i)
copy_word (suc k) delimitor l ch i = if ch == delimitor then pure (l, ch, i) else (do
  write_at (word_place l) ch
  later ← input_char (i + 1)
  copy_word k delimitor (u8 (l + 1)) later (i + 1))

-- The end of the word: a zero at the end of the input, and else the delimiter.
unfoldable pub end_word : ℕ → ℕ → ℕ → ℕ → ℕ → F (Unit {0})
end_word n delimitor l ch i = do
  if i == n
      then write_at (word_place l) 0
      else if ch == delimitor
      then write_at (word_place l) ch
      else stops assert_failed
  write_at ff_loc_word_buffer l
  store16ubits ff_loc_input_buffer_index i

-- From the index to the word in the word buffer.
unfoldable pub parse_word : ℕ → F (Unit {0})
parse_word delimitor = do
  i ← fetch16ubits ff_loc_input_buffer_index
  n ← fetch16ubits ff_loc_input_buffer_count
  if i == n then write_at ff_loc_word_buffer 0 else (do
    ch ← input_char i
    skipped ← skip_delimiters (n - i) delimitor ch i
    if skipped.1 == n
        then (do write_at ff_loc_word_buffer 0; store16ubits ff_loc_input_buffer_index skipped.1)
        else (do
          copied ← copy_word (n - skipped.1) delimitor 0 skipped.0 skipped.1
          end_word n delimitor copied.0 copied.1 copied.2))

unfoldable pub instr_word : ℕ → F ℕ
instr_word dict_entry = unless_empty on_data dict_entry (do
  delimitor ← pop_cell on_data
  parse_word (u8 delimitor)
  push_cell on_data ff_loc_word_buffer
  next 2)

-- `fgets` of at most n characters: those up to a newline, and what is left.
abbrev pub fgets : ℕ → List ℕ → List ℕ × List ℕ
fgets zero cs = ([], cs)
fgets (suc n) [] = ([], [])
fgets (suc n) (ch ∷ cs) =
    if ch == b'\n' then (ch ∷ [], cs) else (ch ∷ (fgets n cs).0, (fgets n cs).1)

-- The characters before the first zero, which end a C string.
abbrev pub c_string : List ℕ → List ℕ
c_string [] = []
c_string (ch ∷ cs) = if ch == 0 then [] else ch ∷ c_string cs

-- At the end of the input `buffer` is left as it was, without a value.
unfoldable pub line_of : List ℕ → F (List ℕ)
line_of [] c = stop indeterminate
line_of (ch ∷ cs) c =
    let line = fgets 79 (ch ∷ cs) in done (c_string line.0, record c { input = line.1 })

unfoldable pub read_line : F (List ℕ)
unfolding line_of
read_line c = line_of c.input c

unfoldable pub print_depths : F (Unit {0})
print_depths c =
    print
      (codes "\nDebug: "
        ++ (unsigned_text 10 (depth c.data_stack) ++ b' ' ∷ [])
        ++ (unsigned_text 10 (depth c.control_stack) ++ b' ' ∷ [])
        ++ (unsigned_text 10 (depth c.return_stack) ++ b'\n' ∷ []))
      c

unfoldable pub instr_query : ℕ → F ℕ
instr_query dict_entry = do print_depths; buffer ← read_line; paste_code buffer; next 2
