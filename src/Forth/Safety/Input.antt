-- ===== src/Forth/Safety/Input.antt =====
-- The words that read the input buffer, under the assertions on the stacks.
use fprcade.Common.{ℕ, zero, suc, Bool, List, [], ◌∷◌, ◌==◌, ltb, u16, u8, ◌+◌, ◌-◌, length}
use fprcade.Forth.State.{
  ForthContext, F, ◌>>=◌, ◌>>◌, next, ff_loc_word_buffer, ff_loc_input_buffer,
  ff_loc_input_buffer_index, ff_loc_input_buffer_count, ff_input_buffer_size,
}
use fprcade.Forth.State.{on_data}
use fprcade.Forth.Memory.{push_cell, pop_cell, write_at}
use fprcade.Forth.Startup.{paste_characters, paste_code}
use fprcade.Forth.Input.{
  input_char, paren_loop, instr_paren, skip_delimiters, copy_word, word_place, end_word, parse_word,
  instr_word, fgets, line_of, read_line, print_depths, instr_query,
}
use fprcade.Forth.Safety.Rules.{
  Mode, filled, Has, Post, Ensures, Quiet, returns, ends, bind, bind-Quiet, quiet, forget, settle,
  branch, branch-Quiet, pure-Quiet,
}
use fprcade.Forth.Safety.Cells.{
  read_at-Quiet, write_at-Quiet, fetch16ubits-Quiet, store16ubits-Quiet, stops-Quiet, push-filled,
  pop-roomy,
}
use fprcade.Forth.Safety.Guards.{
  next-Quiet, after_unless_empty, filled_unless_empty, instr_abort-ready,
}
use fprcade.Forth.Safety.Words.{IsSafe, print-Quiet}
use fprcade.Forth.Safety.Branches.{stored}

-- A byte written, then the rest.
pub wrote : {B : Type 0} (a v : ℕ) {m : F B} → Quiet m → Quiet (do write_at a v; m)
wrote a v h = bind-Quiet (write_at-Quiet a v) (λ _. h)

paste_characters-Quiet : (code : List ℕ) (i : ℕ) → Quiet (paste_characters code i)
unfolding paste_characters
paste_characters-Quiet [] i = pure-Quiet i
paste_characters-Quiet (ch ∷ code) i = wrote _ _ (paste_characters-Quiet code (i + 1))

pub paste_code-Quiet : (code : List ℕ) → Quiet (paste_code code)
unfolding paste_code
paste_code-Quiet code =
    branch-Quiet (ltb (length code) ff_input_buffer_size)
      (bind-Quiet (paste_characters-Quiet code 0) λ i. wrote _ 0 (
        stored ff_loc_input_buffer_index 0
          (store16ubits-Quiet ff_loc_input_buffer_count (length code))))
      (stops-Quiet (λ _. tt))

input_char-Quiet : (i : ℕ) → Quiet (input_char i)
unfolding input_char
input_char-Quiet i = read_at-Quiet (u16 (ff_loc_input_buffer + i))

paren_loop-Quiet : (k ch i : ℕ) → Quiet (paren_loop k ch i)
unfolding paren_loop
paren_loop-Quiet zero ch i = pure-Quiet (ch, i)
paren_loop-Quiet (suc k) ch i =
    branch-Quiet (ch == b')') (pure-Quiet (ch, i))
      (bind-Quiet (input_char-Quiet i) (λ later. paren_loop-Quiet k later (i + 1)))

pub instr_paren-IsSafe : (strict : Bool) → IsSafe strict instr_paren
unfolding instr_paren
instr_paren-IsSafe strict word = quiet (fetch16ubits-Quiet ff_loc_input_buffer_index) λ i.
    quiet (fetch16ubits-Quiet ff_loc_input_buffer_count) λ n.
      branch (ltb n i) (settle (stops-Quiet (λ _. tt))) (
        branch (i == n) (instr_abort-ready word strict) (
          quiet (input_char-Quiet i) λ ch. quiet (paren_loop-Quiet (n - i) ch i) λ found.
            branch (found.0 == b')')
              (settle (stored ff_loc_input_buffer_index found.1 (next-Quiet 2)))
              (instr_abort-ready word strict)))

skip_delimiters-Quiet : (k d ch i : ℕ) → Quiet (skip_delimiters k d ch i)
unfolding skip_delimiters
skip_delimiters-Quiet zero d ch i = pure-Quiet (ch, i)
skip_delimiters-Quiet (suc k) d ch i =
    branch-Quiet (ch == d)
      (bind-Quiet (input_char-Quiet (i + 1)) (λ later. skip_delimiters-Quiet k d later (i + 1)))
      (pure-Quiet (ch, i))

copy_word-Quiet : (k d l ch i : ℕ) → Quiet (copy_word k d l ch i)
unfolding copy_word
copy_word-Quiet zero d l ch i = pure-Quiet (l, ch, i)
copy_word-Quiet (suc k) d l ch i = branch-Quiet (ch == d) (pure-Quiet (l, ch, i)) (
    wrote (word_place l) ch (
      bind-Quiet (input_char-Quiet (i + 1))
        (λ later. copy_word-Quiet k d (u8 (l + 1)) later (i + 1))))

end_word-Quiet : (n d l ch i : ℕ) → Quiet (end_word n d l ch i)
unfolding end_word
end_word-Quiet n d l ch i =
    bind-Quiet
      (branch-Quiet (i == n) (write_at-Quiet (word_place l) 0)
        (branch-Quiet (ch == d) (write_at-Quiet (word_place l) ch) (stops-Quiet (λ _. tt))))
      λ _. wrote ff_loc_word_buffer l (store16ubits-Quiet ff_loc_input_buffer_index i)

parse_word-Quiet : (d : ℕ) → Quiet (parse_word d)
unfolding parse_word
parse_word-Quiet d = bind-Quiet (fetch16ubits-Quiet ff_loc_input_buffer_index) λ i.
    bind-Quiet (fetch16ubits-Quiet ff_loc_input_buffer_count) λ n.
      branch-Quiet (i == n) (write_at-Quiet ff_loc_word_buffer 0) (
        bind-Quiet (input_char-Quiet i) λ ch.
          bind-Quiet (skip_delimiters-Quiet (n - i) d ch i) λ skipped.
            branch-Quiet (skipped.1 == n)
              (wrote ff_loc_word_buffer 0 (store16ubits-Quiet ff_loc_input_buffer_index skipped.1))
              (bind-Quiet (copy_word-Quiet (n - skipped.1) d 0 skipped.0 skipped.1)
                λ copied. end_word-Quiet n d copied.0 copied.1 copied.2))

word_body :
    (strict : Bool)
    → Ensures strict
        (filled on_data)
        (do
          delimitor ← pop_cell on_data
          parse_word (u8 delimitor)
          push_cell on_data ff_loc_word_buffer
          next 2)
        (filled on_data)
word_body strict = bind (pop-roomy on_data strict) λ d. quiet (parse_word-Quiet (u8 d)) λ _.
    bind (push-filled on_data ff_loc_word_buffer strict) λ _. next-Quiet 2 strict (filled on_data)

pub instr_word-IsSafe : (strict : Bool) → IsSafe strict instr_word
unfolding instr_word
instr_word-IsSafe strict word = after_unless_empty on_data word (forget (word_body strict))

-- With a delimiter on the stack WORD does not abort: it leaves the address of the word there.
pub instr_word-filled :
    (word : ℕ) (strict : Bool) → Ensures strict (filled on_data) (instr_word word) (filled on_data)
unfolding instr_word
instr_word-filled word strict = filled_unless_empty on_data word (word_body strict)

line_Post :
    {p : Mode} {strict : Bool} (cs : List ℕ) (c : ForthContext)
    → Has p c
    → Post strict (Has p) (line_of cs c)
unfolding line_of
line_Post [] c h = ends tt
line_Post (ch ∷ cs) c h = returns {c = record c { input = (fgets 79 (ch ∷ cs)).1 }} h

read_line-Quiet : Quiet read_line
unfolding read_line
read_line-Quiet strict p c h = line_Post c.input c h

print_depths-Quiet : Quiet print_depths
unfolding print_depths
print_depths-Quiet strict p c h = print-Quiet _ strict p c h

pub instr_query-IsSafe : (strict : Bool) → IsSafe strict instr_query
unfolding instr_query
instr_query-IsSafe strict word = settle (
    bind-Quiet print_depths-Quiet λ _.
      bind-Quiet read_line-Quiet λ buffer. bind-Quiet (paste_code-Quiet buffer) (λ _. next-Quiet 2))
