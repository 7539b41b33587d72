-- ===== src/Forth/Numbers.antt =====
-- CF_Forth_V2, `ff.c`: `to_digit` and the word (NUMBER).
use fprcade.Common.{
  ℕ, zero, suc, Bool, true, false, Option, none, some, ◌==◌, ltb, leb, if◌then◌else◌, u16, ◌&&◌,
  ◌+◌, ◌-◌, ◌*◌, ◌%◌,
}
use fprcade.Forth.State.{F, pure, ◌>>=◌, ◌>>◌, next, ff_loc_base}
use fprcade.Forth.State.{on_data}
use fprcade.Forth.Memory.{read_at, fetch16ubits, push_cell, pop_cell}
use fprcade.Forth.Startup.{unless_empty, unless_full}
use fprcade.Forth.StackWords.{sign_extend, forth_true, forth_false}

abbrev between : ℕ → ℕ → ℕ → Bool
between low ch high = leb low ch && leb ch high

-- A digit of -1 is `none`. A `char` of 128 or more is negative.
unfoldable pub digit_value : ℕ → ℕ → Option ℕ
digit_value ch base =
    if between b'a' ch b'z'
    then below (10 + ch - b'a')
    else if between b'A' ch b'Z'
    then below (10 + ch - b'A')
    else if between b'0' ch 127
    then below (ch - b'0')
    else none
  where
    below : ℕ → Option ℕ
    below d = if leb base d then none else some d

-- `result` of 32 bits.
abbrev pub u32 : ℕ → ℕ
u32 n = n % 4294967296

-- The loop over the characters at `string`, from the index i with k = u - i of them left. A number
-- that is wrong is `none`.
unfoldable pub number_loop : ℕ → ℕ → ℕ → ℕ → Bool → ℕ → F (Option ℕ)
number_loop zero string i base negative result = pure (some result)
number_loop (suc k) string i base negative result = do
  ch ← read_at (string + i)
  let shifted = u32 (result * base)
  if ch == b'-'
      then if negative then pure none else number_loop k string (i + 1) base negative shifted
      else elim (digit_value ch base) [
        | none ↦ pure none
        | some d ↦ number_loop k string (i + 1) base negative (u32 (shifted + d))
      ]

-- What the `switch` on the first character sets.
pub record NumberStart : Type 0 where
  pub base : ℕ
  pub negative : Bool
  pub wrong : Bool
  pub result : ℕ

-- The cases '%', '#' and '$'.
unfoldable pub number_prefix : ℕ → ℕ → ℕ → F NumberStart
number_prefix string u base =
    if ltb 1 u
    then (do
      ch ← read_at (string + 1)
      pure (record { base = base; negative = ch == b'-'; wrong = u == 2; result = 0 }))
    else pure (record { base = base; negative = false; wrong = true; result = 0 })

unfoldable pub number_start : ℕ → ℕ → ℕ → ℕ → F NumberStart
number_start string u base first_char =
    if first_char == b'%'
    then number_prefix string u 2
    else if first_char == b'#'
    then number_prefix string u 10
    else if first_char == b'$'
    then number_prefix string u 16
    else if first_char == b'-'
    then pure (record { base = base; negative = true; wrong = false; result = 0 })
    else elim (digit_value first_char base) [
      | none ↦ pure (record { base = base; negative = false; wrong = true; result = 0 })
      | some d ↦ pure (record { base = base; negative = false; wrong = false; result = d })
    ]

-- A character between quotes.
unfoldable pub quoted_number : ℕ → ℕ → F (Option ℕ)
quoted_number string u =
    if u == 3
    then (do
      last ← read_at (string + 2)
      ch ← read_at (string + 1)
      pure (if last == b'\'' then some (sign_extend ch) else none))
    else pure none

-- The number of 16 bits that the string stands for, if any.
unfoldable pub parse_number : ℕ → ℕ → F (Option ℕ)
parse_number string u = do
  first_char ← read_at string
  base ← fetch16ubits ff_loc_base
  if first_char == b'\'' then quoted_number string u else (do
    start ← number_start string u base first_char
    number ←
        if start.wrong
        then pure none
        else number_loop (u - 1) string 1 start.base start.negative start.result
    pure (elim number [
      | none ↦ none
      | some n ↦ some (if start.negative then u16 (u32 (4294967296 - n)) else u16 n)
    ]))

unfoldable pub instr_pnumber : ℕ → F ℕ
instr_pnumber word = unless_empty on_data word (do
  c_addr ← pop_cell on_data
  u ← read_at c_addr
  number ← parse_number (c_addr + 1) u
  elim number [
    | none ↦ do
      push_cell on_data c_addr
      unless_full on_data word (do push_cell on_data forth_false; next 2)
    | some n ↦ do
      push_cell on_data n
      unless_full on_data word (do push_cell on_data forth_true; next 2)
  ])
