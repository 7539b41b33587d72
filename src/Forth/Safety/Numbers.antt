-- ===== src/Forth/Safety/Numbers.antt =====
-- The words that read and print numbers, and DECOMPILE, under the assertions on the stacks.
use fprcade.Common.{
  ℕ, zero, suc, Bool, false, List, [], ◌∷◌, ◌++◌, Option, none, some, ℤ, pos, i16, ◌==◌, ltb, ◌+◌,
  ◌-◌, ◌*◌, length,
}
use fprcade.Forth.State.{F, ◌>>◌, next, ff_loc_base}
use fprcade.Forth.State.{on_data}
use fprcade.Forth.Memory.{push_cell}
use fprcade.Forth.Startup.{unless_full}
use fprcade.Forth.StackWords.{forth_true, forth_false}
use fprcade.Forth.Numbers.{
  digit_value, u32, number_loop, number_prefix, number_start, quoted_number, parse_number,
  instr_pnumber,
}
use fprcade.Forth.Printing.{
  dot_char, positive_quotient, dot_loop, buffer_char, print_down, print_in_base, instr_dot,
}
use fprcade.Forth.Safety.Rules.{
  ready, roomy, Ensures, Quiet, bind, bind-Quiet, quiet, settle, branch-Quiet, pure-Quiet,
}
use fprcade.Forth.Safety.Cells.{read_at-Quiet, fetch16ubits-Quiet, stops-Quiet, push-filled}
use fprcade.Forth.Safety.Guards.{next-Quiet, after_unless_full}
use fprcade.Forth.Safety.Words.{IsSafe, with_popped, push_next, with_unguarded, print-Quiet}

-- A choice on an optional value.
digit_choice :
    {A : Type 0} (o : Option ℕ) {m : F A} {f : ℕ → F A}
    → Quiet m
    → ((d : ℕ) → Quiet (f d))
    → Quiet (elim o [ none ↦ m | some d ↦ f d ])
digit_choice none h k = h
digit_choice (some d) h k = k d

number_loop-Quiet :
    (k string i base : ℕ) (negative : Bool) (result : ℕ)
    → Quiet (number_loop k string i base negative result)
unfolding number_loop
number_loop-Quiet zero string i base negative result = pure-Quiet (some result)
number_loop-Quiet (suc k) string i base negative result =
    bind-Quiet (read_at-Quiet (string + i)) λ ch.
      branch-Quiet (ch == b'-')
        (branch-Quiet negative (pure-Quiet none)
          (number_loop-Quiet k string (i + 1) base negative (u32 (result * base))))
        (digit_choice (digit_value ch base) (pure-Quiet none)
          λ d. number_loop-Quiet k string (i + 1) base negative (u32 (u32 (result * base) + d)))

number_prefix-Quiet : (string u base : ℕ) → Quiet (number_prefix string u base)
unfolding number_prefix
number_prefix-Quiet string u base =
    branch-Quiet (ltb 1 u) (bind-Quiet (read_at-Quiet (string + 1)) (λ ch. pure-Quiet _))
      (pure-Quiet _)

number_start-Quiet : (string u base ch : ℕ) → Quiet (number_start string u base ch)
unfolding number_start
number_start-Quiet string u base ch = branch-Quiet (ch == b'%') (number_prefix-Quiet string u 2) (
    branch-Quiet (ch == b'#') (number_prefix-Quiet string u 10) (
      branch-Quiet (ch == b'$') (number_prefix-Quiet string u 16) (
        branch-Quiet (ch == b'-') (pure-Quiet _)
          (digit_choice (digit_value ch base) (pure-Quiet _) (λ d. pure-Quiet _)))))

quoted_number-Quiet : (string u : ℕ) → Quiet (quoted_number string u)
unfolding quoted_number
quoted_number-Quiet string u =
    branch-Quiet (u == 3)
      (bind-Quiet (read_at-Quiet (string + 2))
        λ last. bind-Quiet (read_at-Quiet (string + 1)) λ ch. pure-Quiet _)
      (pure-Quiet none)

parse_number-Quiet : (string u : ℕ) → Quiet (parse_number string u)
unfolding parse_number
parse_number-Quiet string u = bind-Quiet (read_at-Quiet string) λ ch.
    bind-Quiet (fetch16ubits-Quiet ff_loc_base) λ base.
      branch-Quiet (ch == b'\'') (quoted_number-Quiet string u) (
        bind-Quiet (number_start-Quiet string u base ch) λ start.
          bind-Quiet
            (branch-Quiet start.wrong (pure-Quiet none)
              (number_loop-Quiet (u - 1) string 1 start.base start.negative start.result))
            λ number. pure-Quiet _)

-- The result and the flag, pushed after a value was popped.
push_flag :
    {strict : Bool} (word v flag : ℕ)
    → Ensures strict
        (roomy on_data)
        (do push_cell on_data v; unless_full on_data word (do push_cell on_data flag; next 2))
        ready
push_flag {strict} word v flag =
    bind (push-filled on_data v strict) (λ _. after_unless_full on_data word (push_next flag 2))

number_pushed :
    {strict : Bool} (word c_addr : ℕ) (number : Option ℕ)
    → Ensures strict
        (roomy on_data)
        (elim number [
          | none ↦ do
            push_cell on_data c_addr
            unless_full on_data word (do push_cell on_data forth_false; next 2)
          | some n ↦ do
            push_cell on_data n
            unless_full on_data word (do push_cell on_data forth_true; next 2)
        ])
        ready
number_pushed word c_addr none = push_flag word c_addr forth_false
number_pushed word c_addr (some n) = push_flag word n forth_true

pub instr_pnumber-IsSafe : (strict : Bool) → IsSafe strict instr_pnumber
unfolding instr_pnumber
instr_pnumber-IsSafe strict word =
    with_popped word
      λ a. quiet (read_at-Quiet a) λ u. quiet (parse_number-Quiet (a + 1) u) (number_pushed word a)

dot_loop-Quiet :
    (fuel : ℕ) (n : ℤ) (base : ℕ) (number : ℤ) (buffer : List ℕ)
    → Quiet (dot_loop fuel n base number buffer)
unfolding dot_loop
dot_loop-Quiet zero n base number buffer = stops-Quiet (λ _. tt)
dot_loop-Quiet (suc fuel) n base number buffer = branch-Quiet (fuel == 0) (stops-Quiet (λ _. tt)) (
    branch-Quiet (positive_quotient number base == 0) (pure-Quiet _) (
      dot_loop-Quiet fuel n base (pos (positive_quotient number base))
        (buffer ++ dot_char n base ∷ [])))

buffer_char-Quiet : (buffer : List ℕ) (i : ℕ) → Quiet (buffer_char buffer i)
unfolding buffer_char
buffer_char-Quiet buffer i =
    branch-Quiet (ltb i (length buffer)) (pure-Quiet _) (stops-Quiet (λ _. tt))

print_down-Quiet : (buffer : List ℕ) (i : ℕ) → Quiet (print_down buffer i)
unfolding print_down
print_down-Quiet buffer zero =
    bind-Quiet (buffer_char-Quiet buffer zero) (λ ch. print-Quiet (ch ∷ []))
print_down-Quiet buffer (suc i) =
    bind-Quiet (buffer_char-Quiet buffer (suc i))
      λ ch. bind-Quiet (print-Quiet (ch ∷ [])) (λ _. print_down-Quiet buffer i)

print_in_base-Quiet : (n : ℤ) (base : ℕ) → Quiet (print_in_base n base)
unfolding print_in_base
print_in_base-Quiet n base = branch-Quiet (base == 16) (print-Quiet _) (
    branch-Quiet (base == 10) (print-Quiet _) (
      branch-Quiet (base == 0) (stops-Quiet (λ _. tt)) (
        bind-Quiet (dot_loop-Quiet 17 n base n [])
          λ buffer. print_down-Quiet buffer (length buffer))))

pub instr_dot-IsSafe : IsSafe false instr_dot
unfolding instr_dot
instr_dot-IsSafe word = with_unguarded λ n. settle (
    bind-Quiet (fetch16ubits-Quiet ff_loc_base)
      λ base. bind-Quiet (print_in_base-Quiet (i16 n) base) (λ _. next-Quiet 2))
