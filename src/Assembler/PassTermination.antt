-- ===== src/Assembler/PassTermination.antt =====
-- FAsm, `fa.c`: the passes, and `assemble` as a whole, end on fuel that the input's length gives.
use fprcade.Common.{
  ℕ, zero, suc, ◌≡◌, ◌<◌, ◌≤◌, ◌+◌, arith, Bool, true, false, not, ◌==◌, List, [], ◌∷◌, Option,
  none, some, refl, length,
}
use fprcade.Assembler.Text.{Text, skip_spaces}
use fprcade.Assembler.Symbols.{SymbolTable, Added, added, refused, aborted, add_label}
use fprcade.Assembler.Hex.{HexWriter}
use fprcade.Assembler.Instructions.{
  Phase, scan, assembling, Progress, Outcome, returns, undefined, out_of_fuel, parse_instruction,
  parse_known, InstructionGenerator, find_instruction, instruction_generators,
}
use fprcade.Assembler.Generators.{Emitted, word_at}
use fprcade.Assembler.Lines.{
  strip_line, remove_remarks, remove_remarks_from, copy_line, drop_trailing, cons_unless_blank,
  next_in_string, next_in_char, parse_line_into_words,
}
use fprcade.Assembler.Passes.{
  assemble_lines, assemble_line, assemble_label, label_added, assemble_words, assemble_phase,
  finished, assemble,
}
use fprcade.Assembler.Termination.{ended, skip_spaces-length}
use fprcade.Assembler.DirectiveTermination.{parse_directive-ended}

parse_instruction-ended :
    (words : List Text) (phase : Phase) (p : Progress)
    → ended (parse_instruction words phase p) ≡ true
unfolding parse_instruction parse_known
parse_instruction-ended words phase p =
    go (find_instruction instruction_generators (word_at words 0)) phase
  where
    emitted :
        (g : InstructionGenerator) (o : Option Emitted)
        → g.generator words p.table p.hex p.address ≡ o
        → ended (parse_known g words assembling p) ≡ true
    emitted g none e = rw (ended, e) refl
    emitted g (some r) e = rw (ended, e) refl

    go :
        (o : Option InstructionGenerator) (phase : Phase)
        → ended (elim o [
          | none ↦ returns (record p { all_ok = false })
          | some g ↦ parse_known g words phase p
        ])
          ≡ true
    go none phase = refl
    go (some g) scan = refl
    go (some g) assembling = emitted g (g.generator words p.table p.hex p.address) refl

assemble_label-ended :
    (phase : Phase) (line : Text) (p : Progress) → ended (assemble_label phase line p) ≡ true
unfolding assemble_label label_added
assemble_label-ended assembling line p = refl
assemble_label-ended scan line p = go (add_label p.table line p.address)
  where
    go : (a : Added) → ended (label_added p a) ≡ true
    go (added t) = refl
    go refused = refl
    go aborted = refl

assemble_words-ended :
    (w : List Text × Bool) (phase : Phase) (p : Progress) → ended (assemble_words w phase p) ≡ true
unfolding assemble_words
assemble_words-ended (words, true) phase p = parse_instruction-ended words phase p
assemble_words-ended (words, false) phase p = refl

assemble_line-ended :
    (fuel : ℕ) (phase : Phase) (line : Text) (p : Progress)
    → length line < fuel
    → ended (assemble_line fuel phase line p) ≡ true
unfolding assemble_line
assemble_line-ended fuel phase line p h = ground (
  arith,
  assemble_label-ended phase line p,
  parse_directive-ended fuel line phase p h,
  assemble_words-ended (parse_line_into_words line) phase p,
)

remove_remarks-length :
    (inside : Bool) (line : Text) → length (remove_remarks_from inside line) ≤ length line
unfolding remove_remarks_from
remove_remarks-length true [] = omega arith
remove_remarks-length false [] = omega arith
remove_remarks-length true (c ∷ line) = omega (arith, remove_remarks-length (not (c == b'"')) line)
remove_remarks-length false (c ∷ line) = ground (arith, remove_remarks-length (c == b'"') line)

copy_line-length : (s k : Bool) (line : Text) → length (copy_line s k line).0 ≡ length line
unfolding copy_line
copy_line-length s k [] = refl
copy_line-length s k (c ∷ line) =
    let s' : Bool = next_in_string s k c in
    omega (arith, copy_line-length s' (next_in_char s' k c) line)

drop_trailing-length : (line : Text) → length (drop_trailing line) ≤ length line
unfolding drop_trailing cons_unless_blank
drop_trailing-length [] = omega arith
drop_trailing-length (c ∷ line) = go (drop_trailing line) (drop_trailing-length line)
  where
    go : (t : Text) → length t ≤ length line → length (cons_unless_blank c t) ≤ suc (length line)
    go [] h = ground arith
    go (d ∷ t) h = omega (arith, h)

strip_line-length : (line : Text) → length (strip_line (remove_remarks line)).0 ≤ length line
unfolding strip_line remove_remarks
strip_line-length line =
    let kept : Text = remove_remarks_from false line in
    omega (
      arith,
      drop_trailing-length (copy_line false false (skip_spaces kept)).0,
      copy_line-length false false (skip_spaces kept),
      skip_spaces-length kept,
      remove_remarks-length false line,
    )

-- The characters of the input, with one more for each line.
abbrev pub total : List Text → ℕ
total [] = 0
total (line ∷ lines) = suc (length line + total lines)

-- Each line ends the strings and the character constants that it begins.
abbrev pub AllTerminated : List Text → Type 0
AllTerminated [] = Unit
AllTerminated (line ∷ lines) = ((strip_line (remove_remarks line)).1 ≡ true) × AllTerminated lines

assemble_lines-ended :
    (fuel : ℕ) (phase : Phase) (lines : List Text) (p : Progress)
    → AllTerminated lines
    → total lines < fuel
    → ended (assemble_lines fuel phase lines p) ≡ true
unfolding assemble_lines
assemble_lines-ended zero phase lines p h k = elim k [ ]
assemble_lines-ended (suc fuel) phase [] p h k = refl
assemble_lines-ended (suc fuel) phase (line ∷ lines) p h k =
    rw (ended, h.0)
      (go (assemble_line fuel phase (strip_line (remove_remarks line)).0 p)
        (assemble_line-ended fuel phase (strip_line (remove_remarks line)).0 p
          (omega (arith, strip_line-length line)))
        (λ p'. assemble_lines-ended fuel phase lines p' h.1 (omega arith)))
  where
    next :
        (p' : Progress) (b : Bool)
        → ended (assemble_lines fuel phase lines p') ≡ true
        → ended (elim b [ true ↦ assemble_lines fuel phase lines p' | false ↦ returns p' ]) ≡ true
    next p' true r = r
    next p' false r = refl

    go :
        (o : Outcome Progress)
        → ended o ≡ true
        → ((p' : Progress) → ended (assemble_lines fuel phase lines p') ≡ true)
        → ended (elim o [
          | returns p' ↦ elim p'.all_ok [
            | true ↦ assemble_lines fuel phase lines p'
            | false ↦ returns p'
          ]
          | undefined ↦ undefined
          | out_of_fuel ↦ out_of_fuel
        ])
          ≡ true
    go (returns p') e r = next p' p'.all_ok (r p')
    go undefined e r = refl
    go out_of_fuel e r = e

finished-ended : (o : Outcome Progress) → ended o ≡ true → ended (finished o) ≡ true
unfolding finished
finished-ended (returns p) h = refl
finished-ended undefined h = refl
finished-ended out_of_fuel h = h

-- Both passes end, on more fuel than the input has characters and lines, when each line ends the
-- strings and the character constants that it begins: `assemble` returns, or meets behaviour that C
-- leaves undefined.
pub assemble-ended :
    (fuel : ℕ) (lines : List Text) (table : SymbolTable) (h : HexWriter)
    → AllTerminated lines
    → total lines < fuel
    → ended (assemble fuel lines table h) ≡ true
unfolding assemble assemble_phase
assemble-ended fuel lines table h t k =
    go (assemble_phase fuel scan lines table h) (assemble_lines-ended fuel scan lines _ t k)
  where
    second :
        (p : Progress) (b : Bool)
        → ended (elim b [
          | true ↦ finished (assemble_phase fuel assembling lines p.table p.hex)
          | false ↦ returns p
        ])
          ≡ true
    second p true = finished-ended _ (assemble_lines-ended fuel assembling lines _ t k)
    second p false = refl

    go :
        (o : Outcome Progress)
        → ended o ≡ true
        → ended (elim o [
          | returns p ↦ elim p.all_ok [
            | true ↦ finished (assemble_phase fuel assembling lines p.table p.hex)
            | false ↦ returns p
          ]
          | undefined ↦ undefined
          | out_of_fuel ↦ out_of_fuel
        ])
          ≡ true
    go (returns p) e = second p p.all_ok
    go undefined e = refl
    go out_of_fuel e = e
