-- ===== src/Assembler/PassLaws.antt =====
-- FAsm, `fa.c`: the two passes agree on the size of an instruction, and the loop over the lines.
use fprcade.Common.{
  ℕ, zero, suc, ◌≡◌, ◌+◌, ◌%◌, arith, true, false, List, ◌∷◌, Option, none, some, refl, u16,
}
use fprcade.Assembler.Text.{Text}
use fprcade.Assembler.Generators.{word_at}
use fprcade.Assembler.Instructions.{
  Phase, scan, assembling, Progress, returns, out_of_fuel, InstructionGenerator, find_instruction,
  instruction_generators, parse_known, parse_instruction, size_agrees,
}
use fprcade.Assembler.Lines.{strip_line, remove_remarks}
use fprcade.Assembler.Passes.{assemble_lines}

parse_known-agrees :
    (g : InstructionGenerator) (words : List Text) (p q : Progress)
    → parse_known g words assembling p ≡ returns q
    → q.all_ok ≡ true
    → q.address % 65536 ≡ (p.address + g.byte_count) % 65536
unfolding parse_known size_agrees
parse_known-agrees g words p q h k = ground arith

scan_lem :
    (g : InstructionGenerator) (words : List Text) (p : Progress)
    → parse_known g words scan p
      ≡ returns (record p { address = u16 (p.address + g.byte_count); all_ok = true })
unfolding parse_known
scan_lem g words p = refl

-- Where the second pass assembles an instruction without an error, the first pass accepts the same
-- line at the same address, and counts the address up to just where the second pass does.
pub parse_instruction-agrees :
    (words : List Text) (p q : Progress)
    → parse_instruction words assembling p ≡ returns q
    → q.all_ok ≡ true
    → (r : Progress) × (parse_instruction words scan p ≡ returns r)
      × (r.address ≡ q.address % 65536)
      × (r.all_ok ≡ true)
unfolding parse_instruction
parse_instruction-agrees words p q h k =
    go (find_instruction instruction_generators (word_at words 0)) h
  where
    go :
        (o : Option InstructionGenerator)
        → (elim o [
          | none ↦ returns (record p { all_ok = false })
          | some g ↦ parse_known g words assembling p
        ])
          ≡ returns q
        → (r : Progress) × ((elim o [
          | none ↦ returns (record p { all_ok = false })
          | some g ↦ parse_known g words scan p
        ])
            ≡ returns r)
          × (r.address ≡ q.address % 65536)
          × (r.all_ok ≡ true)
    go none e = absurd (ground arith)
    go (some g) e = (
      record p { address = u16 (p.address + g.byte_count); all_ok = true },
      scan_lem g words p,
      omega (arith, parse_known-agrees g words p q e k),
      refl,
    )

-- A line with a string or a character constant that does not end is never got past: whatever the
-- fuel, the loop of a pass does not return.
pub assemble_lines_unterminated :
    (fuel : ℕ) (phase : Phase) (line : Text) (lines : List Text) (p : Progress)
    → (strip_line (remove_remarks line)).1 ≡ false
    → assemble_lines fuel phase (line ∷ lines) p ≡ out_of_fuel
unfolding assemble_lines
assemble_lines_unterminated zero phase line lines p h = refl
assemble_lines_unterminated (suc fuel) phase line lines p h =
    ground (arith, assemble_lines_unterminated fuel phase line lines p)
