-- ===== src/Assembler/Passes.antt =====
-- FAsm, `fa.c`: `assemble`. The input file is the list of the lines that `fgets` returns.
use fprcade.Common.{ℕ, zero, suc, Bool, true, false, if◌then◌else◌, List, [], ◌∷◌}
use fprcade.Assembler.Text.{Text}
use fprcade.Assembler.Symbols.{SymbolTable, Added, added, refused, aborted, add_label, check_label}
use fprcade.Assembler.Hex.{HexWriter, hex_flush, hex_set_start_address, hex_write_end_of_file}
use fprcade.Assembler.Instructions.{
  Phase, scan, assembling, Progress, Outcome, returns, undefined, out_of_fuel, parse_instruction,
}
use fprcade.Assembler.Directives.{parse_directive}
use fprcade.Assembler.Lines.{
  is_label, is_directive, is_instruction, remove_remarks, strip_line, parse_line_into_words,
}

unfoldable pub label_added : Progress → Added → Outcome Progress
label_added p (added table) = returns (record p { table = table; all_ok = true })
label_added p refused = returns (record p { all_ok = false })
label_added p aborted = undefined

unfoldable pub assemble_label : Phase → Text → Progress → Outcome Progress
unfolding label_added
assemble_label scan line p = label_added p (add_label p.table line p.address)
assemble_label assembling line p =
    returns (record p { all_ok = check_label p.table line p.address })

-- A line that does not split into words is passed over.
unfoldable pub assemble_words : List Text × Bool → Phase → Progress → Outcome Progress
assemble_words (words, true) phase p = parse_instruction words phase p
assemble_words (words, false) phase p = returns p

-- The body of the loop for a stripped line.
unfoldable pub assemble_line : ℕ → Phase → Text → Progress → Outcome Progress
unfolding assemble_label assemble_words
assemble_line fuel phase line p =
    if is_label line
    then assemble_label phase line p
    else if is_directive line
    then parse_directive fuel line phase p
    else if is_instruction line
    then assemble_words (parse_line_into_words line) phase p
    else returns p

-- The loop over the lines. Where `strip_line` fails no line is read and the loop goes round again.
unfoldable pub assemble_lines : ℕ → Phase → List Text → Progress → Outcome Progress
assemble_lines zero phase lines p = out_of_fuel
assemble_lines (suc fuel) phase [] p = returns p
assemble_lines (suc fuel) phase (line ∷ lines) p =
    let (stripped, terminated) = strip_line (remove_remarks line) in
    elim terminated [
      | false ↦ assemble_lines fuel phase (line ∷ lines) p
      | true ↦ elim (assemble_line fuel phase stripped p) [
        | returns p' ↦ elim p'.all_ok [
          | true ↦ assemble_lines fuel phase lines p'
          | false ↦ returns p'
        ]
        | undefined ↦ undefined
        | out_of_fuel ↦ out_of_fuel
      ]
    ]

-- One round of the loop over the phases.
unfoldable pub assemble_phase : ℕ → Phase → List Text → SymbolTable → HexWriter → Outcome Progress
assemble_phase fuel phase lines table h =
    assemble_lines fuel phase lines
      (record { hex = hex_set_start_address 0 h; table = table; address = 0; all_ok = true })

-- The end of `assemble`.
unfoldable pub finish_output : Progress → Progress
finish_output p = if p.all_ok then record p { hex = hex_write_end_of_file (hex_flush p.hex) } else p

unfoldable pub finished : Outcome Progress → Outcome Progress
unfolding finish_output
finished (returns p) = returns (finish_output p)
finished undefined = undefined
finished out_of_fuel = out_of_fuel

unfoldable pub assemble : ℕ → List Text → SymbolTable → HexWriter → Outcome Progress
unfolding assemble_phase finished
assemble fuel lines table h = elim (assemble_phase fuel scan lines table h) [
  | returns p ↦ elim p.all_ok [
    | true ↦ finished (assemble_phase fuel assembling lines p.table p.hex)
    | false ↦ returns p
  ]
  | undefined ↦ undefined
  | out_of_fuel ↦ out_of_fuel
]
