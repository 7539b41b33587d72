-- ===== src/Examples/Source.antt =====
-- FAsm's theorems on concrete lines and tables.
use fprcade.Common.{
  ◌≡◌, ◌⊎◌, ◌&&◌, ltb, take, length, ◌+◌, ◌%◌, ◌/◌, arith, refl, true, false, List, [], ◌∷◌, ◌++◌,
  codes, pos, some, none, if◌then◌else◌,
}
use fprcade.Assembler.Text.{Text, all_ok, get_word, same_text, skip_spaces, is_space}
use fprcade.Assembler.Symbols.{SymbolTable, find_symbol, add_symbol, add_label, check_label}
use fprcade.Assembler.Numbers.{number, read_number}
use fprcade.Assembler.Hex.{hex_push_byte, hex_word, record_checksum}
use fprcade.Assembler.Instructions.{
  scan, Progress, returns, out_of_fuel, parse_instruction, find_instruction, instruction_generators,
  parse_known,
}
use fprcade.Assembler.Operators.{add_generator}
use fprcade.Assembler.Generators.{emit_code}
use fprcade.Assembler.Lines.{remove_remarks, strip_line, parse_line_into_words}
use fprcade.Assembler.Passes.{assemble_lines, assemble}
use fprcade.Assembler.SymbolLaws.{
  or_else, first_or_same, find_symbol-add_symbol, check_label-add_label,
}
use fprcade.Assembler.DirectiveLaws.{parse_directive-agrees}
use fprcade.Assembler.Directives.{
  parse_directive, find_directive, directive_generators, dot_b_generator, dot_b_loop,
}
use fprcade.Assembler.Text.{skip_word, to_digit}
use fprcade.Assembler.Numbers.{read_plain, read_digits}
use fprcade.Assembler.SymbolFile.{dump_symbol_table}
use fprcade.Assembler.SymbolFileReading.{AllNames, assemble_lines-dump_symbol_table}
use fprcade.Assembler.Lines.{to_upper}
use fprcade.Assembler.PassLaws.{parse_instruction-agrees, assemble_lines_unterminated}
use fprcade.Assembler.WordLaws.{Fits, parse_line_into_words-joined}
use fprcade.Assembler.LineLaws.{remove_remarks_lem, is_bare}
use fprcade.Assembler.HexLaws.{record_checksum-sum, sum}
use fprcade.Assembler.NumberLaws.{read_number-hex_word}
use fprcade.Assembler.Termination.{ended}
use fprcade.Assembler.PassTermination.{assemble-ended}
use fprcade.Toolchain.HexLoading.{fresh}
use fprcade.Examples.{sixteen}

abbrev start : SymbolTable
start = (codes "START", 0xF000) ∷ []

abbrev begun : Progress
begun = record { hex = fresh sixteen 0; table = start; address = 0xF000; all_ok = true }

find_symbol-add_symbol_example :
    find_symbol (start ++ (codes "LOOP", 0xF008) ∷ []) (codes "START")
    ≡ or_else
        (find_symbol start (codes "START"))
        (if same_text (codes "START") (codes "LOOP") then some 0xF008 else none)
unfolding add_symbol
find_symbol-add_symbol_example =
    find_symbol-add_symbol start (start ++ (codes "LOOP", 0xF008) ∷ []) (codes "LOOP")
      (codes "START") 0xF008 refl

check_label-add_label_example :
    check_label (start ++ (codes "LOOP", 0xF008) ∷ []) (codes "LOOP:") 0xF008
    ≡ first_or_same (find_symbol start (get_word (codes "LOOP:") b':' 32).0) 0xF008
unfolding add_label add_symbol get_word
check_label-add_label_example =
    check_label-add_label start (start ++ (codes "LOOP", 0xF008) ∷ []) (codes "LOOP:") 0xF008 refl

-- The state after the second pass has met an ADD.
abbrev after_add : Progress
after_add = record {
  hex = record (fresh sixteen 0) {
    byte_buffer = 16 ∷ 224 ∷ 0 ∷ 0 ∷ 0 ∷ 0 ∷ 0 ∷ 0 ∷ 0 ∷ 0 ∷ 0 ∷ 0 ∷ 0 ∷ 0 ∷ 0 ∷ 0 ∷ [];
    current_byte = 2;
  };
  table = start;
  address = 0xF002;
  all_ok = true;
}

parse_instruction-agrees_example :
    (r : Progress) × (parse_instruction (codes "ADD" ∷ []) scan begun ≡ returns r)
    × (r.address ≡ 0xF002)
    × (r.all_ok ≡ true)
unfolding parse_instruction find_instruction instruction_generators parse_known add_generator
    emit_code hex_push_byte
parse_instruction-agrees_example =
    parse_instruction-agrees (codes "ADD" ∷ []) begun after_add refl refl

assemble_lines_unterminated_example :
    assemble_lines 9 scan (codes ".STR \"abc" ∷ codes "HALT" ∷ []) begun ≡ out_of_fuel
unfolding strip_line remove_remarks skip_spaces is_space
assemble_lines_unterminated_example =
    assemble_lines_unterminated 9 scan (codes ".STR \"abc") (codes "HALT" ∷ []) begun refl

-- A program with a label, an instruction with a remark, and a directive.
abbrev program : List Text
program = codes "START:" ∷ (codes " LD D $1234 ; load" ∷ (codes ".B 1 2 'c'" ∷ []))

assemble-ended_example : ended (assemble 60 program [] (fresh sixteen 0)) ≡ true
unfolding strip_line remove_remarks skip_spaces is_space
assemble-ended_example =
    assemble-ended 60 program [] (fresh sixteen 0) (refl, (refl, (refl, tt))) (omega arith)

ld-Fits : Fits (codes "LD")
unfolding is_space
ld-Fits = ((refl, omega arith, (refl, omega arith, tt)), omega arith, omega arith)

d-Fits : Fits (codes "D")
unfolding is_space
d-Fits = ((refl, omega arith, tt), omega arith, omega arith)

parse_line_into_words-joined_example :
    parse_line_into_words (codes "LD D D") ≡ (codes "LD" ∷ (codes "D" ∷ (codes "D" ∷ [])), true)
parse_line_into_words-joined_example =
    parse_line_into_words-joined (codes "LD") (codes "D" ∷ (codes "D" ∷ [])) (omega arith)
      (ld-Fits, (d-Fits, (d-Fits, tt)))

-- A line with a ';' in a string and a remark.
abbrev quoted : Text
quoted = codes ".str \";\" ; semicolon"

remove_remarks_lem_example :
    (remove_remarks quoted ≡ take (length (remove_remarks quoted)) quoted)
    × ((ltb 6 (length (remove_remarks quoted)) && is_bare 6 quoted) ≡ false)
    × ((remove_remarks quoted ≡ quoted) ⊎ (is_bare (length (remove_remarks quoted)) quoted ≡ true))
    × (remove_remarks (remove_remarks quoted) ≡ remove_remarks quoted)
remove_remarks_lem_example = remove_remarks_lem quoted 6

record_checksum-sum_example :
    (2
        + 0xF000 / 256
        + 0xF000 % 256
        + sum (16 ∷ 224 ∷ [])
        + record_checksum 0xF000 2 (16 ∷ 224 ∷ []))
      % 256
    ≡ 0
record_checksum-sum_example = record_checksum-sum 0xF000 2 (16 ∷ 224 ∷ []) (omega arith)

read_number-hex_word_example :
    read_number (b'$' ∷ hex_word 0xBEEF) start all_ok ≡ number (pos 0xBEEF) false
read_number-hex_word_example = read_number-hex_word 0xBEEF start all_ok (omega arith)

-- The state after the second pass has met `.B 7`.
abbrev after_byte : Progress
after_byte = record {
  hex = record (fresh sixteen 0) {
    byte_buffer = 7 ∷ 0 ∷ 0 ∷ 0 ∷ 0 ∷ 0 ∷ 0 ∷ 0 ∷ 0 ∷ 0 ∷ 0 ∷ 0 ∷ 0 ∷ 0 ∷ 0 ∷ 0 ∷ [];
    current_byte = 1;
  };
  table = start;
  address = 0xF001;
  all_ok = true;
}

parse_directive-agrees_example :
    parse_directive 9 (codes ".B 7") scan begun ≡ returns (record begun { address = 0xF001 })
unfolding parse_directive find_directive directive_generators dot_b_generator dot_b_loop read_number
    read_plain hex_push_byte skip_word skip_spaces is_space get_word to_digit read_digits
parse_directive-agrees_example =
    parse_directive-agrees 9 (codes ".B 7") begun after_byte refl refl refl

start-AllNames : AllNames start
unfolding is_space to_upper
start-AllNames = (
  (
    (
      (
        refl,
        omega arith,
        (refl, omega arith, (refl, omega arith, (refl, omega arith, (refl, omega arith, tt)))),
      ),
      omega arith,
      omega arith,
    ),
    (
      omega arith,
      omega arith,
      omega arith,
      (
        omega arith,
        omega arith,
        omega arith,
        (
          omega arith,
          omega arith,
          omega arith,
          (omega arith, omega arith, omega arith, (omega arith, omega arith, omega arith, tt)),
        ),
      ),
    ),
    refl,
  ),
  omega arith,
  tt,
)

assemble_lines-dump_symbol_table_example :
    assemble_lines 2 scan (dump_symbol_table start) (record begun { table = [] })
    ≡ returns (record begun { table = start })
assemble_lines-dump_symbol_table_example =
    assemble_lines-dump_symbol_table 2 start (record begun { table = [] }) start-AllNames
      (omega arith) (omega arith) (omega arith) refl
