-- ===== src/Assembler/Instructions.antt =====
-- FAsm, `fa.c`: the table of the instructions, and `parse_instruction`.
use fprcade.Common.{
  ℕ, Bool, true, false, ◌==◌, if◌then◌else◌, List, [], ◌∷◌, ◌+◌, Option, none, some, u16, sub16,
  codes,
}
use Prim.Native.String.{String}
use fprcade.Assembler.Text.{Text, same_text, ErrorReason, all_ok}
use fprcade.Assembler.Symbols.{SymbolTable}
use fprcade.Assembler.Hex.{HexWriter}
use fprcade.Assembler.Generators.{
  Generator, word_at, bif_generator, enter_generator, halt_generator, ld_generator, ldh_generator,
  ldl_generator, leave_generator, nop_generator, reset_generator,
}
use fprcade.Assembler.Operators.{
  add_generator, and_generator, asr_generator, drop_generator, dup_generator, eq_generator,
  gt_generator, gte_generator, gteu_generator, gtu_generator, ird_generator, isto_generator,
  lsl_generator, lsr_generator, lt_generator, lte_generator, lteu_generator, ltu_generator,
  mov_generator, mul_generator, mulu_generator, neg_generator, not_generator, or_generator,
  rd_generator, sto_generator, swap_generator, xor_generator,
}

pub data Phase : Type 0 where
  scan assembling : Phase

pub record InstructionGenerator : Type 0 where
  pub instruction_name : Text
  pub generator : Generator
  pub byte_count : ℕ

abbrev entry : String → Generator → ℕ → InstructionGenerator
entry name g n = record { instruction_name = codes name; generator = g; byte_count = n }

unfoldable pub instruction_generators : List InstructionGenerator
instruction_generators =
    entry "ADD" add_generator 2
    ∷ entry "ASR" asr_generator 2
    ∷ entry "MUL" mul_generator 2
    ∷ entry "MULU" mulu_generator 2
    ∷ entry "AND" and_generator 2
    ∷ entry "BIF" bif_generator 2
    ∷ entry "DROP" drop_generator 2
    ∷ entry "MOV" mov_generator 2
    ∷ entry "DUP" dup_generator 2
    ∷ entry "ENTER" enter_generator 2
    ∷ entry "EQ" eq_generator 2
    ∷ entry "GTE" gte_generator 2
    ∷ entry "GTEU" gteu_generator 2
    ∷ entry "GT" gt_generator 2
    ∷ entry "GTU" gtu_generator 2
    ∷ entry "HALT" halt_generator 2
    ∷ entry "RESET" reset_generator 2
    ∷ entry "IRD" ird_generator 2
    ∷ entry "ISTO" isto_generator 2
    ∷ entry "LDH" ldh_generator 2
    ∷ entry "LD" ld_generator 4
    ∷ entry "LDL" ldl_generator 2
    ∷ entry "LEAVE" leave_generator 2
    ∷ entry "LTE" lte_generator 2
    ∷ entry "LTEU" lteu_generator 2
    ∷ entry "LT" lt_generator 2
    ∷ entry "LSL" lsl_generator 2
    ∷ entry "LSR" lsr_generator 2
    ∷ entry "LTU" ltu_generator 2
    ∷ entry "NEG" neg_generator 2
    ∷ entry "NOP" nop_generator 2
    ∷ entry "NOT" not_generator 2
    ∷ entry "OR" or_generator 2
    ∷ entry "RD" rd_generator 2
    ∷ entry "STO" sto_generator 2
    ∷ entry "SWAP" swap_generator 2
    ∷ entry "XOR" xor_generator 2
    ∷ []

-- The first entry with the name.
unfoldable pub find_instruction : List InstructionGenerator → Text → Option InstructionGenerator
unfolding same_text
find_instruction [] name = none
find_instruction (g ∷ table) name =
    if same_text name g.instruction_name then some g else find_instruction table name

-- What a line leaves: the output, the symbol table, the address, and `all_ok`.
pub record Progress : Type 0 where
  pub hex : HexWriter
  pub table : SymbolTable
  pub address : ℕ
  pub all_ok : Bool

-- `undefined` is behaviour that C leaves open, or a failing assertion; `out_of_fuel` is a loop that has
-- not ended within its fuel.
pub data Outcome {ℓ} (A : Type ℓ) : Type ℓ where
  returns : A → Outcome A
  undefined out_of_fuel : Outcome A

unfoldable pub is_ok : ErrorReason → Bool
is_ok all_ok = true
is_ok _ = false

-- The check of a generator's result against the size that the first pass counted.
unfoldable pub size_agrees : ErrorReason → ℕ → ℕ → ℕ → Bool
unfolding is_ok
size_agrees reason new_address address byte_count =
    if is_ok reason then sub16 new_address address == byte_count else false

unfoldable pub parse_known : InstructionGenerator → List Text → Phase → Progress → Outcome Progress
unfolding size_agrees
parse_known g words scan p =
    returns (record p { address = u16 (p.address + g.byte_count); all_ok = true })
parse_known g words assembling p = elim (g.generator words p.table p.hex p.address) [
  | none ↦ undefined
  | some e ↦ returns (record p {
    hex = e.hex;
    address = e.new_address;
    all_ok = size_agrees e.reason e.new_address p.address g.byte_count;
  })
]

unfoldable pub parse_instruction : List Text → Phase → Progress → Outcome Progress
parse_instruction words phase p = elim (find_instruction instruction_generators (word_at words 0)) [
  | none ↦ returns (record p { all_ok = false })
  | some g ↦ parse_known g words phase p
]
