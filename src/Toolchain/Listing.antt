-- ===== src/Toolchain/Listing.antt =====
-- What FDisassem shows for the instructions that FAsm emits.
use fprcade.Common.{ℕ, ◌≡◌, ◌<◌, ◌+◌, ◌%◌, arith, refl, List, some, codes, u16, ap, ◌∙◌}
use fprcade.Assembler.Text.{Text, all_ok}
use fprcade.Assembler.Symbols.{SymbolTable}
use fprcade.Assembler.Hex.{HexWriter}
use fprcade.Assembler.Generators.{
  Generator, emit, emit_code, enter_code, bif_code, nop_generator, leave_generator, halt_generator,
}
use fprcade.Assembler.Operators.{
  eq_generator, asr_generator, and_generator, or_generator, xor_generator, add_generator,
  lt_generator, ltu_generator, gt_generator, gtu_generator, gte_generator, gteu_generator,
  lsl_generator, lsr_generator, not_generator, neg_generator, mul_generator, mulu_generator,
  lte_generator, lteu_generator,
}
use fprcade.Emulator.Flow.{enter_address}
use fprcade.Disassembler.{
  disassemble, disassemble_control, disassemble_binary, disassemble_unary, operator_name,
  disassemble_enter, disassemble_bif, with_number,
}
use fprcade.Toolchain.Encoding.{
  InReach, bif_target-bif_code, enter_address-enter_code, enter_code-eq-add, bif_code-eq-add,
  group-eq-div,
}

-- The generator never fails and emits one opcode, which the disassembler shows as this text.
pub record Shows (g : Generator) (text : Text) : Type 0 where
  pub opcode : ℕ
  pub emits :
      (words : List Text) (table : SymbolTable) (h : HexWriter) (address : ℕ)
      → g words table h address
        ≡ some
            (record { hex = emit_code opcode h; new_address = u16 (address + 2); reason = all_ok })
  pub shows : (address : ℕ) → disassemble opcode address ≡ text

-- FDisassem shows each of these eight mnemonics of FAsm by its own name: NOP, LEAVE, HALT, EQ, ASR,
-- AND, OR and XOR.
mnemonics_shown :
    Shows nop_generator (codes "nop")
    × Shows leave_generator (codes "leave")
    × Shows halt_generator (codes "halt")
    × Shows eq_generator (codes "eq")
    × Shows asr_generator (codes "asr")
    × Shows and_generator (codes "and")
    × Shows or_generator (codes "or")
    × Shows xor_generator (codes "xor")
unfolding disassemble disassemble_control disassemble_binary operator_name emit nop_generator
    leave_generator halt_generator eq_generator asr_generator and_generator or_generator
    xor_generator
mnemonics_shown = (
  record { opcode = 0x8000; emits = λ w t h a. refl; shows = λ a. refl },
  record { opcode = 0x8100; emits = λ w t h a. refl; shows = λ a. refl },
  record { opcode = 0x8200; emits = λ w t h a. refl; shows = λ a. refl },
  record { opcode = 0xe180; emits = λ w t h a. refl; shows = λ a. refl },
  record { opcode = 0xe210; emits = λ w t h a. refl; shows = λ a. refl },
  record { opcode = 0xe680; emits = λ w t h a. refl; shows = λ a. refl },
  record { opcode = 0xe700; emits = λ w t h a. refl; shows = λ a. refl },
  record { opcode = 0xe780; emits = λ w t h a. refl; shows = λ a. refl },
)

-- FDisassem shows each of these fifteen mnemonics as another one or not at all: the signed forms of
-- ADD, LT, GT and GTE with a U and the unsigned ones without, LSL and LSR as each other, NOT and NEG as
-- each other, and MUL, MULU, LTE and LTEU as an empty text.
mnemonics_mistaken :
    Shows add_generator (codes "addu")
    × Shows lt_generator (codes "ltu")
    × Shows ltu_generator (codes "lt")
    × Shows gt_generator (codes "gtu")
    × Shows gtu_generator (codes "gt")
    × Shows gte_generator (codes "gteu")
    × Shows gteu_generator (codes "gte")
    × Shows lsl_generator (codes "lsr")
    × Shows lsr_generator (codes "lsl")
    × Shows not_generator (codes "neg")
    × Shows neg_generator (codes "not")
    × Shows mul_generator (codes "")
    × Shows mulu_generator (codes "")
    × Shows lte_generator (codes "")
    × Shows lteu_generator (codes "")
unfolding disassemble disassemble_binary disassemble_unary operator_name emit add_generator
    lt_generator ltu_generator gt_generator gtu_generator gte_generator gteu_generator lsl_generator
    lsr_generator not_generator neg_generator mul_generator mulu_generator lte_generator
    lteu_generator
mnemonics_mistaken = (
  record { opcode = 0xe010; emits = λ w t h a. refl; shows = λ a. refl },
  record { opcode = 0xe290; emits = λ w t h a. refl; shows = λ a. refl },
  record { opcode = 0xe280; emits = λ w t h a. refl; shows = λ a. refl },
  record { opcode = 0xe310; emits = λ w t h a. refl; shows = λ a. refl },
  record { opcode = 0xe300; emits = λ w t h a. refl; shows = λ a. refl },
  record { opcode = 0xe410; emits = λ w t h a. refl; shows = λ a. refl },
  record { opcode = 0xe400; emits = λ w t h a. refl; shows = λ a. refl },
  record { opcode = 0xe480; emits = λ w t h a. refl; shows = λ a. refl },
  record { opcode = 0xe500; emits = λ w t h a. refl; shows = λ a. refl },
  record { opcode = 0xf000; emits = λ w t h a. refl; shows = λ a. refl },
  record { opcode = 0xf100; emits = λ w t h a. refl; shows = λ a. refl },
  record { opcode = 0xe080; emits = λ w t h a. refl; shows = λ a. refl },
  record { opcode = 0xe090; emits = λ w t h a. refl; shows = λ a. refl },
  record { opcode = 0xe390; emits = λ w t h a. refl; shows = λ a. refl },
  record { opcode = 0xe380; emits = λ w t h a. refl; shows = λ a. refl },
)

-- The group decides.
enter_group :
    (location address : ℕ)
    → disassemble (enter_code location) address ≡ disassemble_enter (enter_code location)
unfolding disassemble
enter_group location address =
    ground (arith, enter_code-eq-add location, group-eq-div (enter_code location))

bif_group :
    (location address : ℕ)
    → disassemble (bif_code location address) address
      ≡ disassemble_bif (bif_code location address) address
unfolding disassemble
bif_group location address =
    ground (arith, bif_code-eq-add location address, group-eq-div (bif_code location address))

disassemble-enter_code :
    (location address : ℕ)
    → location < 65536
    → location % 4 ≡ 0
    → disassemble (enter_code location) address ≡ with_number "enter" location
unfolding disassemble_enter enter_address
disassemble-enter_code location address p q =
    enter_group location address
    ∙ ap (λ (n : ℕ). with_number "enter" n) (enter_address-enter_code location p q)

disassemble-bif_code :
    (location address : ℕ)
    → location < 65536
    → address < 65536
    → InReach location address
    → disassemble (bif_code location address) address ≡ with_number "bif" location
unfolding disassemble_bif
disassemble-bif_code location address p q r =
    let (reach, same) = bif_target-bif_code location address p q in
    bif_group location address ∙ ap (λ (n : ℕ). with_number "bif" n) (same ∙ reach.1 r)

-- FDisassem shows the address of a 16 bit label for an ENTER to it, at any address, where it is aligned,
-- and for a BIF to it, at a 16 bit address, where it is in reach of that, aligned or not.
pub disassemble-enter_code-bif_code :
    (location at : ℕ)
    → location < 65536
    → location % 4 ≡ 0
    → (target address : ℕ) → target < 65536
    → address < 65536
    → InReach target address
    → (disassemble (enter_code location) at ≡ with_number "enter" location)
      × (disassemble (bif_code target address) address ≡ with_number "bif" target)
disassemble-enter_code-bif_code location at p r target address q u s =
    (disassemble-enter_code location at p r, disassemble-bif_code target address q u s)
