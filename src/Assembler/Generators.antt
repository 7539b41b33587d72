-- ===== src/Assembler/Generators.antt =====
-- FAsm, `fa.c`: the generators of the instructions. `words` is the parsed line, its length is
-- `number_of_words`. The listing file and the texts of the error messages are left out.
use fprcade.Common.{
  ℕ, ◌==◌, ◌||◌, ltb, if◌then◌else◌, List, [], ◌+◌, Option, none, some, length, get_or, bit_and,
  bit_or, u8, u16, sub16, ltb_ℤ, pos, to_u16, ◌<<<◌, ◌>>>◌,
}
use fprcade.Assembler.Text.{
  Text, first_char, ErrorReason, all_ok, syntax_error, address_error, stack_id_error, get_stack_id,
}
use fprcade.Assembler.Symbols.{SymbolTable, find_symbol}
use fprcade.Assembler.Numbers.{Number, number, failed, overflow, read_number}
use fprcade.Assembler.Hex.{HexWriter, hex_push_byte}

-- The state of the output after a generator, the new address, and the reason that it leaves.
pub record Emitted : Type 0 where
  pub hex : HexWriter
  pub new_address : ℕ
  pub reason : ErrorReason

-- `none` is an overflow of `int64_t` in a number.
abbrev pub Generator : Type 0
Generator = List Text → SymbolTable → HexWriter → ℕ → Option Emitted

-- `words[k]`.
abbrev pub word_at : List Text → ℕ → Text
word_at words k = get_or words k []

unfoldable pub emit_code : ℕ → HexWriter → HexWriter
emit_code instruction h =
    hex_push_byte (u8 (instruction >>> 8)) (hex_push_byte (bit_and instruction 0xFF) h)

-- An error: nothing is emitted and the address stays.
unfoldable pub refuse : ErrorReason → HexWriter → ℕ → Option Emitted
refuse r h address = some (record { hex = h; new_address = address; reason = r })

-- One instruction is emitted and the address goes up by two.
unfoldable pub emit : ℕ → HexWriter → ℕ → Option Emitted
emit instruction h address =
    some
      (record { hex = emit_code instruction h; new_address = u16 (address + 2); reason = all_ok })

unfoldable pub leave_generator : Generator
unfolding emit
leave_generator words table h address = emit 0x8100 h address

unfoldable pub nop_generator : Generator
unfolding emit
nop_generator words table h address = emit 0x8000 h address

unfoldable pub halt_generator : Generator
unfolding emit
halt_generator words table h address = emit 0x8200 h address

unfoldable pub reset_generator : Generator
unfolding emit
reset_generator words table h address = emit 0x8300 h address

unfoldable pub enter_code : ℕ → ℕ
enter_code location = bit_or 0x4000 (bit_and (location >>> 2) 0x3FFF)

unfoldable pub enter_generator : Generator
unfolding emit refuse enter_code
enter_generator words table h address =
    if ltb (length words) 2
    then refuse syntax_error h address
    else elim (find_symbol table (word_at words 1)) [
      | none ↦ refuse syntax_error h address
      | some location ↦
          if bit_and location 0x03 == 0
          then emit (enter_code location) h address
          else refuse address_error h address
    ]

-- The checks of the stack that a load names, shared by LDL, LDH and LD; then the rest of the line.
unfoldable pub with_destination : List Text → HexWriter → ℕ → (ℕ → Option Emitted) → Option Emitted
unfolding refuse
with_destination words h address rest =
    let destination = word_at words 1 in
    let destination_bits = get_stack_id (first_char destination) in
    if ltb (length words) 2
    then refuse syntax_error h address
    else if ltb 1 (length destination)
    then refuse stack_id_error h address
    else if destination_bits == 0xF
    then refuse stack_id_error h address
    else if ltb (length words) 3
    then refuse syntax_error h address
    else rest destination_bits

-- The value read: a load that takes it whole, when it is neither negative nor over the limit.
unfoldable pub ldx_value : ℕ → ℕ → ℕ → HexWriter → ℕ → Number → Option Emitted
unfolding emit refuse
ldx_value opcode limit destination_bits h address (number value is_negative) =
    if ltb_ℤ value (pos 0) || (ltb_ℤ (pos limit) value || is_negative)
    then refuse syntax_error h address
    else emit (bit_or (bit_or opcode (to_u16 value)) (destination_bits <<< 10)) h address
ldx_value opcode limit destination_bits h address (failed r) = refuse r h address
ldx_value opcode limit destination_bits h address overflow = none

unfoldable pub ldx_generator : ℕ → ℕ → Generator
unfolding with_destination ldx_value
ldx_generator opcode limit words table h address =
    with_destination words h address λ destination_bits.
      ldx_value opcode limit destination_bits h address (read_number (word_at words 2) table all_ok)

unfoldable pub ldl_generator : Generator
unfolding ldx_generator
ldl_generator words table h address = ldx_generator 0xC000 1023 words table h address

unfoldable pub ldh_generator : Generator
unfolding ldx_generator
ldh_generator words table h address = ldx_generator 0xD000 63 words table h address

-- The two instructions of LD: the low ten bits, then the high six.
unfoldable pub ldl_code : ℕ → ℕ → ℕ
ldl_code destination_bits value =
    bit_or (bit_or 0xC000 (bit_and value 0x3FF)) (destination_bits <<< 10)

unfoldable pub ldh_code : ℕ → ℕ → ℕ
ldh_code destination_bits value = bit_or (bit_or 0xD000 (value >>> 10)) (destination_bits <<< 10)

unfoldable pub ld_value : ℕ → HexWriter → ℕ → Number → Option Emitted
unfolding refuse ldl_code ldh_code
ld_value destination_bits h address (number value is_negative) = some (record {
  hex =
      emit_code (ldh_code destination_bits (to_u16 value))
        (emit_code (ldl_code destination_bits (to_u16 value)) h);
  new_address = u16 (u16 (address + 2) + 2);
  reason = all_ok;
})
ld_value destination_bits h address (failed r) = refuse r h address
ld_value destination_bits h address overflow = none

unfoldable pub ld_generator : Generator
unfolding with_destination ld_value
ld_generator words table h address = with_destination words h address λ destination_bits.
    ld_value destination_bits h address (read_number (word_at words 2) table all_ok)

-- The distance to the label, cut to the twelve bits of the field.
unfoldable pub bif_code : ℕ → ℕ → ℕ
bif_code location address = bit_or 0x1000 (bit_and (sub16 location address) 0x0FFF)

unfoldable pub bif_generator : Generator
unfolding emit refuse bif_code
bif_generator words table h address =
    if ltb (length words) 2
    then refuse syntax_error h address
    else elim (find_symbol table (word_at words 1)) [
      | none ↦ refuse address_error h address
      | some location ↦ emit (bif_code location address) h address
    ]
