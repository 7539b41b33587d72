-- ===== src/Disassembler.antt =====
-- FDisassem, `SubProjects/FDisassem/src/fdisa.c`: `disassemble`, one function for each group. The code
-- text is the list of its characters, without the final NUL.
pub mod Bounds
use Prim.Native.String.{String}
use fprcade.Common.{
  ℕ, Bool, true, false, not, ◌==◌, ◌||◌, ltb, if◌then◌else◌, List, [], ◌∷◌, ◌++◌, ◌+◌, ◌-◌, ◌/◌,
  ◌%◌, get_or, bit_and, bit_or, pos, i16, to_u16, neg_ℤ, ltb_ℤ, sub16, u16, codes, four_digits,
  ◌<<<◌, ◌>>>◌,
}
use fprcade.Assembler.Text.{Text}

-- The letter tables.
unfoldable pub stack_letters : Text
stack_letters = codes "drct??"

unfoldable pub size_letters : Text
size_letters = codes "?bw?l?"

-- `"%s $%04x"`, `"%s %c"` and `"%s %c $%04x"`.
unfoldable pub with_number : String → ℕ → Text
with_number name n = codes name ++ (32 ∷ (b'$' ∷ four_digits n))

unfoldable pub with_letter : String → ℕ → Text
with_letter name c = codes name ++ (32 ∷ (c ∷ []))

unfoldable pub with_letter_number : String → ℕ → ℕ → Text
with_letter_number name c n = codes name ++ (32 ∷ (c ∷ (32 ∷ (b'$' ∷ four_digits n))))

unfoldable pub disassemble_enter : ℕ → Text
disassemble_enter instr = with_number "enter" (u16 (bit_and instr 0x3FFF <<< 2))

-- The new address of a BIF at an address.
unfoldable pub new_address : ℕ → ℕ → ℕ
unfolding neg_ℤ
new_address instr address =
    let low = bit_and instr 0x0FFF in
    let offset = i16 (if bit_and low 0x0800 == 0 then low else bit_or low 0xF000) in
    if ltb_ℤ offset (pos 0)
    then sub16 address (to_u16 (neg_ℤ offset))
    else u16 (address + to_u16 offset)

unfoldable pub disassemble_bif : ℕ → ℕ → Text
disassemble_bif instr address = with_number "bif" (new_address instr address)

unfoldable pub disassemble_control : ℕ → Text
disassemble_control instr =
    let func = bit_and instr 0x0F00 >>> 8 in
    if func == 0x00
    then codes "nop"
    else if func == 0x01
    then codes "leave"
    else if func == 0x02
    then codes "halt"
    else codes "?"

unfoldable pub disassemble_stack : ℕ → Text
disassemble_stack instr =
    let func = bit_and instr 0x0F00 in
    let source_letter = get_or stack_letters (bit_and instr 0x00C0 >>> 6) 0 in
    let dest_letter = get_or stack_letters (bit_and instr 0x0030 >>> 4) 0 in
    if func == 0x0000
    then with_letter "drop" source_letter
    else if func == 0x0100
    then with_letter "dup" source_letter
    else if func == 0x0200
    then with_letter "swap" source_letter
    else if func == 0x0300
    then with_letter "mov" source_letter ++ (32 ∷ (dest_letter ∷ []))
    else codes "?"

unfoldable pub disassemble_ldl : ℕ → Text
disassemble_ldl instr =
    with_letter_number "ldl" (get_or stack_letters (bit_and instr 0x0C00 >>> 10) 0)
      (bit_and instr 0x03FF)

unfoldable pub disassemble_ldh : ℕ → Text
disassemble_ldh instr =
    with_letter_number "ldh" (get_or stack_letters (bit_and instr 0x0C00 >>> 10) 0)
      (bit_and instr 0x003F)

-- The template `"%su"` or `"%s"`.
abbrev signed_name : Bool → String → Text
signed_name is_signed name = if is_signed then codes name ++ (b'u' ∷ []) else codes name

-- The inner `switch`; a function code that it does not list leaves the text empty.
unfoldable pub operator_name : ℕ → Bool → Text
operator_name func is_signed =
    if func == 0x00
    then signed_name is_signed "add"
    else if func == 0x03
    then codes "eq"
    else if func == 0x04
    then codes "asr"
    else if func == 0x05
    then signed_name is_signed "lt"
    else if func == 0x06
    then signed_name is_signed "gt"
    else if func == 0x08
    then signed_name is_signed "gte"
    else if func == 0x09
    then codes "lsr"
    else if func == 0x0A
    then codes "lsl"
    else if func == 0x0D
    then codes "and"
    else if func == 0x0E
    then codes "or"
    else if func == 0x0F
    then codes "xor"
    else []

unfoldable pub disassemble_binary : ℕ → Text
disassemble_binary instr =
    let func = bit_and instr 0x0F80 >>> 7 in
    let size_letter = get_or size_letters (bit_and instr 0x03) 0 in
    if func == 0x0B
    then (if bit_and instr 0x40 == 0
        then with_letter "sto" size_letter
        else with_letter "isto" size_letter)
    else operator_name func (not (bit_and instr 0x0010 == 0))

unfoldable pub disassemble_unary : ℕ → Text
disassemble_unary instr =
    let func = bit_and instr 0x0F00 >>> 8 in
    let size_letter = get_or size_letters (bit_and instr 0x03) 0 in
    if func == 0x00
    then codes "neg"
    else if func == 0x01
    then codes "not"
    else if func == 0x02
    then (if bit_and instr 0x40 == 0
        then with_letter "rd" size_letter
        else with_letter "ird" size_letter)
    else codes "?"

-- The outer `switch`.
unfoldable pub disassemble : ℕ → ℕ → Text
disassemble instr address =
    let group = bit_and instr 0xF000 in
    if group == 0x4000 || (group == 0x5000 || (group == 0x6000 || group == 0x7000))
    then disassemble_enter instr
    else if group == 0x1000
    then disassemble_bif instr address
    else if group == 0x8000
    then disassemble_control instr
    else if group == 0xB000
    then disassemble_stack instr
    else if group == 0xC000
    then disassemble_ldl instr
    else if group == 0xD000
    then disassemble_ldh instr
    else if group == 0xE000
    then disassemble_binary instr
    else if group == 0xF000
    then disassemble_unary instr
    else []
