-- ===== src/Forth/Decompiler.antt =====
-- CF_Forth_V2, `ff.c`: DECOMPILE and the functions of the decompilation table.
use fprcade.Common.{
  ℕ, zero, suc, List, [], ◌∷◌, ◌++◌, codes, four_digits, low_hex_digit, ◌==◌, ltb, if◌then◌else◌,
  u16, bit_and, ◌||◌, ◌+◌, ◌-◌,
}
use fprcade.Forth.State.{
  F, pure, ◌>>=◌, ◌>>◌, stops, never_ends, next, ff_memory_size, max_instruction_count,
}
use fprcade.Forth.State.{on_data}
use fprcade.Forth.Memory.{read_at, fetch16ubits, pop_cell}
use fprcade.Forth.Dictionary.{
  get_code_field, get_parameter_field, de_flags, de_does_code, de_name, ef_machine_code,
  ef_immediate, ef_compile_only, ef_hidden,
}
use fprcade.Forth.Startup.{unless_empty}
use fprcade.Forth.StackWords.{print}
use fprcade.Forth.Printing.{unsigned_text}
use fprcade.Forth.Opcodes.{op_enter, op_exit, op_does_enter, op_push, op_jump, op_jump_if}

-- The characters at an address, printed one by one.
unfoldable pub print_characters : ℕ → ℕ → F (Unit {0})
print_characters zero a = pure tt
print_characters (suc n) a = do ch ← read_at a; print (ch ∷ []); print_characters n (a + 1)

-- The address and the name. The index is unsigned: a negative count is a number past every memory.
unfoldable pub decomp_name : ℕ → ℕ → F (Unit {0})
decomp_name header ip = do
  print (four_digits ip ++ b' ' ∷ [])
  count ← read_at (header + de_name)
  print_characters (if ltb count 128 then count else 4294967296 - (256 - count))
      (header + de_name + 1)

unfoldable pub decomp_opcode : ℕ → ℕ → F ℕ
decomp_opcode header ip = do decomp_name header ip; print (b'\n' ∷ []); pure 2

unfoldable pub decomp_push : ℕ → ℕ → F ℕ
decomp_push header ip = do
  decomp_name header ip
  n ← fetch16ubits (u16 (ip + 2))
  print (b' ' ∷ unsigned_text 10 n)
  print (b'\n' ∷ [])
  pure 4

unfoldable pub decomp_jump : ℕ → ℕ → F ℕ
decomp_jump header ip = do
  decomp_name header ip
  n ← fetch16ubits (u16 (ip + 2))
  print (b' ' ∷ four_digits n)
  print (b'\n' ∷ [])
  pure 4

-- `fill_decompilation_table`.
unfoldable pub decompile_table : ℕ → ℕ → ℕ → F ℕ
decompile_table opcode =
    if opcode == op_push
    then decomp_push
    else if opcode == op_jump_if || opcode == op_jump
    then decomp_jump
    else decomp_opcode

-- The loop of `instr_decompile`, whose only state is `ip`: after 65536 rounds it comes again.
unfoldable pub decompile_loop : ℕ → ℕ → F (Unit {0})
decompile_loop zero ip = stops never_ends
decompile_loop (suc n) ip = do
  word ← fetch16ubits ip
  opcode ← get_code_field word
  if ltb opcode max_instruction_count
      then (do
        size ← decompile_table opcode word ip
        if opcode == 0 || opcode == op_exit then pure tt else decompile_loop n (u16 (ip + size)))
      else pure tt

-- `%02x` of a 16 bit number.
abbrev pub two_digits : ℕ → List ℕ
two_digits n = if ltb n 16 then b'0' ∷ low_hex_digit n ∷ [] else unsigned_text 16 n

unfoldable pub print_flags : ℕ → F (Unit {0})
print_flags flags = do
  print (codes "  flags (" ++ two_digits flags ++ codes "):")
  print (if bit_and flags ef_immediate == 0 then [] else codes " immediate,")
  print (if bit_and flags ef_machine_code == 0 then [] else codes " machine_code,")
  print (if bit_and flags ef_hidden == 0 then [] else codes " hidden,")
  print (if bit_and flags ef_compile_only == 0 then [] else codes " compile time only,")
  print (b'\n' ∷ [])

-- `%d` of an `int8_t`.
abbrev pub count_text : ℕ → List ℕ
count_text count =
    if ltb count 128 then unsigned_text 10 count else b'-' ∷ unsigned_text 10 (256 - count)

-- The lines on the header. The loop over the name has a signed index, so that a negative count prints
-- nothing.
unfoldable pub print_header : ℕ → F (Unit {0})
print_header xt = do
  count ← read_at (xt + de_name)
  print (codes "name: ")
  print_characters (if ltb count 128 then count else 0) (xt + de_name + 1)
  print (codes " (" ++ count_text count ++ codes " characters)\n")
  previous ← fetch16ubits xt
  print (codes "  previous: " ++ unsigned_text 10 previous ++ b'\n' ∷ [])
  code_field ← get_code_field xt
  print (codes "  code_field: " ++ unsigned_text 10 code_field ++ b'\n' ∷ [])
  does_code ← fetch16ubits (xt + de_does_code)
  print (codes "  does_code:  " ++ unsigned_text 10 does_code ++ b'\n' ∷ [])
  flags ← fetch16ubits (xt + de_flags)
  print_flags flags

-- Where the code of a word stands, or 0.
unfoldable pub code_address : ℕ → F ℕ
code_address xt = do
  code_field ← get_code_field xt
  if code_field == op_enter
      then get_parameter_field xt
      else if code_field == op_does_enter
      then fetch16ubits (xt + de_does_code)
      else pure 0

unfoldable pub instr_decompile : ℕ → F ℕ
instr_decompile dict_entry = unless_empty on_data dict_entry (do
  xt ← pop_cell on_data
  print_header xt
  ip ← code_address xt
  if ip == 0 then print (codes "Internal function\n") else decompile_loop ff_memory_size ip
  next 2)
