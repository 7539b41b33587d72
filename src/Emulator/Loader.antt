-- ===== src/Emulator/Loader.antt =====
-- FPEmu, `fpemu.c`: `hex_get_byte` and `load_hex`. The file is the list of the lines that `fgets`
-- returns.
use fprcade.Common.{
  ℕ, zero, suc, Bool, true, false, ◌==◌, ◌&&◌, leb, ltb, if◌then◌else◌, List, [], ◌∷◌, ◌+◌, ◌-◌,
  ◌*◌, u8, u16, get_or, length, ◌<<<◌,
}
use fprcade.Emulator.State.{Memory, memory_size}
use fprcade.Emulator.Stacks.{store}

abbrev pub Line : Type 0
Line = List ℕ

-- The value of a hex digit; nothing checks that it is one. A `char` has a sign, so a code of 128 or more
-- is less than '9'.
unfoldable pub nibble : ℕ → ℕ
nibble c = u8 (if ltb b'9' c && ltb c 128 then c + 256 - b'A' + 10 else c + 256 - b'0')

unfoldable pub hex_get_byte : Line → ℕ → ℕ
unfolding nibble
hex_get_byte line n = u8 (nibble (get_or line n 0) * 16 + nibble (get_or line (n + 1) 0))

-- `load_fault` is a write past the end of the memory, or a read past the NUL of the line, where the
-- buffer holds what an earlier line left.
pub data Loaded : Type 0 where
  loaded : Bool → Memory → Loaded
  load_fault : Loaded

-- The loop over the data of a record: the count left and the index.
unfoldable pub load_bytes : ℕ → ℕ → Line → ℕ → Memory → (Memory → Loaded) → Loaded
unfolding hex_get_byte
load_bytes zero i line location memory rest = rest memory
load_bytes (suc left) i line location memory rest =
    let next =
      load_bytes left (i + 1) line location
        (store memory (location + i) (hex_get_byte line (9 + 2 * i))) rest in
    if ltb (location + i) memory_size && leb (10 + 2 * i) (length line) then next else load_fault

-- One record: its location and type, and what follows it. Neither checksum nor length is checked.
unfoldable pub load_record : Line → Memory → (Memory → Loaded) → Loaded
unfolding load_bytes hex_get_byte
load_record line memory rest =
    let count = hex_get_byte line 1 in
    let location = u16 (u16 (hex_get_byte line 3 <<< 8) + hex_get_byte line 5) in
    let type = hex_get_byte line 7 in
    if type == 0
    then load_bytes count 0 line location memory rest
    else if type == 1
    then loaded true memory
    else rest memory

unfoldable pub load_hex : List Line → Memory → Loaded
unfolding load_record
load_hex [] memory = loaded true memory
load_hex (line ∷ lines) memory =
    let rest = λ (m : Memory). load_hex lines m in
    if get_or line 0 0 == b':'
    then (if ltb (length line) 11 then loaded false memory else load_record line memory rest)
    else load_hex lines memory
