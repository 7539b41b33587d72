-- ===== src/Toolchain/HexRecords.antt =====
-- One record of the hex format: what `hex_write_data_bytes` of `fa.c` writes is what `load_hex` of
-- `fpemu.c` puts into the memory.
use fprcade.Common.{
  ℕ, zero, suc, ◌≡◌, ◌+◌, ◌*◌, ◌/◌, ◌%◌, ◌≤◌, ◌<◌, arith, List, [], ◌∷◌, ◌++◌, length, get_or, take,
  length-append, length-take, u16, ltb, leb, ◌&&◌, refl, ◌<<<◌, ◌∙◌, true,
}
use mathlib.Core.Path.{subst}
use mathlib.Core.List.{append_assoc}
use native.Mathlib.Nat.{add_assoc, add-zero}
use fprcade.Assembler.Text.{Text}
use fprcade.Assembler.Hex.{hex_digit, hex_byte, hex_word, data_text, record_text, record_checksum}
use fprcade.Emulator.State.{Memory, memory_size}
use fprcade.Emulator.Stacks.{store}
use fprcade.Emulator.Loader.{Line, nibble, hex_get_byte, Loaded, load_bytes, load_record}

-- Every element is a byte.
abbrev pub AllBytes : List ℕ → Type 0
AllBytes [] = Unit
AllBytes (b ∷ bytes) = (b < 256) × AllBytes bytes

-- The memory with the bytes stored from an address on.
abbrev pub write : ℕ → List ℕ → Memory → Memory
write a [] memory = memory
write a (b ∷ bytes) memory = write (a + 1) bytes (store memory a b)

nibble-hex_digit : (d : ℕ) → d < 16 → nibble (hex_digit d) ≡ d
unfolding nibble
nibble-hex_digit d h = ground arith

get_or-append :
    (pre : List ℕ) (x : ℕ) (rest : List ℕ) (n : ℕ)
    → length pre ≡ n
    → get_or (pre ++ x ∷ rest) n 0 ≡ x
get_or-append [] x rest zero h = refl
get_or-append [] x rest (suc n) h = absurd (omega arith)
get_or-append (y ∷ pre) x rest zero h = absurd (omega arith)
get_or-append (y ∷ pre) x rest (suc n) h = get_or-append pre x rest n (omega arith)

get_or-append_next :
    (pre : List ℕ) (x y : ℕ) (rest : List ℕ) (n : ℕ)
    → length pre ≡ n
    → get_or (pre ++ x ∷ (y ∷ rest)) (n + 1) 0 ≡ y
get_or-append_next pre x y rest n h =
    rw (← append_assoc pre (x ∷ []) (y ∷ rest))
      (get_or-append (pre ++ x ∷ []) y rest (n + 1) (omega (arith, length-append pre (x ∷ []))))

-- The two digits of a byte, wherever they stand in a line.
hex_get_byte-hex_byte :
    (pre : List ℕ) (b : ℕ) (rest : List ℕ) (n : ℕ)
    → b < 256
    → length pre ≡ n
    → hex_get_byte (pre ++ (hex_byte b ++ rest)) n ≡ b
unfolding hex_get_byte
hex_get_byte-hex_byte pre b rest n h k =
    rw
      (
        get_or-append pre (hex_digit (b / 16)) (hex_digit (b % 16) ∷ rest) n k,
        get_or-append_next pre (hex_digit (b / 16)) (hex_digit (b % 16)) rest n k,
        nibble-hex_digit (b / 16) (omega arith),
        nibble-hex_digit (b % 16) (omega arith),
      )
      (omega arith)

length-data_text : (bytes : List ℕ) → length (data_text bytes) ≡ 2 * length bytes
unfolding data_text
length-data_text [] = omega arith
length-data_text (b ∷ bytes) = omega (arith, length-data_text bytes)

load_bytes-data_text :
    (bytes : List ℕ) (i : ℕ) (pre tail line : Line) (location : ℕ) (memory : Memory)
    (rest : Memory → Loaded)
    → line ≡ pre ++ (data_text bytes ++ tail)
    → length pre ≡ 9 + 2 * i
    → AllBytes bytes
    → location + i + length bytes ≤ memory_size
    → load_bytes (length bytes) i line location memory rest
      ≡ rest (write (location + i) bytes memory)
unfolding load_bytes data_text
load_bytes-data_text [] i pre tail line location memory rest e n h k = refl
load_bytes-data_text (b ∷ bytes) i pre tail line location memory rest e n h k =
    let byte : hex_get_byte line (9 + 2 * i) ≡ b =
      rw e (hex_get_byte-hex_byte pre b (data_text bytes ++ tail) (9 + 2 * i) h.0 n) in
    let long : 10 + 2 * i ≤ length line =
      rw e (omega (arith, length-append pre (hex_byte b ++ (data_text bytes ++ tail)))) in
    let test : (ltb (location + i) memory_size && leb (10 + 2 * i) (length line)) ≡ true =
      ground arith in
    rw (test, byte)
      (load_bytes-data_text bytes (i + 1) (pre ++ hex_byte b) tail line location
          (store memory (location + i) b) rest
          (rw (append_assoc pre (hex_byte b) (data_text bytes ++ tail)) e)
          (omega (arith, length-append pre (hex_byte b))) h.1 (omega arith)
        ∙ rw (add_assoc) refl)

-- The header of a record as FAsm writes it: nine characters, and then the data.
header : ℕ → ℕ → Text
header address n = b':' ∷ (hex_byte n ++ (hex_word address ++ hex_byte 0))

-- The end of a record.
trailer : ℕ → ℕ → List ℕ → Text
trailer address n bytes = hex_byte (record_checksum address n bytes) ++ 10 ∷ []

record_text-eq-append :
    (address : ℕ) (bytes : List ℕ) (n : ℕ)
    → record_text address bytes n
      ≡ header address n ++ (data_text (take n bytes) ++ trailer address n (take n bytes))
unfolding record_text header trailer
record_text-eq-append address bytes n = refl

-- A record that FAsm writes, loaded by FPEmu: exactly its data is stored, from its address on, and the
-- loading goes on with the next line.
pub load_record-record_text :
    (address : ℕ) (bytes : List ℕ) (n : ℕ) (memory : Memory) (rest : Memory → Loaded)
    → n ≤ length bytes
    → n < 256
    → AllBytes (take n bytes)
    → address + n ≤ memory_size
    → address < memory_size
    → load_record (record_text address bytes n) memory rest
      ≡ rest (write address (take n bytes) memory)
unfolding load_record record_text trailer
load_record-record_text address bytes n memory rest p q bs fits small =
    let count : hex_get_byte line 1 ≡ n =
      hex_get_byte-hex_byte (b':' ∷ []) n (hex_word address ++ (hex_byte 0 ++ after)) 1 q refl in
    let high : hex_get_byte line 3 ≡ address / 256 =
      hex_get_byte-hex_byte (b':' ∷ hex_byte n) (address / 256)
        (hex_byte (address % 256) ++ (hex_byte 0 ++ after)) 3 (omega arith) refl in
    let low : hex_get_byte line 5 ≡ address % 256 =
      hex_get_byte-hex_byte (b':' ∷ (hex_byte n ++ hex_byte (address / 256))) (address % 256)
        (hex_byte 0 ++ after) 5 (omega arith) refl in
    let type : hex_get_byte line 7 ≡ 0 =
      hex_get_byte-hex_byte (b':' ∷ (hex_byte n ++ hex_word address)) 0 after 7 (omega arith)
        refl in
    let location : u16 (u16 ((address / 256) <<< 8) + address % 256) ≡ address = omega arith in
    rw (count, high, low, type, location) body
  where
    line : Line
    line = record_text address bytes n

    after : Line
    after = data_text (take n bytes) ++ trailer address n (take n bytes)

    body : load_bytes n 0 line address memory rest ≡ rest (write address (take n bytes) memory)
    body =
        subst
          (λ k.
            load_bytes k 0 line address memory rest ≡ rest (write address (take n bytes) memory))
          (length-take n bytes p)
          (load_bytes-data_text (take n bytes) 0 (header address n)
              (trailer address n (take n bytes)) line address memory rest
              (record_text-eq-append address bytes n) (unfold header in refl) bs
              (omega (arith, length-take n bytes p))
            ∙ rw (add-zero) refl)

pub length-record_text :
    (address : ℕ) (bytes : List ℕ) (n : ℕ)
    → n ≤ length bytes
    → length (record_text address bytes n) ≡ 12 + 2 * n
unfolding record_text
length-record_text address bytes n h = omega (
  arith,
  length-append (data_text (take n bytes))
      (hex_byte (record_checksum address n (take n bytes)) ++ 10 ∷ []),
  length-data_text (take n bytes),
  length-take n bytes h,
)
