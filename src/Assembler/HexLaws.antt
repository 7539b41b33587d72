-- ===== src/Assembler/HexLaws.antt =====
-- FAsm, `fa.c`: the hex writer's buffer refines a log of bytes and addresses, and each record's
-- checksum is right.
use fprcade.Common.{ℕ, ◌≡◌, ◌+◌, ◌/◌, ◌%◌, ◌<◌, bit_and, arith, List, [], ◌∷◌, u8, ◌>>>◌}
use fprcade.Common.Bits.{and_ones}
use fprcade.Assembler.Hex.{add_bytes, record_checksum}

-- The sum of the bytes.
abbrev pub sum : List ℕ → ℕ
sum [] = 0
sum (b ∷ bytes) = b + sum bytes

add_bytes-eq-sum : (k : ℕ) (bytes : List ℕ) → k < 256 → add_bytes k bytes ≡ (k + sum bytes) % 256
unfolding add_bytes
add_bytes-eq-sum k [] h = omega arith
add_bytes-eq-sum k (b ∷ bytes) h = omega (arith, add_bytes-eq-sum (u8 (k + b)) bytes (omega arith))

-- For a 16 bit address, the bytes of a record, its checksum among them, add up to a multiple of 256:
-- the length, the two bytes of the address, the type, which is 0, and the data.
pub record_checksum-sum :
    (address n : ℕ) (bytes : List ℕ)
    → address < 65536
    → (n + address / 256 + address % 256 + sum bytes + record_checksum address n bytes) % 256 ≡ 0
unfolding record_checksum
record_checksum-sum address n bytes h = omega (
  arith,
  and_ones 8 address,
  add_bytes-eq-sum (u8 (u8 (u8 n + u8 (bit_and address 0xFF)) + u8 (address >>> 8))) bytes
      (omega arith),
)
