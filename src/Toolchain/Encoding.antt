-- ===== src/Toolchain/Encoding.antt =====
-- The encodings of BIF and ENTER: the generators of `fa.c` against the decoding in `fpemu.c` and
-- `fdisa.c`.
use fprcade.Common.{
  ℕ, ◌≡◌, ◌+◌, ◌*◌, ◌/◌, ◌%◌, ◌≤◌, ◌<◌, bit_and, arith, ◌==◌, if◌then◌else◌, sub16, neg_ℤ, ◌⊎◌,
  refl,
}
use mathlib.Core.Logic.{◌↔◌}
use fprcade.Common.Bits.{and_ones, and_field, or_fields, or_comm}
use fprcade.Assembler.Generators.{bif_code, enter_code}
use fprcade.Emulator.Flow.{bif_offset, bif_target, enter_address}
use fprcade.Disassembler.{new_address}

pub bif_code-eq-add :
    (location address : ℕ) → bif_code location address ≡ 4096 + sub16 location address % 4096
unfolding bif_code
bif_code-eq-add location address =
    rw (and_ones 12 (sub16 location address))
      (or_fields 12 1 (sub16 location address % 4096) (omega arith))

-- The sign extension as arithmetic.
bif_offset-eq-if :
    (instr : ℕ)
    → bif_offset instr ≡ (if instr % 4096 / 2048 == 0 then instr % 4096 else 61440 + instr % 4096)
unfolding bif_offset
bif_offset-eq-if instr = ground (
  arith,
  and_ones 12 instr,
  and_field 11 1 (instr % 4096),
  or_comm (instr % 4096) 61440,
  or_fields 12 15 (instr % 4096),
)

pub bif_target-eq-add :
    (instr pc : ℕ)
    → bif_target instr pc ≡ (
        if instr % 4096 / 2048 == 0
        then (pc + instr % 4096) % 65536
        else (pc + 61440 + instr % 4096) % 65536)
unfolding bif_target neg_ℤ
bif_target-eq-add instr pc = rw (bif_offset-eq-if instr) (ground arith)

-- The distance of a branch fits the twelve bits of BIF: -2048 to 2047.
abbrev pub InReach : ℕ → ℕ → Type 0
InReach location address = (sub16 location address < 2048) ⊎ (63488 ≤ sub16 location address)

-- For a 16 bit label and address: a BIF that FAsm assembles at the address branches in FPEmu to the
-- label exactly when the distance fits the twelve bits, and FDisassem shows the address to which it
-- branches.
pub bif_target-bif_code :
    (location address : ℕ)
    → location < 65536
    → address < 65536
    → ((bif_target (bif_code location address) address ≡ location) ↔ InReach location address)
      × (new_address (bif_code location address) address
          ≡ bif_target (bif_code location address) address)
unfolding new_address bif_target bif_offset
bif_target-bif_code location address p q = (
  ground (
    arith,
    bif_code-eq-add location address,
    bif_target-eq-add (bif_code location address) address,
  ),
  refl,
)

pub enter_code-eq-add : (location : ℕ) → enter_code location ≡ 16384 + location / 4 % 16384
unfolding enter_code
enter_code-eq-add location =
    rw (and_ones 14 (location / 4)) (or_fields 14 1 (location / 4 % 16384) (omega arith))

pub group-eq-div : (instr : ℕ) → bit_and instr 0xF000 ≡ instr / 4096 % 16 * 4096
group-eq-div instr = and_field 12 4 instr

pub enter_address-enter_code :
    (location : ℕ)
    → location < 65536
    → location % 4 ≡ 0
    → enter_address (enter_code location) ≡ location
unfolding enter_address
enter_address-enter_code location p q =
    ground (arith, enter_code-eq-add location, and_ones 14 (enter_code location))
