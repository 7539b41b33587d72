-- ===== src/Toolchain/HexLoading.antt =====
-- The hex output of `fa.c` as a whole: bytes pushed one by one, flushed and ended, are in the memory
-- that `load_hex` of `fpemu.c` makes of the file.
use fprcade.Common.{
  ℕ, ◌≡◌, ◌+◌, ◌≤◌, ◌<◌, arith, List, [], ◌∷◌, ◌++◌, length, ltb, refl, ap, ◌∙◌, true, false,
  Bool-cases, inl, inr,
}
use fprcade.Assembler.Hex.{
  HexWriter, hex_push_byte, hex_flush, hex_write_data_bytes, hex_write_end_of_file, end_record,
}
use fprcade.Assembler.Directives.{push_bytes}
use fprcade.Emulator.State.{Memory, memory_size}
use fprcade.Emulator.Stacks.{store}
use fprcade.Emulator.Loader.{Line, loaded, load_record, load_hex, hex_get_byte, nibble}
use fprcade.Toolchain.HexRecords.{AllBytes, write}
use fprcade.Toolchain.HexBuffer.{Represents, hex_push_byte-Represents, next_position, loads_more}

-- Bytes pushed one after the other are stored one after the other.
push_bytes-Represents :
    (start : Memory) (bytes : List ℕ) (a : ℕ) (h : HexWriter) (memory : Memory)
    → Represents start h memory
    → AllBytes bytes
    → h.current_address + h.current_byte ≡ a
    → a + length bytes ≤ memory_size
    → Represents start (push_bytes bytes h) (write a bytes memory)
unfolding push_bytes
push_bytes-Represents start [] a h memory r bs e fits = r
push_bytes-Represents start (b ∷ []) a h memory r bs e fits =
    rw e at (hex_push_byte-Represents start b h memory r bs.0 (omega arith))
push_bytes-Represents start (b ∷ (x ∷ bytes)) a h memory r bs e fits =
    push_bytes-Represents start (x ∷ bytes) (a + 1) (hex_push_byte b h) (store memory a b)
      (rw e at (hex_push_byte-Represents start b h memory r bs.0 (omega arith))) bs.1
      (next_position start b h memory r bs.0 (omega arith) (omega arith) ∙ ap (λ (n : ℕ). n + 1) e)
      (omega arith)

-- A flush writes what waits, as one record.
hex_flush-loads :
    (start : Memory) (h : HexWriter) (memory : Memory) (more : List Line)
    → Represents start h memory
    → load_hex ((hex_flush h).outpf ++ more) start ≡ load_hex more memory
unfolding hex_flush hex_write_data_bytes
hex_flush-loads start h memory more r = elim (Bool-cases (ltb 0 h.current_byte)) [
  | inl e ↦ rw e (
      loads_more start h memory r h.byte_buffer h.current_byte (omega (arith, r.room, r.size))
        (omega (arith, r.room)) r.bytes r.within more
      ∙ rw r.pending refl)
  | inr e ↦ rw e (r.loads more ∙ ap (λ (m : Memory). load_hex more m) (empty e))
]
  where
    empty : ltb 0 h.current_byte ≡ false → r.written ≡ memory
    empty e = let z : h.current_byte ≡ 0 = ground arith in rw z at r.pending

load_hex-end_record : (memory : Memory) → load_hex (end_record ∷ []) memory ≡ loaded true memory
unfolding load_hex end_record load_record hex_get_byte nibble
load_hex-end_record memory = refl

-- A fresh writer, as at the start of a pass, or after `.org`.
abbrev pub fresh : List ℕ → ℕ → HexWriter
fresh buffer a = record {
  byte_buffer = buffer;
  current_address = a;
  current_byte = 0;
  bytes_written = 0;
  outpf = [];
}

-- The file that FAsm writes with a buffer of 16 cells for a run of bytes that fits the memory from
-- an address on, with its end record, is loaded by FPEmu with success, and puts exactly those bytes
-- into the memory, from that address on.
pub load_hex-push_bytes :
    (buffer : List ℕ) (a : ℕ) (bytes : List ℕ) (memory : Memory)
    → length buffer ≡ 16
    → a < memory_size
    → AllBytes bytes
    → a + length bytes ≤ memory_size
    → load_hex (hex_write_end_of_file (hex_flush (push_bytes bytes (fresh buffer a)))).outpf memory
      ≡ loaded true (write a bytes memory)
unfolding hex_write_end_of_file
load_hex-push_bytes buffer a bytes memory size small bs fits =
    hex_flush-loads memory (push_bytes bytes (fresh buffer a)) (write a bytes memory)
      (end_record ∷ []) r
    ∙ load_hex-end_record (write a bytes memory)
  where
    r : Represents memory (push_bytes bytes (fresh buffer a)) (write a bytes memory)
    r =
        push_bytes-Represents memory bytes a (fresh buffer a) memory
          (record {
            written = memory;
            loads = λ more. refl;
            pending = refl;
            room = omega arith;
            size = size;
            bytes = tt;
            address = small;
            within = omega arith;
          })
          bs (omega arith) fits
