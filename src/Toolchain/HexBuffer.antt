-- ===== src/Toolchain/HexBuffer.antt =====
-- The hex writer's buffer in `fa.c`: what it has written and what it still holds, as the memory that
-- `load_hex` of `fpemu.c` makes of it.
use fprcade.Common.{
  ℕ, suc, ◌≡◌, ◌+◌, ◌%◌, ◌≤◌, ◌<◌, arith, List, [], ◌∷◌, ◌++◌, length, get_or, take, set, u8, u16,
  ltb, refl, ◌∙◌, Bool-cases, inl, inr, take-set, length-set, length-take, le→ltb,
}
use mathlib.Core.List.{append_assoc}
use native.Mathlib.Nat.{add-zero}
use fprcade.Assembler.Hex.{HexWriter, record_text, hex_push_byte, hex_write_data_bytes}
use fprcade.Emulator.State.{Memory, memory_size}
use fprcade.Emulator.Stacks.{store}
use fprcade.Emulator.Loader.{Line, load_hex}
use fprcade.Toolchain.HexRecords.{AllBytes, write, load_record-record_text, length-record_text}

write-append :
    (a : ℕ) (bytes : List ℕ) (b : ℕ) (memory : Memory)
    → write a (bytes ++ b ∷ []) memory ≡ store (write a bytes memory) (a + length bytes) b
write-append a [] b memory = rw add-zero refl
write-append a (x ∷ bytes) b memory =
    let e : a + 1 + length bytes ≡ a + suc (length bytes) = omega arith in
    rw (write-append (a + 1) bytes b (store memory a x), e) refl

AllBytes-append : (bytes : List ℕ) (b : ℕ) → AllBytes bytes → b < 256 → AllBytes (bytes ++ b ∷ [])
AllBytes-append [] b h k = (k, tt)
AllBytes-append (x ∷ bytes) b h k = (h.0, AllBytes-append bytes b h.1 k)

-- The lines written so far, loaded into `start`, and the bytes that wait in the buffer give `memory`.
pub record Represents (start : Memory) (h : HexWriter) (memory : Memory) : Type 0 where
  pub written : Memory
  pub loads : (more : List Line) → load_hex (h.outpf ++ more) start ≡ load_hex more written
  pub pending : write h.current_address (take h.current_byte h.byte_buffer) written ≡ memory
  pub room : h.current_byte < 16
  pub size : length h.byte_buffer ≡ 16
  pub bytes : AllBytes (take h.current_byte h.byte_buffer)
  pub address : h.current_address < memory_size
  pub within : h.current_address + h.current_byte ≤ memory_size

colon : (address : ℕ) (buffer : List ℕ) (n : ℕ) → get_or (record_text address buffer n) 0 0 ≡ b':'
unfolding record_text
colon address buffer n = refl

-- One more record.
load_hex-record_text :
    (address : ℕ) (buffer : List ℕ) (n : ℕ) (memory : Memory) (more : List Line)
    → n ≤ length buffer
    → n < 256
    → AllBytes (take n buffer)
    → address + n ≤ memory_size
    → address < memory_size
    → load_hex (record_text address buffer n ∷ more) memory
      ≡ load_hex more (write address (take n buffer) memory)
unfolding load_hex
load_hex-record_text address buffer n memory more p q bs fits small =
    rw
      (
        colon address buffer n,
        le→ltb (length (record_text address buffer n)) 11
            (omega (arith, length-record_text address buffer n p)),
      )
      (load_record-record_text address buffer n memory (λ m. load_hex more m) p q bs fits small)

-- What has been written, after one more record.
pub loads_more :
    (start : Memory) (h : HexWriter) (memory : Memory) (r : Represents start h memory)
    (buffer : List ℕ) (n : ℕ)
    → n ≤ length buffer
    → n < 256
    → AllBytes (take n buffer)
    → h.current_address + n ≤ memory_size
    → (more : List Line)
    → load_hex ((h.outpf ++ record_text h.current_address buffer n ∷ []) ++ more) start
      ≡ load_hex more (write h.current_address (take n buffer) r.written)
loads_more start h memory r buffer n p q bs fits more =
    rw (append_assoc h.outpf (record_text h.current_address buffer n ∷ []) more) (
      r.loads (record_text h.current_address buffer n ∷ more)
      ∙ load_hex-record_text h.current_address buffer n r.written more p q bs fits r.address)

-- The buffer after a byte is put in.
abbrev filled : ℕ → HexWriter → List ℕ
filled b h = set h.byte_buffer h.current_byte (u8 b)

-- The writer after a byte, where the buffer still has room and where it is then full.
hex_push_byte_room :
    (b : ℕ) (h : HexWriter)
    → h.current_byte < 15
    → hex_push_byte b h ≡ record h { byte_buffer = filled b h; current_byte = suc h.current_byte }
unfolding hex_push_byte
hex_push_byte_room b h e = ground arith

abbrev after_record : ℕ → HexWriter → HexWriter
after_record b h = record h {
  byte_buffer = filled b h;
  current_byte = 0;
  current_address = u16 (h.current_address + suc h.current_byte);
  bytes_written = (h.bytes_written + suc h.current_byte) % 4294967296;
  outpf = h.outpf ++ record_text h.current_address (filled b h) (suc h.current_byte) ∷ [];
}

hex_push_byte_full :
    (b : ℕ) (h : HexWriter) → h.current_byte ≡ 15 → hex_push_byte b h ≡ after_record b h
unfolding hex_push_byte hex_write_data_bytes
hex_push_byte_full b h e = ground arith

module _ (start : Memory) (b : ℕ) (h : HexWriter) (memory : Memory) (r : Represents start h memory)
    (byte : b < 256) (space : h.current_address + h.current_byte < memory_size) where
  filled_prefix :
      take (suc h.current_byte) (filled b h) ≡ take h.current_byte h.byte_buffer ++ b ∷ []
  filled_prefix =
      let e : u8 b ≡ b = omega arith in
      rw (take-set h.current_byte h.byte_buffer (u8 b) (omega (arith, r.room, r.size)), e) refl

  filled_bytes : AllBytes (take (suc h.current_byte) (filled b h))
  filled_bytes =
      rw filled_prefix (AllBytes-append (take h.current_byte h.byte_buffer) b r.bytes byte)

  filled_memory :
      write h.current_address (take (suc h.current_byte) (filled b h)) r.written
      ≡ store memory (h.current_address + h.current_byte) b
  filled_memory =
      rw
        (
          filled_prefix,
          write-append h.current_address (take h.current_byte h.byte_buffer) b r.written,
          r.pending,
          length-take h.current_byte h.byte_buffer (omega (arith, r.room, r.size)),
        )
        refl

  filled_size : length (filled b h) ≡ 16
  filled_size = rw (length-set h.byte_buffer h.current_byte (u8 b)) r.size

  push_full :
      h.current_byte ≡ 15
      → Represents start (hex_push_byte b h) (store memory (h.current_address + h.current_byte) b)
  push_full e = rw (hex_push_byte_full b h e) (record {
    written = write h.current_address (take (suc h.current_byte) (filled b h)) r.written;
    loads =
        loads_more start h memory r (filled b h) (suc h.current_byte) (omega (arith, filled_size))
          (omega arith) filled_bytes (omega arith);
    pending = filled_memory;
    room = omega arith;
    size = filled_size;
    bytes = tt;
    address = omega arith;
    within = omega arith;
  })

  push_room :
      h.current_byte < 15
      → Represents start (hex_push_byte b h) (store memory (h.current_address + h.current_byte) b)
  push_room e = rw (hex_push_byte_room b h e) (record {
    written = r.written;
    loads = r.loads;
    pending = filled_memory;
    room = omega arith;
    size = filled_size;
    bytes = filled_bytes;
    address = r.address;
    within = omega arith;
  })

  -- A byte pushed is the byte stored at the writer's position.
  pub hex_push_byte-Represents :
      Represents start (hex_push_byte b h) (store memory (h.current_address + h.current_byte) b)
  hex_push_byte-Represents = elim (Bool-cases (ltb h.current_byte 15)) [
    | inl e ↦ push_room (ground arith)
    | inr e ↦ push_full (ground (arith, r.room))
  ]

  -- The writer's position goes up by one.
  pub next_position :
      h.current_address + h.current_byte + 1 < memory_size
      → (hex_push_byte b h).current_address + (hex_push_byte b h).current_byte
        ≡ h.current_address + h.current_byte + 1
  next_position k = elim (Bool-cases (ltb h.current_byte 15)) [
    | inl e ↦ rw (hex_push_byte_room b h (ground arith)) (omega arith)
    | inr e ↦ rw (hex_push_byte_full b h (ground (arith, r.room))) (omega (arith, full))
  ]
    where
      full : h.current_byte < 16
      full = r.room
