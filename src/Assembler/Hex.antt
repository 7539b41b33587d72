-- ===== src/Assembler/Hex.antt =====
-- FAsm, `fa.c`: the writer of the Intel hex output and its buffer. Each `fprintf` succeeds.
use fprcade.Common.{
  ℕ, ◌==◌, ltb, if◌then◌else◌, List, [], ◌∷◌, ◌++◌, ◌+◌, ◌-◌, ◌/◌, ◌%◌, ◌^◌, bit_and, u8, u16, set,
  take, codes, ◌>>>◌,
}
use fprcade.Assembler.Text.{Text}

abbrev pub hex_max_buffer_size : ℕ
hex_max_buffer_size = 16

-- The file level variables of the writer, and `outpf`: the lines written so far.
pub record HexWriter : Type 0 where
  pub byte_buffer : List ℕ
  pub current_address : ℕ
  pub current_byte : ℕ
  pub bytes_written : ℕ
  pub outpf : List Text

-- `%X` of one digit, `%02X` of a byte and `%04X` of a word.
abbrev pub hex_digit : ℕ → ℕ
hex_digit d = if ltb d 10 then b'0' + d else b'A' + (d - 10)

abbrev pub hex_byte : ℕ → Text
hex_byte b = hex_digit (b / 16) ∷ hex_digit (b % 16) ∷ []

abbrev pub hex_word : ℕ → Text
hex_word w = hex_byte (w / 256) ++ hex_byte (w % 256)

-- The loop over the data: their text, and the checksum.
unfoldable pub data_text : List ℕ → Text
data_text [] = []
data_text (b ∷ bytes) = hex_byte b ++ data_text bytes

unfoldable pub add_bytes : ℕ → List ℕ → ℕ
add_bytes checksum [] = checksum
add_bytes checksum (b ∷ bytes) = add_bytes (u8 (checksum + b)) bytes

-- `~(checksum) + 1` in `uint8_t`.
abbrev negated : ℕ → ℕ
negated checksum = u8 (256 - checksum)

unfoldable pub record_checksum : ℕ → ℕ → List ℕ → ℕ
unfolding add_bytes
record_checksum address n bytes =
    negated (add_bytes (u8 (u8 (u8 n + u8 (bit_and address 0xFF)) + u8 (address >>> 8))) bytes)

-- One record, for the first n bytes.
unfoldable pub record_text : ℕ → List ℕ → ℕ → Text
unfolding data_text record_checksum
record_text address bytes n =
    b':'
    ∷ (hex_byte n
        ++ (hex_word address
            ++ (hex_byte 0
                ++ (data_text (take n bytes)
                    ++ (hex_byte (record_checksum address n (take n bytes)) ++ 10 ∷ [])))))

unfoldable pub hex_write_data_bytes : ℕ → List ℕ → ℕ → HexWriter → HexWriter
hex_write_data_bytes address bytes n h = record h {
  bytes_written = (h.bytes_written + n) % 2 ^ 32;
  outpf = h.outpf ++ record_text address bytes n ∷ [];
}

-- ":00000001FF\n".
unfoldable pub end_record : Text
end_record = codes ":00000001FF" ++ 10 ∷ []

unfoldable pub hex_write_end_of_file : HexWriter → HexWriter
unfolding end_record
hex_write_end_of_file h = record h { outpf = h.outpf ++ end_record ∷ [] }

unfoldable pub hex_set_start_address : ℕ → HexWriter → HexWriter
hex_set_start_address address h = record h { current_address = u16 address; current_byte = 0 }

unfoldable pub hex_push_byte : ℕ → HexWriter → HexWriter
hex_push_byte byte h =
    let buffer = set h.byte_buffer h.current_byte (u8 byte) in
    let h' = record h { byte_buffer = buffer; current_byte = u8 (h.current_byte + 1) } in
    if h'.current_byte == hex_max_buffer_size
    then record (hex_write_data_bytes h.current_address buffer hex_max_buffer_size h') {
      current_address = u16 (h.current_address + hex_max_buffer_size);
      current_byte = 0;
    }
    else h'

unfoldable pub hex_flush : HexWriter → HexWriter
hex_flush h =
    if ltb 0 h.current_byte
    then record (hex_write_data_bytes h.current_address h.byte_buffer h.current_byte h) {
      current_address = u16 (h.current_address + h.current_byte);
      current_byte = 0;
    }
    else h
