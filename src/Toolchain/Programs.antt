-- ===== src/Toolchain/Programs.antt =====
-- A program from the assembler's generators through the file and the memory to the fetch.
use fprcade.Common.{
  ℕ, zero, suc, ◌≡◌, ◌<◌, ◌≤◌, ◌+◌, ◌*◌, ◌/◌, ◌%◌, arith, true, ◌==◌, if◌then◌else◌, List, [], ◌∷◌,
  refl, length, get_or, u8, ◌∙◌,
}
use fprcade.Emulator.Stacks.{store}
use fprcade.Common.Bits.{and_ones}
use fprcade.Assembler.Hex.{HexWriter, hex_push_byte, hex_flush, hex_write_end_of_file}
use fprcade.Assembler.Generators.{emit_code}
use fprcade.Assembler.Directives.{push_bytes}
use fprcade.Emulator.State.{ok, fault, Memory, memory_size, memory_array}
use fprcade.Emulator.Loader.{load_hex, loaded}
use fprcade.Emulator.Run.{fetch_instruction}
use fprcade.Emulator.RunLaws.{fetch_instruction_lem}
use fprcade.Toolchain.HexRecords.{write, AllBytes}
use fprcade.Toolchain.HexLoading.{fresh, load_hex-push_bytes}

-- The bytes of a program in the order in which they are written: of each instruction the low one first.
abbrev pub code_bytes : List ℕ → List ℕ
code_bytes [] = []
code_bytes (instr ∷ program) = instr % 256 ∷ (instr / 256 ∷ code_bytes program)

-- Each instruction has sixteen bits.
abbrev pub AllWords : List ℕ → Type 0
AllWords [] = Unit
AllWords (instr ∷ program) = (instr < 65536) × AllWords program

-- The instructions emitted one after the other.
abbrev pub emit_codes : List ℕ → HexWriter → HexWriter
emit_codes [] h = h
emit_codes (instr ∷ program) h = emit_codes program (emit_code instr h)

emit_code-eq-hex_push_byte :
    (instr : ℕ) (h : HexWriter)
    → instr < 65536
    → emit_code instr h ≡ hex_push_byte (instr / 256) (hex_push_byte (instr % 256) h)
unfolding emit_code
emit_code-eq-hex_push_byte instr h p =
    let e : u8 (instr / 256) ≡ instr / 256 = omega arith in rw (e, and_ones 8 instr) refl

emit_codes-eq-push_bytes :
    (program : List ℕ) (h : HexWriter)
    → AllWords program
    → emit_codes program h ≡ push_bytes (code_bytes program) h
unfolding push_bytes
emit_codes-eq-push_bytes [] h p = refl
emit_codes-eq-push_bytes (instr ∷ program) h p =
    rw (emit_code-eq-hex_push_byte instr h p.0) (emit_codes-eq-push_bytes program _ p.1)

code_bytes-AllBytes : (program : List ℕ) → AllWords program → AllBytes (code_bytes program)
code_bytes-AllBytes [] p = tt
code_bytes-AllBytes (instr ∷ program) p =
    (omega arith, (omega (arith, p.0), code_bytes-AllBytes program p.1))

length-code_bytes : (program : List ℕ) → length (code_bytes program) ≡ 2 * length program
length-code_bytes [] = omega arith
length-code_bytes (instr ∷ program) = omega (arith, length-code_bytes program)

-- What stands below the address is kept.
write_below :
    (a : ℕ) (bytes : List ℕ) (memory : Memory) (i : ℕ) → i < a → write a bytes memory i ≡ memory i
write_below a [] memory i h = refl
write_below a (b ∷ bytes) memory i h =
    let e : store memory a b i ≡ memory i = ground arith in
    write_below (a + 1) bytes (store memory a b) i (omega arith) ∙ e

-- The instruction with the number k of a program in the memory.
fetch_instruction-write :
    (program : List ℕ) (k a : ℕ) (memory : Memory)
    → AllWords program
    → k < length program
    → a + 2 * length program ≤ memory_size
    → fetch_instruction (write a (code_bytes program) memory) (a + 2 * k) ≡ ok (get_or program k 0)
fetch_instruction-write [] k a memory p q r = absurd (omega arith)
fetch_instruction-write (instr ∷ program) (suc k) a memory p q r =
    let e : a + 1 + 1 + 2 * k ≡ a + 2 * suc k = omega arith in
    rw e at (
      fetch_instruction-write program k (a + 1 + 1)
        (store (store memory a (instr % 256)) (a + 1) (instr / 256)) p.1 (omega arith)
        (omega arith))
fetch_instruction-write (instr ∷ program) zero a memory p q r =
    fetch_instruction_lem written (a + 2 * 0) (omega arith) (rw low (omega arith))
      (rw high (omega (arith, p.0)))
    ∙ value
  where
    before : Memory
    before = store (store memory a (instr % 256)) (a + 1) (instr / 256)

    written : Memory
    written = write (a + 1 + 1) (code_bytes program) before

    low : written (a + 2 * 0) ≡ instr % 256
    low =
        write_below (a + 1 + 1) (code_bytes program) before (a + 2 * 0) (omega arith) ∙ ground arith

    high : written (a + 2 * 0 + 1) ≡ instr / 256
    high =
        write_below (a + 1 + 1) (code_bytes program) before (a + 2 * 0 + 1) (omega arith)
        ∙ ground arith

    value :
        (if a + 2 * 0 == 65535
          then fault memory_array
          else ok (written (a + 2 * 0) + 256 * written (a + 2 * 0 + 1)))
        ≡ ok instr
    value = ground (arith, low, high)

-- The 16 bit instructions that FAsm emits, with a buffer of 16 cells, from an address on from which
-- they fit the memory, in a file of their own, are in FPEmu's memory after the file is loaded, and
-- each is what the processor fetches at its address.
pub fetch_instruction-emit_codes :
    (buffer program : List ℕ) (k a : ℕ) (memory : Memory)
    → length buffer ≡ 16
    → AllWords program
    → k < length program
    → a + 2 * length program ≤ memory_size
    → (memory' : Memory) × (load_hex
          (hex_write_end_of_file (hex_flush (emit_codes program (fresh buffer a)))).outpf
          memory
        ≡ loaded true memory')
      × (fetch_instruction memory' (a + 2 * k) ≡ ok (get_or program k 0))
fetch_instruction-emit_codes buffer program k a memory size p q r = (
  write a (code_bytes program) memory,
  rw (emit_codes-eq-push_bytes program (fresh buffer a) p) (
      load_hex-push_bytes buffer a (code_bytes program) memory size (omega arith)
        (code_bytes-AllBytes program p) (omega (arith, length-code_bytes program))),
  fetch_instruction-write program k a memory p q r,
)
