-- ===== src/Disassembler/Bounds.antt =====
-- FDisassem, `fdisa.c`: the text fits the buffer that the callers hand to `disassemble`.
use Prim.Native.String.{String}
use fprcade.Common.{◌≤◌, length}
use fprcade.Assembler.Text.{Text}

-- At most twelve characters, so that with its NUL a text takes less than the 80 of the buffer.
data Short (t : Text) : Type 0 where
  short : length t ≤ 12 → Short t
