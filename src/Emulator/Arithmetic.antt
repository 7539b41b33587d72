-- ===== src/Emulator/Arithmetic.antt =====
-- FPEmu, `run` of `fpemu.c`: the operators on the two top values of the data stack. `uint16_t`
-- operands are promoted to a 32 bit `int`, in which a product or a shift may not fit.
use fprcade.Common.{
  ℕ, ◌∷◌, Bool, true, false, not, ◌==◌, ltb, leb, if◌then◌else◌, ◌+◌, ◌*◌, ◌^◌, ◌/◌, ◌%◌, bit_and,
  bit_or, bit_xor, ℤ, pos, negsuc, ◌+ℤ◌, ◌*ℤ◌, ltb_ℤ, leb_ℤ, i16, to_u16, u16, ◌>>>◌,
}
use fprcade.Emulator.State.{
  M, pure, ◌>>=◌, ◌>>◌, fails, raise, advance, data_id, ok, illegal_instruction, int_overflow,
  shift_amount,
}
use fprcade.Emulator.Stacks.{push, pop}

-- A non-negative `int` result.
unfoldable pub int_result : ℕ → M ℕ
int_result n = if ltb n 0x8000_0000 then pure n else fails int_overflow

unfoldable pub exec_add : Bool → M (Unit {0})
unfolding ◌+ℤ◌
exec_add is_signed = do
  v1 ← pop data_id
  v2 ← pop data_id
  push data_id (if is_signed then to_u16 (i16 v1 +ℤ i16 v2) else u16 (v1 + v2))

-- The product of two `int16_t` always fits an `int`; that of two `uint16_t` may not.
unfoldable pub exec_mul : Bool → M (Unit {0})
unfolding ◌*ℤ◌ int_result
exec_mul is_signed = do
  v1 ← pop data_id
  v2 ← pop data_id
  r ← if is_signed then pure (to_u16 (i16 v1 *ℤ i16 v2)) else int_result (v1 * v2)
  push data_id r

abbrev pub truth : Bool → ℕ
truth b = if b then 0xFFFF else 0x0000

unfoldable pub exec_eq : M (Unit {0})
exec_eq = do n1 ← pop data_id; n2 ← pop data_id; push data_id (truth (n2 == n1))

-- `>>` of an `int`, which gcc does arithmetically.
unfoldable pub asr_ℤ : ℤ → ℕ → ℤ
asr_ℤ (pos n) k = pos (n / 2 ^ k)
asr_ℤ (negsuc n) k = negsuc (n / 2 ^ k)

unfoldable pub asr_value : ℤ → ℤ → M ℕ
unfolding asr_ℤ
asr_value s2 (negsuc k) = fails shift_amount
asr_value s2 (pos k) = if ltb k 32 then pure (to_u16 (asr_ℤ s2 k)) else fails shift_amount

unfoldable pub exec_asr : Bool → M (Unit {0})
unfolding asr_value raise
exec_asr true = do
  v1 ← pop data_id
  v2 ← pop data_id
  r ← asr_value (i16 v2) (i16 v1)
  push data_id r
exec_asr false = raise illegal_instruction

-- The four comparisons differ in the test; each has a signed and an unsigned form.
unfoldable pub exec_lt : Bool → M (Unit {0})
exec_lt is_signed = do
  v1 ← pop data_id
  v2 ← pop data_id
  push data_id (truth (if is_signed then ltb_ℤ (i16 v2) (i16 v1) else ltb v2 v1))

unfoldable pub exec_gt : Bool → M (Unit {0})
exec_gt is_signed = do
  v1 ← pop data_id
  v2 ← pop data_id
  push data_id (truth (if is_signed then ltb_ℤ (i16 v1) (i16 v2) else ltb v1 v2))

unfoldable pub exec_lte : Bool → M (Unit {0})
exec_lte is_signed = do
  v1 ← pop data_id
  v2 ← pop data_id
  push data_id (truth (if is_signed then leb_ℤ (i16 v2) (i16 v1) else leb v2 v1))

unfoldable pub exec_gte : Bool → M (Unit {0})
exec_gte is_signed = do
  v1 ← pop data_id
  v2 ← pop data_id
  push data_id (truth (if is_signed then leb_ℤ (i16 v1) (i16 v2) else leb v1 v2))

-- Function code 9, `n2 << n1`.
unfoldable pub exec_shift_left : M (Unit {0})
unfolding int_result
exec_shift_left = do
  n1 ← pop data_id
  n2 ← pop data_id
  r ← if ltb n1 32 then int_result (n2 * 2 ^ n1) else fails shift_amount
  push data_id r

-- Function code 10, `n2 >> n1`.
unfoldable pub exec_shift_right : M (Unit {0})
exec_shift_right = do
  n1 ← pop data_id
  n2 ← pop data_id
  r ← if ltb n1 32 then pure (n2 / 2 ^ n1) else fails shift_amount
  push data_id r

-- `write(c->fd_out, buffer, 1)`.
unfoldable pub write_byte : ℕ → M (Unit {0})
write_byte n c = ok (tt, record c { output = (n % 256) ∷ c.output })

-- What is stored where: only a byte, to port 0, is implemented.
unfoldable pub sto_action : ℕ → ℕ → ℕ → M (Unit {0})
unfolding write_byte raise
sto_action instr address n =
    if bit_and instr 0x40 == 0
    then raise illegal_instruction
    else if bit_and instr 0x03 == 1
    then (if address == 0 then write_byte n else pure tt)
    else raise illegal_instruction

unfoldable pub exec_sto : ℕ → M (Unit {0})
unfolding sto_action
exec_sto instr = do n ← pop data_id; address ← pop data_id; sto_action instr address n

unfoldable pub exec_bitwise : (ℕ → ℕ → ℕ) → M (Unit {0})
exec_bitwise op = do n1 ← pop data_id; n2 ← pop data_id; push data_id (op n2 n1)

-- The inner `switch`.
unfoldable pub binary_function : ℕ → ℕ → M (Unit {0})
unfolding raise
binary_function func instr =
    let is_signed = not (bit_and instr 0x0010 == 0) in
    if func == 0x00
    then exec_add is_signed
    else if func == 0x01
    then exec_mul is_signed
    else if func == 0x03
    then exec_eq
    else if func == 0x04
    then exec_asr is_signed
    else if func == 0x05
    then exec_lt is_signed
    else if func == 0x06
    then exec_gt is_signed
    else if func == 0x07
    then exec_lte is_signed
    else if func == 0x08
    then exec_gte is_signed
    else if func == 0x09
    then exec_shift_left
    else if func == 0x0A
    then exec_shift_right
    else if func == 0x0B
    then exec_sto instr
    else if func == 0x0D
    then exec_bitwise bit_and
    else if func == 0x0E
    then exec_bitwise bit_or
    else if func == 0x0F
    then exec_bitwise bit_xor
    else raise illegal_instruction

unfoldable pub exec_binary : ℕ → M (Unit {0})
unfolding binary_function advance
exec_binary instr = do binary_function (bit_and instr 0x0F80 >>> 7) instr; advance
