-- ===== src/Toolchain/Opcodes.antt =====
-- The instructions without an operand: what FAsm's generator emits for a mnemonic against what FPEmu
-- does on it.
use fprcade.Common.{ℕ, ◌≡◌, ◌+◌, refl, List, some, true, false, u16, bit_and, bit_or, bit_xor}
use fprcade.Assembler.Text.{Text, all_ok}
use fprcade.Assembler.Symbols.{SymbolTable}
use fprcade.Assembler.Hex.{HexWriter}
use fprcade.Assembler.Generators.{
  Generator, emit, emit_code, nop_generator, leave_generator, halt_generator, reset_generator,
}
use fprcade.Assembler.Operators.{
  add_generator, and_generator, asr_generator, eq_generator, gt_generator, gte_generator,
  gteu_generator, gtu_generator, lsl_generator, lsr_generator, lt_generator, lte_generator,
  lteu_generator, ltu_generator, mul_generator, mulu_generator, neg_generator, not_generator,
  or_generator, xor_generator,
}
use fprcade.Emulator.State.{M, ◌>>◌, CpuContext, Memory, raise, advance, illegal_instruction}
use fprcade.Emulator.Flow.{exec_control, control_function, exec_leave, stop}
use fprcade.Emulator.Arithmetic.{
  exec_binary, binary_function, exec_add, exec_mul, exec_eq, exec_asr, exec_lt, exec_gt, exec_lte,
  exec_gte, exec_shift_left, exec_shift_right, exec_bitwise,
}
use fprcade.Emulator.Run.{execute, exec_unary, unary_function, exec_neg, exec_not}

-- The generator never fails and emits one opcode, on which the processor does m and then goes on to
-- the instruction two bytes further.
pub record Runs (g : Generator) (m : M (Unit {0})) : Type 0 where
  pub opcode : ℕ
  pub emits :
      (words : List Text) (table : SymbolTable) (h : HexWriter) (address : ℕ)
      → g words table h address
        ≡ some
            (record { hex = emit_code opcode h; new_address = u16 (address + 2); reason = all_ok })
  pub executes : (memory : Memory) (c : CpuContext) → execute memory opcode c ≡ (m >> advance) c

-- Fourteen of these sixteen mnemonics of FAsm run the FPEmu operation of their name, the ones with a U in
-- the unsigned form: ADD, EQ, ASR, AND, OR, XOR and the eight comparisons; LSL runs the shift to the
-- left and LSR the shift to the right, which comments of FPEmu name the other way round.
operators_run :
    Runs add_generator (exec_add true)
    × Runs eq_generator exec_eq
    × Runs asr_generator (exec_asr true)
    × Runs and_generator (exec_bitwise bit_and)
    × Runs or_generator (exec_bitwise bit_or)
    × Runs xor_generator (exec_bitwise bit_xor)
    × Runs lt_generator (exec_lt true)
    × Runs ltu_generator (exec_lt false)
    × Runs gt_generator (exec_gt true)
    × Runs gtu_generator (exec_gt false)
    × Runs lte_generator (exec_lte true)
    × Runs lteu_generator (exec_lte false)
    × Runs gte_generator (exec_gte true)
    × Runs gteu_generator (exec_gte false)
    × Runs lsl_generator exec_shift_left
    × Runs lsr_generator exec_shift_right
unfolding execute exec_binary binary_function emit add_generator eq_generator asr_generator
    and_generator or_generator xor_generator lt_generator ltu_generator gt_generator gtu_generator
    lte_generator lteu_generator gte_generator gteu_generator lsl_generator lsr_generator
operators_run = (
  record { opcode = 0xe010; emits = λ w t h a. refl; executes = λ m c. refl },
  record { opcode = 0xe180; emits = λ w t h a. refl; executes = λ m c. refl },
  record { opcode = 0xe210; emits = λ w t h a. refl; executes = λ m c. refl },
  record { opcode = 0xe680; emits = λ w t h a. refl; executes = λ m c. refl },
  record { opcode = 0xe700; emits = λ w t h a. refl; executes = λ m c. refl },
  record { opcode = 0xe780; emits = λ w t h a. refl; executes = λ m c. refl },
  record { opcode = 0xe290; emits = λ w t h a. refl; executes = λ m c. refl },
  record { opcode = 0xe280; emits = λ w t h a. refl; executes = λ m c. refl },
  record { opcode = 0xe310; emits = λ w t h a. refl; executes = λ m c. refl },
  record { opcode = 0xe300; emits = λ w t h a. refl; executes = λ m c. refl },
  record { opcode = 0xe390; emits = λ w t h a. refl; executes = λ m c. refl },
  record { opcode = 0xe380; emits = λ w t h a. refl; executes = λ m c. refl },
  record { opcode = 0xe410; emits = λ w t h a. refl; executes = λ m c. refl },
  record { opcode = 0xe400; emits = λ w t h a. refl; executes = λ m c. refl },
  record { opcode = 0xe480; emits = λ w t h a. refl; executes = λ m c. refl },
  record { opcode = 0xe500; emits = λ w t h a. refl; executes = λ m c. refl },
)

-- These four run the operation of another: MUL multiplies unsigned and MULU signed, NOT runs the
-- negation and NEG the complement.
swapped_run :
    Runs mul_generator (exec_mul false)
    × Runs mulu_generator (exec_mul true)
    × Runs not_generator exec_neg
    × Runs neg_generator exec_not
unfolding execute exec_binary binary_function exec_unary unary_function emit mul_generator
    mulu_generator not_generator neg_generator
swapped_run = (
  record { opcode = 0xe080; emits = λ w t h a. refl; executes = λ m c. refl },
  record { opcode = 0xe090; emits = λ w t h a. refl; executes = λ m c. refl },
  record { opcode = 0xf000; emits = λ w t h a. refl; executes = λ m c. refl },
  record { opcode = 0xf100; emits = λ w t h a. refl; executes = λ m c. refl },
)

-- The control instructions go on two bytes further after their own effect, so NOP and HALT count the
-- program counter up twice and LEAVE passes the address that it has popped; FPEmu has no RESET and
-- raises an illegal instruction.
control_run :
    Runs nop_generator advance
    × Runs leave_generator exec_leave
    × Runs halt_generator (advance >> stop)
    × Runs reset_generator (raise illegal_instruction)
unfolding execute exec_control control_function emit nop_generator leave_generator halt_generator
    reset_generator
control_run = (
  record { opcode = 0x8000; emits = λ w t h a. refl; executes = λ m c. refl },
  record { opcode = 0x8100; emits = λ w t h a. refl; executes = λ m c. refl },
  record { opcode = 0x8200; emits = λ w t h a. refl; executes = λ m c. refl },
  record { opcode = 0x8300; emits = λ w t h a. refl; executes = λ m c. refl },
)
