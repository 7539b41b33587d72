-- ===== src/Examples/Chain.antt =====
-- The theorems on the tool chain at concrete programs.
use fprcade.Common.{ℕ, List, inl, ◌*◌, ◌≡◌, ◌+◌, arith, refl, true, [], ◌∷◌, u16}
use mathlib.Core.Logic.{◌↔◌}
use fprcade.Assembler.Text.{get_stack_id}
use fprcade.Assembler.Hex.{hex_flush, hex_write_end_of_file}
use fprcade.Assembler.Generators.{ldl_code, ldh_code, bif_code, enter_code}
use fprcade.Assembler.Directives.{push_bytes}
use fprcade.Emulator.State.{CpuContext, ok, ◌>>◌, data_id, return_id, control_id, temp_id, Memory}
use fprcade.Emulator.Stacks.{pushed, get_stack, stack_number}
use fprcade.Emulator.Flow.{bif_target}
use fprcade.Emulator.Loader.{load_hex, loaded}
use fprcade.Emulator.Run.{execute, fetch_instruction}
use fprcade.Disassembler.{new_address, disassemble, with_number}
use fprcade.Toolchain.Encoding.{InReach, bif_target-bif_code}
use fprcade.Toolchain.Execution.{execute-enter_code-leave}
use fprcade.Toolchain.HexRecords.{write}
use fprcade.Toolchain.HexLoading.{fresh, load_hex-push_bytes}
use fprcade.Toolchain.Loads.{execute-ldl_code-ldh_code, get_stack-get_stack_id}
use fprcade.Toolchain.Programs.{emit_codes, fetch_instruction-emit_codes}
use fprcade.Toolchain.Branches.{execute-bif_code-branches}
use fprcade.Toolchain.Listing.{disassemble-enter_code-bif_code}
use fprcade.Emulator.StackViews.{Holds, contents, cells}
use fprcade.Examples.{blank, two_values, zeroed, sixteen}

load_hex-push_bytes_example :
    load_hex
      (hex_write_end_of_file (hex_flush (push_bytes (16 ∷ 224 ∷ []) (fresh sixteen 0xF000)))).outpf
      zeroed
    ≡ loaded true (write 0xF000 (16 ∷ 224 ∷ []) zeroed)
load_hex-push_bytes_example =
    load_hex-push_bytes sixteen 0xF000 (16 ∷ 224 ∷ []) zeroed refl (omega arith)
      (omega arith, (omega arith, tt)) (omega arith)

execute-ldl_code-ldh_code_example :
    (execute zeroed (ldl_code (stack_number data_id) 0xBEEF)
        >> execute zeroed (ldh_code (stack_number data_id) 0xBEEF))
      blank
    ≡ ok (tt, record (pushed data_id 0xBEEF blank) { pc = u16 (u16 (blank.pc + 2) + 2) })
execute-ldl_code-ldh_code_example =
    execute-ldl_code-ldh_code zeroed data_id 0xBEEF blank (omega arith) (omega arith) (omega arith)

-- LDL and LDH of a value on the data stack, and HALT.
abbrev program : List ℕ
program = 0xC2EF ∷ 0xD02F ∷ 0x8200 ∷ []

fetch_instruction-emit_codes_example :
    (memory' : Memory) × (load_hex
        (hex_write_end_of_file (hex_flush (emit_codes program (fresh sixteen 0xF000)))).outpf
        zeroed
      ≡ loaded true memory')
    × (fetch_instruction memory' (0xF000 + 2 * 2) ≡ ok 0x8200)
fetch_instruction-emit_codes_example =
    fetch_instruction-emit_codes sixteen program 2 0xF000 zeroed refl
      (omega arith, (omega arith, (omega arith, tt))) (omega arith) (omega arith)

bif_target-bif_code_example :
    ((bif_target (bif_code 0xF000 0xF010) 0xF010 ≡ 0xF000) ↔ InReach 0xF000 0xF010)
    × (new_address (bif_code 0xF000 0xF010) 0xF010 ≡ bif_target (bif_code 0xF000 0xF010) 0xF010)
bif_target-bif_code_example = bif_target-bif_code 0xF000 0xF010 (omega arith) (omega arith)

execute-enter_code-leave_example :
    (c' : CpuContext) × ((execute zeroed (enter_code 0x1000) >> execute zeroed 0x8100) blank
      ≡ ok (tt, c'))
    × (c'.pc ≡ 0xF004)
    × (c'.return_stack.top ≡ 0)
    × (c'.return_stack.size ≡ blank.return_stack.size)
    × (cells c'.return_stack.values c'.return_stack.top ≡ [])
    × (record c' { pc = blank.pc; return_stack = blank.return_stack } ≡ blank)
execute-enter_code-leave_example =
    execute-enter_code-leave zeroed 0x1000 blank (omega arith) refl (omega arith) (omega arith)

get_stack-get_stack_id_example :
    (get_stack (get_stack_id b'D') blank ≡ ok (data_id, blank))
    × (get_stack (get_stack_id b'T') blank ≡ ok (temp_id, blank))
    × (get_stack (get_stack_id b'R') blank ≡ ok (control_id, blank))
    × (get_stack (get_stack_id b'C') blank ≡ ok (return_id, blank))
get_stack-get_stack_id_example = get_stack-get_stack_id blank

two_values-Holds : Holds two_values (3 ∷ 65535 ∷ [])
two_values-Holds = record { view = refl; fits = omega arith; below = omega arith }

near : InReach 0xF010 0xF000
near = inl (omega arith)

execute-bif_code-branches_example :
    (c' : CpuContext) × (execute zeroed (bif_code 0xF010 0xF000) two_values ≡ ok (tt, c'))
    × (c'.pc ≡ 0xF002)
    × (contents c' ≡ 65535 ∷ [])
    × (c'.keep_going ≡ true)
execute-bif_code-branches_example =
    execute-bif_code-branches zeroed 0xF010 3 two_values (65535 ∷ []) (omega arith) (omega arith)
      near two_values-Holds

disassemble-enter_code-bif_code_example :
    (disassemble (enter_code 0x1000) 0xF000 ≡ with_number "enter" 0x1000)
    × (disassemble (bif_code 0xF00E 0xF000) 0xF000 ≡ with_number "bif" 0xF00E)
disassemble-enter_code-bif_code_example =
    disassemble-enter_code-bif_code 0x1000 0xF000 (omega arith) refl 0xF00E 0xF000 (omega arith)
      (omega arith) (inl (omega arith))
