-- ===== src/Examples/Forth.antt =====
-- The theorems on CF_Forth_V2 at concrete inputs: a small dictionary, with the stacks in their places.
use fprcade.Common.{
  ℕ, ◌≡◌, refl, [], ◌∷◌, true, length, codes, ◌==◌, if◌then◌else◌, u16, ◌+◌, ◌-◌, ◌*◌, ◌%◌, arith,
  some,
}
use fprcade.Forth.State.{
  ForthContext, done, stop, pop_assert, indeterminate, ◌>>=◌, ◌>>◌, on_control, on_data, on_return,
}
use fprcade.Forth.Opcodes.{op_jump_if, op_push, op_exit, op_drop}
use fprcade.Forth.Dictionary.{find_via_opcode}
use fprcade.Forth.StackWords.{instr_at}
use fprcade.Forth.Printing.{instr_dot}
use fprcade.Forth.ControlFlow.{instr_literal}
use fprcade.Forth.Numbers.{instr_pnumber}
use fprcade.Forth.Table.{run_instruction}
use fprcade.Forth.Interpreters.{inner_step, set_ip, add_core_word, ff_main}
use fprcade.Forth.MemoryLaws.{word_at, put_word, pushed, popped}
use fprcade.Forth.Conditionals.{Compiling, WordAt}
use fprcade.Forth.Outcomes.{Succeeds}
use fprcade.Forth.FindLaws.{
  Chain, no_entry, entry, first_with, found_or_failed, find_via_opcode-first_with,
}
use fprcade.Forth.AddLaws.{find_via_opcode-add_core_word}
use fprcade.Forth.IfThen.{if_then, inner_step-if_then}
use fprcade.Forth.Literals.{literal_compiled, literal-inner_step}
use fprcade.Forth.Calls.{called, inner_step-enter-exit}
use fprcade.Forth.NumberLaws.{no_digit, digit, decimal_from, instr_pnumber-decimal}
use fprcade.Forth.DotLaws.{instr_dot-instr_at-empty, instr_dot-indeterminate}
use fprcade.Forth.Safety.Rules.{Has, ready, filled, roomy, Post}
use fprcade.Forth.Safety.Table.{run_instruction-guarded}
use fprcade.Forth.Safety.Runs.{KeepsStacks, ff_main-KeepsStacks}

-- JUMP_IF at 1166, PUSH at 1180, EXIT at 1194, a colon word at 1208 and HERE at 1222.
abbrev small_space : ℕ → ℕ
small_space =
    put_word
      (put_word
        (put_word
          (put_word
            (put_word
              (put_word
                (put_word (put_word (put_word (put_word (λ _. 0) 2 1222) 6 10) 1170 9) 1180 1166)
                1184 10)
              1194 1180)
            1198 6)
          1208 1194)
        1212 5)
      65378 7

abbrev small_forth : ForthContext
small_forth = record {
  ip = 1300;
  dataspace = small_space;
  run = true;
  dict_head = 1208;
  top = 65376;
  recover = 1300;
  control_stack = record { top = 65484; where_ = 65444; bottom = 65444 };
  data_stack = record { top = 65442; where_ = 65380; bottom = 65378 };
  return_stack = record { top = 65534; where_ = 65486; bottom = 65486 };
  input = [];
  output = [];
}

small-control : Has (roomy on_control) small_forth
small-control = ground arith

small-data : Has (roomy on_data) small_forth
small-data = ground arith

small-return : Has (roomy on_return) small_forth
small-return = ground arith

small-value : Has (filled on_data) small_forth
small-value = ground arith

small-Chain : Chain small_space 1208 (1208 ∷ 1194 ∷ 1180 ∷ 1166 ∷ [])
small-Chain = entry (omega arith) (omega arith) refl (omega arith) (
    entry (omega arith) (omega arith) refl (omega arith) (
      entry (omega arith) (omega arith) refl (omega arith)
        (entry (omega arith) (omega arith) refl (omega arith) no_entry)))

small-jump_if : WordAt op_jump_if 1166 1222 small_forth
unfolding first_with
small-jump_if = record {
  found = find_via_opcode-first_with op_jump_if small_forth _ small-Chain (omega arith);
  code = refl;
  above = omega arith;
  below = omega arith;
}

small-push : WordAt op_push 1180 1222 (popped on_data small_forth)
unfolding first_with
small-push = record {
  found =
      find_via_opcode-first_with op_push (popped on_data small_forth) _ small-Chain (omega arith);
  code = refl;
  above = omega arith;
  below = omega arith;
}

small-Compiling : Compiling 1222 small_forth
small-Compiling = record { here = refl; above = omega arith; below = omega arith }

abbrev at_branch : ForthContext
at_branch = record small_forth { ip = 1222 }

inner_step-if_then_example :
    Succeeds
      (λ c'.
        inner_step (record at_branch { dataspace = c'.dataspace })
        ≡ done (
          tt,
          record (popped on_data at_branch) {
            dataspace = c'.dataspace;
            ip =
                if word_at c'.dataspace (65380 - 2) == 0
                then 1222 + 4 + 2 * length {A = ℕ} (1180 ∷ 42 ∷ [])
                else 1222 + 4;
          },
        ))
      (if_then (1180 ∷ 42 ∷ []) small_forth)
inner_step-if_then_example =
    inner_step-if_then (1180 ∷ 42 ∷ []) 1222 1166 small_forth at_branch small-Compiling
      (omega arith) small-control small-data small-jump_if refl small-value

literal-inner_step_example : (do _ ← instr_literal 0; set_ip 1222; inner_step) small_forth ≡ (
    let n = word_at small_space (65380 - 2) in
    done (
      tt,
      record (pushed on_data (u16 n) (literal_compiled 1222 1180 n small_forth)) { ip = 1222 + 4 },
    ))
literal-inner_step_example =
    literal-inner_step 1222 1180 0 small_forth small-Compiling small-value small-push

-- A call of the colon word, and an EXIT at 1400.
abbrev calling : ForthContext
calling = record small_forth { dataspace = put_word (put_word small_space 1300 1208) 1400 1194 }

inner_step-enter-exit_example :
    (inner_step calling ≡ done (tt, called 1208 calling))
    × (inner_step (record (called 1208 calling) { ip = 1400 })
        ≡ done (
          tt,
          record calling { ip = 1300 + 2; dataspace = put_word calling.dataspace 65486 (1300 + 2) },
        ))
inner_step-enter-exit_example =
    inner_step-enter-exit 1208 1194 1400 calling small-return (omega arith) refl (omega arith) refl
      (omega arith) refl (omega arith) refl

find_via_opcode-first_with_example :
    find_via_opcode op_exit small_forth
    ≡ found_or_failed (first_with small_space op_exit (1208 ∷ 1194 ∷ 1180 ∷ 1166 ∷ [])) small_forth
find_via_opcode-first_with_example =
    find_via_opcode-first_with op_exit small_forth (1208 ∷ 1194 ∷ 1180 ∷ 1166 ∷ []) small-Chain
      (omega arith)

find_via_opcode-add_core_word_example :
    Succeeds
      (λ c'.
        find_via_opcode op_drop c'
        ≡ found_or_failed
            (if op_drop == op_drop
              then some 1222
              else first_with small_space op_drop (1208 ∷ 1194 ∷ 1180 ∷ 1166 ∷ []))
            c')
      (add_core_word (codes "DROP") op_drop 0 small_forth)
find_via_opcode-add_core_word_example =
    find_via_opcode-add_core_word (codes "DROP") op_drop 0 op_drop 1222 small_forth
      (1208 ∷ 1194 ∷ 1180 ∷ 1166 ∷ []) small-Chain refl (omega arith) (omega arith) (omega arith)
      (omega arith) (omega arith)

-- The word buffer holds "42", and the data stack its address.
abbrev reading : ForthContext
reading = record small_forth {
  dataspace = put_word (put_word (put_word small_space 14 13314) 16 50) 65378 14;
}

instr_pnumber-decimal_example :
    instr_pnumber 0 reading
    ≡ done (
      u16 (1300 + 2),
      pushed on_data 1 (pushed on_data (decimal_from 4 (2 ∷ []) % 65536) (popped on_data reading)),
    )
instr_pnumber-decimal_example =
    instr_pnumber-decimal 0 14 4 (2 ∷ []) reading small-value (omega arith) refl refl (omega arith)
      refl
      (digit (omega arith) (omega arith) refl (digit (omega arith) (omega arith) refl no_digit))

abbrev empty_data : ForthContext
empty_data = record small_forth {
  data_stack = record { top = 65442; where_ = 65378; bottom = 65378 };
}

empty-ready : Has ready empty_data
empty-ready = ground arith

instr_dot-instr_at-empty_example :
    (instr_dot 0 empty_data ≡ stop pop_assert) × (instr_at 0 empty_data ≡ stop pop_assert)
instr_dot-instr_at-empty_example = instr_dot-instr_at-empty 0 empty_data empty-ready refl

abbrev binary : ForthContext
binary = record small_forth { dataspace = put_word small_space 6 2 }

instr_dot-indeterminate_example : instr_dot 0 binary ≡ stop indeterminate
instr_dot-indeterminate_example =
    instr_dot-indeterminate 0 2 binary small-value refl (omega arith) (omega arith) (omega arith)

run_instruction-guarded_example : Post true (Has ready) (run_instruction op_drop 0 empty_data)
run_instruction-guarded_example =
    run_instruction-guarded op_drop (omega arith) (omega arith) (omega arith) 0 empty_data
      empty-ready

ff_main-KeepsStacks_example :
    KeepsStacks (ff_main (codes ": INTERPRET ABORT ;") (codes "1 2 +") 9 small_forth)
ff_main-KeepsStacks_example =
    ff_main-KeepsStacks (codes ": INTERPRET ABORT ;") (codes "1 2 +") 9 small_forth
