-- ===== src/Examples/Processor.antt =====
-- FPEmu's theorems on concrete processors.
use fprcade.Common.{bit_and, bit_or, bit_xor, ◌≡◌, arith, refl, true, not, [], ◌∷◌}
use fprcade.Emulator.State.{CpuContext, ok, data_id, stack_of}
use fprcade.Emulator.Stacks.{push, pushed, cpu_reset}
use fprcade.Emulator.Arithmetic.{
  exec_eq, exec_bitwise, exec_add, exec_lt, exec_gt, exec_lte, exec_gte, truth,
}
use fprcade.Emulator.Moves.{exec_drop, exec_dup, exec_swap}
use fprcade.Emulator.MoveLaws.{exec_drop-exec_swap-exec_dup-Leaves}
use fprcade.Emulator.LogicLaws.{exec_eq-exec_bitwise-Leaves}
use fprcade.Emulator.Run.{run}
use fprcade.Emulator.StackViews.{Holds, Leaves}
use fprcade.Emulator.OperatorLaws.{less, exec_add-Leaves, comparisons-Leaves}
use fprcade.Emulator.Safety.{RunIsSafe, run-cpu_reset-IsSafe, push_past_full}
use fprcade.Examples.{blank, two_values, halting}

run-cpu_reset-IsSafe_example : RunIsSafe (run 5 halting (cpu_reset blank))
run-cpu_reset-IsSafe_example = run-cpu_reset-IsSafe 5 halting blank

two_values-Holds : Holds two_values (3 ∷ 65535 ∷ [])
two_values-Holds = record { view = refl; fits = omega arith; below = omega arith }

exec_add-Leaves_example : Leaves (exec_add true) two_values (2 ∷ [])
exec_add-Leaves_example =
    exec_add-Leaves true two_values 3 65535 [] (omega arith) (omega arith) two_values-Holds

comparisons-Leaves_example :
    Leaves (exec_lt true) two_values (truth (less true 65535 3) ∷ [])
    × Leaves (exec_gt true) two_values (truth (less true 3 65535) ∷ [])
    × Leaves (exec_lte true) two_values (truth (not (less true 3 65535)) ∷ [])
    × Leaves (exec_gte true) two_values (truth (not (less true 65535 3)) ∷ [])
comparisons-Leaves_example =
    comparisons-Leaves true two_values 3 65535 [] (omega arith) (omega arith) two_values-Holds

-- A data stack that is full.
abbrev full : CpuContext
full = record blank { data_stack = record { top = 16; size = 16; values = λ _. 1 } }

push_past_full_example :
    (push data_id 7 full ≡ ok (tt, pushed data_id 7 full))
    × ((stack_of data_id (pushed data_id 7 full)).top ≡ 17)
    × ((pushed data_id 7 full).keep_going ≡ true)
    × ((pushed data_id 7 full).exception ≡ full.exception)
push_past_full_example = push_past_full data_id 7 full (omega arith) (omega arith)

exec_drop-exec_swap-exec_dup-Leaves_example :
    Leaves (exec_drop data_id) two_values (65535 ∷ [])
    × Leaves (exec_swap data_id) two_values (65535 ∷ 3 ∷ [])
    × Leaves (exec_dup data_id) two_values (3 ∷ 3 ∷ 65535 ∷ [])
exec_drop-exec_swap-exec_dup-Leaves_example =
    exec_drop-exec_swap-exec_dup-Leaves two_values 3 65535 [] (omega arith) (omega arith)
      two_values-Holds two_values 3 (65535 ∷ []) (omega arith) two_values-Holds (omega arith)
      (omega arith)

exec_eq-exec_bitwise-Leaves_example :
    Leaves exec_eq two_values (0 ∷ [])
    × Leaves (exec_bitwise bit_and) two_values (3 ∷ [])
    × Leaves (exec_bitwise bit_or) two_values (65535 ∷ [])
    × Leaves (exec_bitwise bit_xor) two_values (65532 ∷ [])
exec_eq-exec_bitwise-Leaves_example =
    exec_eq-exec_bitwise-Leaves two_values 3 65535 [] two_values-Holds
