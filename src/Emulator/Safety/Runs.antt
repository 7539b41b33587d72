-- ===== src/Emulator/Safety/Runs.antt =====
-- The emulator's loop keeps the stacks guarded, from the reset on.
use fprcade.Common.{
  ℕ, zero, suc, ◌≡◌, ◌≢◌, Bool, true, false, Option, none, some, refl, ◌+◌, ◌≤◌, ◌<◌, arith,
}
use fprcade.Emulator.State.{
  CpuContext, Result, ok, fault, stack_array, Memory, StackId, data_id, return_id, control_id,
  temp_id, stack_of, max_stack_size,
}
use fprcade.Emulator.Stacks.{push, pushed, cpu_reset}
use fprcade.Emulator.Run.{fetch_instruction, execute, end_of_step, step, run}
use fprcade.Emulator.Safety.Triples.{Guarded, Post, returns, faults, Guarded→Roomy}
use fprcade.Emulator.Safety.Instructions.{execute-IsSafe}

-- What a step may return.
abbrev pub StepIsSafe : Result CpuContext → Type 0
StepIsSafe (ok c) = Guarded c
StepIsSafe (fault e) = e ≢ stack_array

-- What a run may return: a processor that has stopped.
abbrev pub RunIsSafe : Option (Result CpuContext) → Type 0
RunIsSafe none = Unit
RunIsSafe (some (ok c)) = Guarded c × (c.keep_going ≡ false)
RunIsSafe (some (fault e)) = e ≢ stack_array

end_of_step-Guarded : (c : CpuContext) → Guarded c → Guarded (end_of_step c)
unfolding end_of_step
end_of_step-Guarded c h = ground arith

finish :
    (r : Result (Unit {0} × CpuContext))
    → Post Guarded r
    → StepIsSafe (elim r [ fault e ↦ fault e | ok (_, c') ↦ ok (end_of_step c') ])
finish (ok (a, c)) (returns h) = end_of_step-Guarded c h
finish (fault e) (faults h) = h

fetch-ne-stack_array : (memory : Memory) (pc : ℕ) → fetch_instruction memory pc ≢ fault stack_array
unfolding fetch_instruction
fetch-ne-stack_array memory pc = ground arith

-- One step of a running processor.
pub step-Guarded :
    (memory : Memory) (c : CpuContext)
    → c.keep_going ≡ true
    → Guarded c
    → StepIsSafe (step memory c)
unfolding step
step-Guarded memory c going h = go (fetch_instruction memory c.pc) refl
  where
    go :
        (r : Result ℕ)
        → fetch_instruction memory c.pc ≡ r
        → StepIsSafe (elim r [
          | fault e ↦ fault e
          | ok instr ↦ elim (execute memory instr (record c { instruction = instr })) [
            | fault e ↦ fault e
            | ok (_, c') ↦ ok (end_of_step c')
          ]
        ])
    go (fault e) eq = λ p. fetch-ne-stack_array memory c.pc (cc)
    go (ok instr) eq = finish _ (
        execute-IsSafe memory instr (record c { instruction = instr })
          (Guarded→Roomy _ going (record {
            data_size = h.data_size;
            return_size = h.return_size;
            control_size = h.control_size;
            temp_size = h.temp_size;
            data_level = h.data_level;
            return_level = h.return_level;
            control_level = h.control_level;
            temp_level = h.temp_level;
          })))

pub run-IsSafe :
    (fuel : ℕ) (memory : Memory) (c : CpuContext) → Guarded c → RunIsSafe (run fuel memory c)
unfolding run
run-IsSafe zero memory c h = tt
run-IsSafe (suc fuel) memory c h = go (run-IsSafe fuel memory) c.keep_going refl
  where
    next :
        (r : Result CpuContext)
        → StepIsSafe r
        → ((c' : CpuContext) → Guarded c' → RunIsSafe (run fuel memory c'))
        → RunIsSafe (elim r [ fault e ↦ some (fault e) | ok c' ↦ run fuel memory c' ])
    next (ok c') s k = k c' s
    next (fault e) s k = s

    go :
        ((c' : CpuContext) → Guarded c' → RunIsSafe (run fuel memory c'))
        → (b : Bool) → c.keep_going ≡ b
        → RunIsSafe (elim b [
          | false ↦ some (ok c)
          | true ↦ elim (step memory c) [ fault e ↦ some (fault e) | ok c' ↦ run fuel memory c' ]
        ])
    go k false e = (h, e)
    go k true e = next (step memory c) (step-Guarded memory c e h) k

cpu_reset-Guarded : (c : CpuContext) → Guarded (cpu_reset c)
unfolding cpu_reset
cpu_reset-Guarded c = ground arith

-- A run from the reset, of any program: it never writes or reads past the array of a stack, and when
-- it returns the processor has stopped with no stack over its size.
pub run-cpu_reset-IsSafe :
    (fuel : ℕ) (memory : Memory) (c : CpuContext) → RunIsSafe (run fuel memory (cpu_reset c))
run-cpu_reset-IsSafe fuel memory c = run-IsSafe fuel memory (cpu_reset c) (cpu_reset-Guarded c)

-- The test of `push` is an equation: on a stack that is already full, as after an overflow that the
-- monitor resumes from, a push with room in the array goes past the size, raises nothing, and leaves
-- the processor running or not as it was.
pub push_past_full :
    (id : StackId) (v : ℕ) (c : CpuContext)
    → (stack_of id c).size ≤ (stack_of id c).top
    → (stack_of id c).top < max_stack_size
    → (push id v c ≡ ok (tt, pushed id v c))
      × ((stack_of id (pushed id v c)).top ≡ (stack_of id c).top + 1)
      × ((pushed id v c).keep_going ≡ c.keep_going)
      × ((pushed id v c).exception ≡ c.exception)
unfolding push pushed
push_past_full data_id v c h k = ground arith
push_past_full return_id v c h k = ground arith
push_past_full control_id v c h k = ground arith
push_past_full temp_id v c h k = ground arith
