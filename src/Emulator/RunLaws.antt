-- ===== src/Emulator/RunLaws.antt =====
-- FPEmu, `fpemu.c`: the fetch, and the loop of `run` on more fuel.
use fprcade.Common.{
  ℕ, zero, suc, ◌≡◌, ◌<◌, ◌+◌, ◌*◌, arith, true, false, some, Bool, ◌==◌, if◌then◌else◌,
}
use native.Mathlib.Nat.{suc-add}
use fprcade.Emulator.State.{CpuContext, Result, ok, fault, memory_array, Memory, memory_size}
use fprcade.Emulator.Run.{fetch_instruction, step, run}

-- At an address of the memory whose two cells hold bytes, the fetch gives the two bytes, the low one
-- first; at the last address the second byte is past the end of the memory.
pub fetch_instruction_lem :
    (memory : Memory) (pc : ℕ)
    → pc < memory_size
    → memory pc < 256
    → memory (pc + 1) < 256
    → fetch_instruction memory pc
      ≡ (if pc == 65535 then fault memory_array else ok (memory pc + 256 * memory (pc + 1)))
unfolding fetch_instruction
fetch_instruction_lem memory pc p q r = ground arith

-- A run that has returned returns the same on more fuel.
run-add :
    (fuel more : ℕ) (memory : Memory) (c : CpuContext) {r : Result CpuContext}
    → run fuel memory c ≡ some r
    → run (fuel + more) memory c ≡ some r
unfolding run
run-add zero more memory c h = absurd (ground arith)
run-add (suc fuel) more memory c {r} h =
    rw suc-add (go (λ c'. run-add fuel more memory c') c.keep_going h)
  where
    after :
        (s : Result CpuContext)
        → ((c' : CpuContext) → run fuel memory c' ≡ some r → run (fuel + more) memory c' ≡ some r)
        → (elim s [ fault e ↦ some (fault e) | ok c' ↦ run fuel memory c' ]) ≡ some r
        → (elim s [ fault e ↦ some (fault e) | ok c' ↦ run (fuel + more) memory c' ]) ≡ some r
    after (ok c') k e = k c' e
    after (fault x) k e = e

    go :
        ((c' : CpuContext) → run fuel memory c' ≡ some r → run (fuel + more) memory c' ≡ some r)
        → (b : Bool)
        → (elim b [
          | false ↦ some (ok c)
          | true ↦ elim (step memory c) [ fault e ↦ some (fault e) | ok c' ↦ run fuel memory c' ]
        ])
          ≡ some r
        → (elim b [
          | false ↦ some (ok c)
          | true ↦ elim (step memory c) [
            | fault e ↦ some (fault e)
            | ok c' ↦ run (fuel + more) memory c'
          ]
        ])
          ≡ some r
    go k false e = e
    go k true e = after (step memory c) k e
