-- ===== src/Toolchain/Branches.antt =====
-- A BIF that FAsm assembles, run in FPEmu: the branch on the truth value.
use fprcade.Common.{
  ℕ, ◌≡◌, ◌<◌, ◌+◌, ◌%◌, arith, List, ◌∷◌, ◌==◌, if◌then◌else◌, refl, ◌∙◌, Bool-cases, inl, inr,
  u16,
}
use fprcade.Assembler.Generators.{bif_code}
use fprcade.Emulator.State.{CpuContext, Memory, ok, data_id, get_pc, set_pc, advance}
use fprcade.Emulator.Stacks.{pop}
use fprcade.Emulator.StackLaws.{popped, bind_ok}
use fprcade.Emulator.Flow.{exec_bif, bif_target}
use fprcade.Emulator.Run.{execute}
use fprcade.Emulator.StackViews.{Holds, contents, pop-Holds}
use fprcade.Toolchain.Encoding.{InReach, bif_code-eq-add, group-eq-div, bif_target-bif_code}

execute-bif_code :
    (memory : Memory) (location address : ℕ) (c : CpuContext)
    → execute memory (bif_code location address) c ≡ exec_bif (bif_code location address) c
unfolding execute
execute-bif_code memory location address c =
    ground (arith, bif_code-eq-add location address, group-eq-div (bif_code location address))

-- The context after the branch.
abbrev branched : ℕ → ℕ → CpuContext → CpuContext
branched v instr c = record (popped data_id c) {
  pc = if v == 0 then u16 (bif_target instr c.pc) else u16 (c.pc + 2);
}

exec_bif_lem :
    (instr v : ℕ) (c : CpuContext) (rest : List ℕ)
    → Holds c (v ∷ rest)
    → exec_bif instr c ≡ ok (tt, branched v instr c)
unfolding exec_bif get_pc set_pc advance
exec_bif_lem instr v c rest h =
    bind_ok (pop data_id) _ c (pop-Holds c v rest h).0
    ∙ elim (Bool-cases (v == 0)) [ inl e ↦ rw (e, set_pc) refl | inr e ↦ rw (e, advance) refl ]

-- A BIF to a 16 bit label in reach of it, on a data stack that is not full: it takes the value on
-- top of the stack, and goes on at the label where the value is 0, else at the next instruction; the
-- rest of the stack and the running state are kept.
pub execute-bif_code-branches :
    (memory : Memory) (location v : ℕ) (c : CpuContext) (rest : List ℕ)
    → location < 65536
    → c.pc < 65536
    → InReach location c.pc
    → Holds c (v ∷ rest)
    → (c' : CpuContext) × (execute memory (bif_code location c.pc) c ≡ ok (tt, c'))
      × (c'.pc ≡ (if v == 0 then location else (c.pc + 2) % 65536))
      × (contents c' ≡ rest)
      × (c'.keep_going ≡ c.keep_going)
execute-bif_code-branches memory location v c rest p q r h = (
  branched v (bif_code location c.pc) c,
  execute-bif_code memory location c.pc c ∙ exec_bif_lem (bif_code location c.pc) v c rest h,
  ground (arith, target),
  (pop-Holds c v rest h).1.view,
  refl,
)
  where
    target : bif_target (bif_code location c.pc) c.pc ≡ location
    target = (bif_target-bif_code location c.pc p q).0.1 r
