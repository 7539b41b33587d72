-- ===== src/Examples.antt =====
-- Test data for the theorems: processors, memories, and a source file.
pub mod Processor
pub mod Forth
pub mod Source
pub mod Chain
use fprcade.Common.{ℕ, true, List, [], ◌∷◌, ◌==◌, if◌then◌else◌}
use fprcade.Emulator.State.{CpuContext, Stack, Memory, all_is_ok}

abbrev pub empty_stack : ℕ → Stack
empty_stack n = record { top = 0; size = n; values = λ _. 0 }

-- A running processor with empty stacks.
abbrev pub blank : CpuContext
blank = record {
  keep_going = true;
  single_step = true;
  exception = all_is_ok;
  data_stack = empty_stack 16;
  return_stack = empty_stack 32;
  control_stack = empty_stack 32;
  temp_stack = empty_stack 16;
  pc = 0xF000;
  instruction = 0;
  output = [];
}

-- 65535 and, on top of it, 3.
abbrev pub two_values : CpuContext
two_values = record blank {
  data_stack = record { top = 2; size = 16; values = λ i. if i == 0 then 65535 else 3 };
}

-- HALT at the reset address.
abbrev pub halting : Memory
halting a = if a == 0xF001 then 0x82 else 0

abbrev pub zeroed : Memory
zeroed a = 0

abbrev pub sixteen : List ℕ
sixteen = 0 ∷ 0 ∷ 0 ∷ 0 ∷ 0 ∷ 0 ∷ 0 ∷ 0 ∷ 0 ∷ 0 ∷ 0 ∷ 0 ∷ 0 ∷ 0 ∷ 0 ∷ 0 ∷ []
