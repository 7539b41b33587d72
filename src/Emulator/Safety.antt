-- ===== src/Emulator/Safety.antt =====
-- FPEmu, `fpemu.c`: no instruction of the emulator leaves the array of a stack, and a processor that
-- goes on running has room on each of its stacks.
mod Triples
mod Cells
mod Instructions
mod Runs
pub use Triples.{Guarded, Roomy}
pub use Runs.*
