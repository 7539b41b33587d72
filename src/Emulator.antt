-- ===== src/Emulator.antt =====
-- FPEmu, the emulator of the Stackmaster-16 processor: `SubProjects/FPEmu/src/fpemu.c`.
pub mod State
pub mod Stacks
pub mod StackLaws
pub mod Flow
pub mod Moves
pub mod Arithmetic
pub mod Run
pub mod RunLaws
pub mod StackViews
pub mod OperatorLaws
pub mod MoveLaws
pub mod LogicLaws
pub mod Loader
pub mod Safety
