-- ===== src/Forth.antt =====
-- The FORTH system of SubProjects/CF_Forth_V2/src: the data space and the stacks, the dictionary, the
-- words that are written in C, and the interpreters that run them.
pub mod State
pub mod Memory
pub mod Dictionary
pub mod Startup
pub mod StackWords
pub mod Printing
pub mod Input
pub mod Opcodes
pub mod Defining
pub mod ControlFlow
pub mod Numbers
pub mod Decompiler
pub mod Table
pub mod Interpreters
pub mod Safety
pub mod MemoryLaws
pub mod CodeLaws
pub mod Outcomes
pub mod Conditionals
pub mod IfThen
pub mod Literals
pub mod FindLaws
pub mod AddLaws
pub mod Calls
pub mod NumberLaws
pub mod DotLaws
