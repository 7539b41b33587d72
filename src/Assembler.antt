-- ===== src/Assembler.antt =====
-- FAsm, the assembler of the Stackmaster-16 processor: `SubProjects/FAsm/src/fa.c`.
pub mod Text
pub mod Symbols
pub mod Numbers
pub mod NumberLaws
pub mod Hex
pub mod HexLaws
pub mod Generators
pub mod Operators
pub mod Instructions
pub mod Directives
pub mod Lines
pub mod Passes
pub mod SymbolFile
pub mod SymbolFileLaws
pub mod SymbolFileReading
pub mod SymbolLaws
pub mod PassLaws
pub mod WordLaws
pub mod LineLaws
pub mod Termination
pub mod DirectiveTermination
pub mod PassTermination
pub mod DirectiveCounts
pub mod DirectiveLaws
