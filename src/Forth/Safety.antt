-- ===== src/Forth/Safety.antt =====
-- CF_Forth_V2: the three stacks stay where they were set up, and no push runs into the stack above.
pub mod Rules
pub mod Cells
pub mod Guards
pub mod Words
pub mod Branches
pub mod Input
pub mod Defining
pub mod Numbers
pub mod Decompiler
pub mod Table
pub mod Runs
