-- ===== src/Toolchain.antt =====
-- The tools together: what FAsm writes is what FPEmu loads and runs, and what FDisassem shows.
pub mod Encoding
pub mod Execution
pub mod Loads
pub mod HexRecords
pub mod HexBuffer
pub mod HexLoading
pub mod Programs
pub mod Branches
pub mod Listing
pub mod Opcodes
