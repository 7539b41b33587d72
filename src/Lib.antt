-- ===== src/Lib.antt =====
-- Verification library of FPRCade: the assembler FAsm, the emulator FPEmu and the disassembler
-- FDisassem of the 16 bit stack processor Stackmaster-16, and the FORTH system CF_Forth_V2.
--
-- How the parts interact. FAsm reads a source file twice: the first pass enters the labels and the
-- symbols of `.def` into a symbol table, the second generates code and writes it as Intel hex records.
-- FPEmu loads such a file into 64K of memory and runs it from 0xF000. FDisassem, which the monitor of
-- FPEmu calls too, turns one instruction into a text. The three agree only through the opcodes and the
-- hex format, which is what the Toolchain modules are about. CF_Forth_V2 is a program of its own: its
-- `main` builds a dictionary of core words, compiles INTERPRET from a text with `mini_interpret`, and
-- runs it in the inner interpreter, where it reads a library of further words and then the terminal.
--
-- Common: numbers, tests, arrays, fixed width integers, and masks and fields of bits as arithmetic.
--   A `uint16_t` is a natural number kept below 2^16 by `% 65536` where the source assigns it; an
--   `int16_t` is the pattern of 16 bits that `i16` reads as an integer.
--
-- Emulator, SubProjects/FPEmu/src/fpemu.c. State: `CPU_Context` as `CpuContext`, `struct Stack` as
--   `Stack`, the memory as a function. Stacks: `push`, `pop`, `cpu_reset`, `get_stack`. Flow, Moves,
--   Arithmetic, Run: the cases of the switches of `run`, `fetch_instruction`, and the loop. Loader:
--   `hex_get_byte` and `load_hex`. The instructions are functions in a state monad with faults: a
--   fault is what C leaves undefined, an access outside a stack's array or the memory, a shift by 32
--   or more, an `int` that overflows. What an instruction writes to `fd_out` is kept in a list.
--   StackLaws, StackViews, OperatorLaws, MoveLaws, LogicLaws, RunLaws and Safety hold the proofs.
--
-- Assembler, SubProjects/FAsm/src/fa.c. Text: identifiers, digits and words. Symbols: the symbol
--   table, as the list of its entries. Numbers: `read_number`. Hex: the hex writer. Generators and
--   Operators: the instruction generators. Instructions: their table and `parse_instruction`.
--   Directives: the directives and `parse_directive`. Lines: remarks, stripping, words. Passes:
--   `assemble`. SymbolFile: `dump_symbol_table`. A line is the list of its characters; the input is
--   the list of lines that `fgets` returns. An `int64_t` that overflows and an `assert` that fails are
--   outcomes of their own. SymbolLaws, WordLaws, LineLaws, HexLaws, NumberLaws, DirectiveCounts,
--   DirectiveLaws, SymbolFileLaws, SymbolFileReading, PassLaws and the three Termination modules hold
--   the proofs.
--
-- Disassembler, SubProjects/FDisassem/src/fdisa.c: `disassemble`; Bounds has the proof on its length.
--
-- Toolchain: the proofs that join two of the programs. Encoding, Branches, Execution and Loads: what
--   FPEmu does on the codes of BIF, ENTER and LD. Opcodes: the mnemonics without an operand. Listing:
--   what FDisassem shows for FAsm's codes. HexRecords, HexBuffer, HexLoading and Programs: from the
--   hex writer to the memory and the fetch.
--
-- Forth, SubProjects/CF_Forth_V2/src/ff.c and ff.h. State: `T_Context` as `ForthContext`, `T_Stack` as
--   `CellStack`, the data space as a function of addresses below 65536, and the monad: a function of
--   the source is done with a value and a context, or stops the program, by an assertion that fails or
--   by what C leaves undefined. Memory: `fetch16ubits`, `store16ubits`, `push`, `pop`, the three
--   stacks. A cell is little endian, also where the source reads it through a pointer, and a dictionary
--   header is laid out as the `DE_` constants say, with an `int` of four bytes for the opcode.
--   Dictionary: headers, `add_dict_entry`, `find_via_opcode`. Startup: `paste_code`, `ff_reset`,
--   `instr_abort` and the guards of the words. StackWords, Printing, Input, Defining, ControlFlow and
--   Numbers: the words. Decompiler: DECOMPILE. Opcodes and Table: `T_OpCode`, the instruction table and
--   EXECUTE. Interpreters: the inner interpreter, `mini_interpret`, `bootstrap` and `main`. A word is a
--   function with the name that it has in the source (`instr_add` for +). Safety and its child modules
--   are about the stacks; Outcomes, MemoryLaws, CodeLaws, Conditionals, IfThen, Literals, FindLaws,
--   AddLaws, Calls, NumberLaws and DotLaws hold the other proofs.
--
-- Examples: the theorems at concrete inputs.
--
-- Bounds and fuel. `run` takes fuel and returns `none` when it runs out, since a program may run for
-- ever. `assemble` and the loop of `.b` take fuel too. A round of a loop uses one and gets past a
-- line or a word, so as many as the input has characters and lines are enough; only a line that
-- leaves a string or a character constant open is never got past. In Forth the inner interpreter and
-- `mini_interpret` take fuel, since both may run for ever. The searches of the dictionary, and EXECUTE
-- within EXECUTE, go round 65536 times at most: an address is below that, so a search that has not
-- ended by then comes again to an entry, and its outcome is `never_ends`; so is that of an EXECUTE as
-- deep, which in C has used up the stack of the program or goes on for ever.
--
-- Not modelled: the monitor, the command line and the options of FPEmu, the main functions of the tool
-- chain, the listing file, the texts of the messages, and files that cannot be read or written. Of
-- CF_Forth_V2 the options of the command line, `info`, which prints the dictionary, the debugging print
-- of the word buffer, the unused stub `instr_tick` and the messages on `stderr`; the texts
-- `interpret_code` and `library_code`, which the build makes, are arguments. The older CF_Forth, the
-- hardware description and the editor files stand apart.
pub mod Common
pub mod Emulator
pub mod Assembler
pub mod Disassembler
pub mod Toolchain
pub mod Examples
pub mod Forth
