-- ===== src/Assembler/Symbols.antt =====
-- FAsm, `fa.c`: the symbol table.
use fprcade.Common.{
  ℕ, Bool, false, ◌==◌, ltb, if◌then◌else◌, List, [], ◌∷◌, ◌++◌, Option, none, some, length,
}
use fprcade.Assembler.Text.{Text, get_word, same_text}

abbrev pub max_number_of_symbols : ℕ
max_number_of_symbols = 1024

abbrev pub max_symbol_size : ℕ
max_symbol_size = 32

-- The first `number` entries of the array, in order.
abbrev pub SymbolTable : Type 0
SymbolTable = List (Text × ℕ)

-- `init_symbol_table`.
abbrev pub empty_table : SymbolTable
empty_table = []

unfoldable pub find_symbol : SymbolTable → Text → Option ℕ
find_symbol [] label = none
find_symbol ((symbol, value) ∷ table) label =
    if same_text label symbol then some value else find_symbol table label

-- `aborted` is the failing `assert` on a symbol that is too long for its array.
pub data Added : Type 0 where
  added : SymbolTable → Added
  refused aborted : Added

unfoldable pub add_symbol : SymbolTable → Text → ℕ → Added
add_symbol table symbol value =
    if length table == max_number_of_symbols
    then refused
    else if ltb (length symbol) max_symbol_size
    then added (table ++ (symbol, value) ∷ [])
    else aborted

unfoldable pub add_label : SymbolTable → Text → ℕ → Added
add_label table line address =
    let (label, i) = get_word line b':' max_symbol_size in
    if ltb i max_symbol_size then add_symbol table label address else refused

unfoldable pub same_address : Option ℕ → ℕ → Bool
same_address none address = false
same_address (some ist_address) address = ist_address == address

unfoldable pub check_label : SymbolTable → Text → ℕ → Bool
check_label table line address =
    let (label, i) = get_word line b':' max_symbol_size in
    if ltb i max_symbol_size then same_address (find_symbol table label) address else false
