-- ===== src/Assembler/SymbolFile.antt =====
-- FAsm, `fa.c`: `dump_symbol_table`, which writes the symbol table as a source file.
use fprcade.Common.{ℕ, List, [], ◌∷◌, ◌++◌, codes, four_digits}
use fprcade.Assembler.Text.{Text}
use fprcade.Assembler.Symbols.{SymbolTable}

-- `".def %s $%04x\n"`.
unfoldable pub symbol_line : Text → ℕ → Text
symbol_line symbol value =
    codes ".def " ++ (symbol ++ (codes " $" ++ (four_digits value ++ 10 ∷ [])))

unfoldable pub dump_symbol_table : SymbolTable → List Text
dump_symbol_table [] = []
dump_symbol_table ((symbol, value) ∷ table) = symbol_line symbol value ∷ dump_symbol_table table
