-- ===== src/Assembler/SymbolLaws.antt =====
-- FAsm, `fa.c`: the symbol table finds the first definition of a label, and the second pass checks
-- the labels of the first.
use fprcade.Common.{
  ℕ, ◌≡◌, arith, Bool, true, ◌==◌, if◌then◌else◌, [], ◌∷◌, ◌++◌, Option, none, some, refl,
}
use fprcade.Assembler.Text.{Text, get_word, same_text}
use fprcade.Assembler.Symbols.{
  SymbolTable, find_symbol, added, add_symbol, add_label, check_label, same_address,
}

pub same_text_self : (a : Text) → same_text a a ≡ true
unfolding same_text
same_text_self [] = refl
same_text_self (x ∷ a) = ground (arith, same_text_self a)

-- The first of two results.
abbrev pub or_else : Option ℕ → Option ℕ → Option ℕ
or_else none o = o
or_else (some v) o = some v

-- An old entry wins over a new one.
pub find_symbol-append :
    (table more : SymbolTable) (label : Text)
    → find_symbol (table ++ more) label ≡ or_else (find_symbol table label) (find_symbol more label)
unfolding find_symbol
find_symbol-append [] more label = refl
find_symbol-append ((symbol, value) ∷ table) more label =
    ground (arith, find_symbol-append table more label)

-- After a symbol is added each name means what it meant before, and the added name, where it was not
-- there, means the added value: the first definition of a name stays in force.
pub find_symbol-add_symbol :
    (table table' : SymbolTable) (symbol label : Text) (value : ℕ)
    → add_symbol table symbol value ≡ added table'
    → find_symbol table' label
      ≡ or_else (find_symbol table label) (if same_text label symbol then some value else none)
unfolding add_symbol find_symbol
find_symbol-add_symbol table table' symbol label value h =
    ground (arith, find_symbol-append table ((symbol, value) ∷ []) label)

-- What the second pass says of a label's line, by what the name meant before the first pass met it.
abbrev pub first_or_same : Option ℕ → ℕ → Bool
first_or_same none address = true
first_or_same (some first) address = first == address

label_lem :
    (o : Option ℕ) (b : Bool) (address : ℕ)
    → b ≡ true
    → same_address (or_else o (if b then some address else none)) address ≡ first_or_same o address
unfolding same_address
label_lem none b address h = ground arith
label_lem (some v) b address h = refl

-- A label's line that the first pass accepts at an address passes the check of the second pass at
-- that address if its name was new; if it was not, exactly when the name has that same value.
pub check_label-add_label :
    (table table' : SymbolTable) (line : Text) (address : ℕ)
    → add_label table line address ≡ added table'
    → check_label table' line address
      ≡ first_or_same (find_symbol table (get_word line b':' 32).0) address
unfolding add_label check_label
check_label-add_label table table' line address h =
    let label : Text = (get_word line b':' 32).0 in
    ground (
      arith,
      find_symbol-add_symbol table table' label label address,
      same_text_self label,
      label_lem (find_symbol table label) (same_text label label) address,
    )
