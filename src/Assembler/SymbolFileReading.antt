-- ===== src/Assembler/SymbolFileReading.antt =====
-- FAsm, `fa.c`: a line of the symbol file defines its symbol again.
use mathlib.Core.List.{append-nil, append_assoc}
use fprcade.Common.{
  length-append, ℕ, zero, suc, ◌≡◌, ◌<◌, ◌≤◌, ◌+◌, ◌%◌, arith, Bool, true, false, ◌==◌, leb, List,
  [], ◌∷◌, ◌++◌, refl, ap, ◌∙◌, codes, length, pos, u16, ltb_ℤ, negsuc, some,
}
use fprcade.Assembler.Text.{Text, is_space, skip_spaces, skip_word, get_word, same_text, all_ok}
use fprcade.Assembler.Symbols.{SymbolTable, add_symbol, added}
use fprcade.Assembler.Hex.{HexWriter, hex_word}
use fprcade.Assembler.Numbers.{number}
use fprcade.Assembler.NumberLaws.{read_number-hex_word}
use fprcade.Assembler.Instructions.{scan, Progress, Outcome, returns, is_ok}
use fprcade.Assembler.Directives.{
  directed, dot_def_generator, def_value, def_added, find_directive, directive_generators,
  after_directive,
}
use fprcade.Assembler.DirectiveTermination.{run_directive}
use fprcade.Assembler.DirectiveLaws.{parse_directive-eq-run_directive}
use fprcade.Assembler.Lines.{strip_line, remove_remarks, is_label, is_directive}
use fprcade.Assembler.Passes.{assemble_line, assemble_lines}
use fprcade.Assembler.WordLaws.{Letters, Fits, get_word-append, get_word_whole}
use fprcade.Assembler.SymbolFile.{symbol_line, dump_symbol_table}
use fprcade.Assembler.SymbolFileLaws.{
  Plain, upper, definition, strip_line-symbol_line, hex_word-Letters,
}

skip_word-append : (w rest : Text) → Letters w → skip_word (w ++ 32 ∷ rest) ≡ 32 ∷ rest
unfolding skip_word is_space
skip_word-append [] rest l = refl
skip_word-append (c ∷ w) rest l = rw (skip_word, l.0) (skip_word-append w rest l.2)

skip_one : (line : Text) → skip_spaces (32 ∷ line) ≡ skip_spaces line
unfolding skip_spaces is_space
skip_one line = refl

skip_spaces-append :
    (w rest : Text) → Letters w → 0 < length w → skip_spaces (w ++ rest) ≡ w ++ rest
unfolding skip_spaces
skip_spaces-append [] rest l h = absurd (omega arith)
skip_spaces-append (c ∷ w) rest l h = rw (l.0) refl

def-Fits : Fits (codes ".DEF")
unfolding is_space
def-Fits = (
  (refl, omega arith, (refl, omega arith, (refl, omega arith, (refl, omega arith, tt)))),
  omega arith,
  omega arith,
)

value-Fits : (v : ℕ) → v < 65536 → Fits (b'$' ∷ hex_word v)
unfolding is_space
value-Fits v h = ((refl, omega arith, hex_word-Letters v h), omega arith, omega arith)

-- The name of the directive.
get_word-definition :
    (symbol : Text) (v : ℕ) → get_word (definition symbol v) 32 32 ≡ (codes ".DEF", 4)
get_word-definition symbol v =
    get_word-append (codes ".DEF") (32 ∷ (symbol ++ (codes " $" ++ hex_word v))) def-Fits refl

find_directive_def : find_directive directive_generators (codes ".DEF") ≡ some dot_def_generator
unfolding find_directive directive_generators same_text
find_directive_def = refl

def_value-number :
    (symbol : Text) (table table' : SymbolTable) (h : HexWriter) (address v : ℕ)
    → v < 65536
    → add_symbol table symbol v ≡ added table'
    → def_value symbol table h address (number (pos v) false) ≡ directed table' h address all_ok
unfolding def_value def_added
def_value-number symbol table table' h address v p e =
    let same : v % 65536 ≡ v = omega arith in
    let fits : ltb_ℤ (pos 65535) (pos v) ≡ false = ground arith in
    let above : ltb_ℤ (pos v) (negsuc 32767) ≡ false = ground arith in
    rw (fits, above, same, e) refl

dot_def_generator-definition :
    (fuel : ℕ) (symbol : Text) (table table' : SymbolTable) (h : HexWriter) (address v : ℕ)
    → Fits symbol
    → v < 65536
    → add_symbol table symbol v ≡ added table'
    → dot_def_generator fuel (definition symbol v) scan table h address
      ≡ directed table' h address all_ok
unfolding dot_def_generator
dot_def_generator-definition fuel symbol table table' h address v f p e =
    rw
      (
        first_rest,
        name,
        skip_word-append symbol (b'$' ∷ hex_word v) f.0,
        second_rest,
        get_word_whole (b'$' ∷ hex_word v) (value-Fits v p),
        some_name,
        short_name,
        read_number-hex_word v table all_ok p,
        def_value-number symbol table table' h address v p e,
      )
      refl
  where
    rest : Text
    rest = symbol ++ (32 ∷ (b'$' ∷ hex_word v))

    first_rest : skip_spaces (skip_word (definition symbol v)) ≡ rest
    first_rest =
        ap skip_spaces (skip_word-append (codes ".DEF") rest def-Fits.0)
        ∙ skip_one rest
        ∙ skip_spaces-append symbol (32 ∷ (b'$' ∷ hex_word v)) f.0 f.1

    name : get_word rest 32 32 ≡ (symbol, length symbol)
    name = get_word-append symbol (32 ∷ (b'$' ∷ hex_word v)) f refl

    second_rest : skip_spaces (32 ∷ (b'$' ∷ hex_word v)) ≡ b'$' ∷ hex_word v
    second_rest = unfold skip_spaces is_space in refl

    some_name : (length symbol == 0) ≡ false
    some_name = ground (arith, f.1)

    short_name : leb 32 (length symbol) ≡ false
    short_name = ground (arith, f.2)

assemble_line-definition :
    (fuel : ℕ) (symbol : Text) (v : ℕ) (p : Progress) (table' : SymbolTable)
    → Fits symbol
    → v < 65536
    → add_symbol p.table symbol v ≡ added table'
    → assemble_line fuel scan (definition symbol v) p
      ≡ returns (record p { table = table'; address = u16 p.address; all_ok = true })
unfolding assemble_line is_label is_directive is_space
assemble_line-definition fuel symbol v p table' f h e =
    parse_directive-eq-run_directive fuel (definition symbol v) scan p
      (rw (get_word-definition symbol v) refl)
    ∙ rw
        (
          get_word-definition symbol v,
          find_directive_def,
          run_directive,
          dot_def_generator-definition fuel symbol p.table table' p.hex p.address v f h e,
        )
        (unfold after_directive directed is_ok in refl)

-- The names that can be read back: of letters, in upper case, with no quote and no ';'.
abbrev pub IsName : Text → Type 0
IsName symbol = Fits symbol × Plain symbol × (upper symbol ≡ symbol)

abbrev pub AllNames : SymbolTable → Type 0
AllNames [] = Unit
AllNames ((symbol, v) ∷ table) = IsName symbol × (v < 65536) × AllNames table

add_symbol-append :
    (table : SymbolTable) (symbol : Text) (v : ℕ)
    → Fits symbol
    → length table < 1024
    → add_symbol table symbol v ≡ added (table ++ (symbol, v) ∷ [])
unfolding add_symbol
add_symbol-append table symbol v f h = ground (arith, f.2)

-- One line of a pass, without an error.
next_line :
    (fuel : ℕ) (line stripped : Text) (lines : List Text) (p p' : Progress)
    → strip_line (remove_remarks line) ≡ (stripped, true)
    → assemble_line fuel scan stripped p ≡ returns p'
    → p'.all_ok ≡ true
    → assemble_lines (suc fuel) scan (line ∷ lines) p ≡ assemble_lines fuel scan lines p'
unfolding assemble_lines
next_line fuel line stripped lines p p' e f k =
    let text : (strip_line (remove_remarks line)).0 ≡ stripped = ap (λ (x : Text × Bool). x.0) e in
    let ends : (strip_line (remove_remarks line)).1 ≡ true = ap (λ (x : Text × Bool). x.1) e in
    rw (assemble_lines, ends, text, f)
      (ap {B = Outcome Progress}
        (λ (b : Bool). elim b [ true ↦ assemble_lines fuel scan lines p' | false ↦ returns p' ]) k)

-- The symbol file of a table of 16 bit values whose names can be read back, read in the first pass
-- with more fuel than it has lines, enters just the entries of the table, in their order, after
-- those that are there, where there is room for all of them, and leaves the rest of the state.
pub assemble_lines-dump_symbol_table :
    (fuel : ℕ) (table : SymbolTable) (p : Progress)
    → AllNames table
    → length p.table + length table ≤ 1024
    → length table < fuel
    → p.address < 65536
    → p.all_ok ≡ true
    → assemble_lines fuel scan (dump_symbol_table table) p
      ≡ returns (record p { table = p.table ++ table })
unfolding assemble_lines dump_symbol_table
assemble_lines-dump_symbol_table zero table p n r f a k = elim f [ ]
assemble_lines-dump_symbol_table (suc fuel) [] p n r f a k = rw append-nil refl
assemble_lines-dump_symbol_table (suc fuel) ((symbol, v) ∷ table) p n r f a k =
    let more : SymbolTable = p.table ++ (symbol, v) ∷ [] in
    let same : u16 p.address ≡ p.address = omega arith in
    next_line fuel (symbol_line symbol v) (definition symbol v) (dump_symbol_table table) p _
      (strip_line-symbol_line symbol v n.0.1 n.0.2 n.1)
      (assemble_line-definition fuel symbol v p more n.0.0 n.1
        (add_symbol-append p.table symbol v n.0.0 (omega arith)))
      refl
    ∙ rw (same, ← k)
        (assemble_lines-dump_symbol_table fuel table (record p { table = more }) n.2
            (omega (arith, length-append p.table ((symbol, v) ∷ []))) (omega arith) a k
          ∙ rw (append_assoc p.table ((symbol, v) ∷ []) table) refl)
