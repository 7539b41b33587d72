-- ===== src/Assembler/DirectiveTermination.antt =====
-- FAsm, `fa.c`: each directive ends on fuel that its line's length gives.
use fprcade.Common.{
  ℕ, ◌≡◌, ◌<◌, arith, true, false, ◌==◌, List, [], ◌∷◌, Option, none, some, refl, length,
  Bool-cases, inl, inr,
}
use fprcade.Assembler.Text.{Text, get_word, skip_spaces, skip_word, same_text, all_ok}
use fprcade.Assembler.Symbols.{SymbolTable, Added, added, refused, aborted}
use fprcade.Assembler.Numbers.{Number, number, failed, overflow, read_number}
use fprcade.Assembler.Hex.{HexWriter}
use fprcade.Assembler.Instructions.{
  Phase, scan, assembling, Progress, Outcome, returns, undefined, out_of_fuel,
}
use fprcade.Assembler.Directives.{
  Directed, directed, DirectiveGenerator, dot_b_generator, dot_str_generator, dot_w_generator,
  dot_l_generator, dot_align_generator, dot_org_generator, dot_def_generator, def_value, def_added,
  org_value, find_directive, directive_generators, after_directive, parse_directive,
}
use fprcade.Assembler.Termination.{
  ended, get_word-length, skip_spaces-length, skip_word-length, dot_b_loop-ended,
}

-- A directive that ends when its fuel is more than the length of its line.
abbrev Ends : DirectiveGenerator → Type 0
Ends g =
    (fuel : ℕ) (line : Text) (phase : Phase) (table : SymbolTable) (h : HexWriter) (address : ℕ)
    → length line < fuel
    → ended (g fuel line phase table h address) ≡ true

dot_str_generator-Ends : Ends dot_str_generator
unfolding dot_str_generator directed
dot_str_generator-Ends fuel line phase table h address p = ground arith

dot_w_generator-Ends : Ends dot_w_generator
unfolding dot_w_generator directed
dot_w_generator-Ends fuel line phase table h address p = refl

dot_l_generator-Ends : Ends dot_l_generator
unfolding dot_l_generator directed
dot_l_generator-Ends fuel line phase table h address p = refl

dot_align_generator-Ends : Ends dot_align_generator
unfolding dot_align_generator directed
dot_align_generator-Ends fuel line phase table h address p = refl

org_value-ended :
    (phase : Phase) (table : SymbolTable) (h : HexWriter) (address : ℕ) (n : Number)
    → ended (org_value phase table h address n) ≡ true
unfolding org_value directed
org_value-ended phase table h address (number v s) = ground arith
org_value-ended phase table h address (failed r) = refl
org_value-ended phase table h address overflow = refl

dot_org_generator-Ends : Ends dot_org_generator
unfolding dot_org_generator directed
dot_org_generator-Ends fuel line phase table h address p = ground (
  arith,
  org_value-ended phase table h address
      (read_number (get_word (skip_spaces (skip_word line)) 32 32).0 table all_ok),
)

def_added-ended :
    (h : HexWriter) (address : ℕ) (table : SymbolTable) (a : Added)
    → ended (def_added h address table a) ≡ true
unfolding def_added directed
def_added-ended h address table (added t) = refl
def_added-ended h address table refused = refl
def_added-ended h address table aborted = refl

def_value-ended :
    (symbol : Text) (table : SymbolTable) (h : HexWriter) (address : ℕ) (n : Number)
    → ended (def_value symbol table h address n) ≡ true
unfolding def_value directed
def_value-ended symbol table h address (number v s) =
    ground (arith, def_added-ended h address table)
def_value-ended symbol table h address (failed r) = refl
def_value-ended symbol table h address overflow = refl

dot_def_generator-Ends : Ends dot_def_generator
unfolding dot_def_generator directed
dot_def_generator-Ends fuel line assembling table h address p = refl
dot_def_generator-Ends fuel line scan table h address p =
    ground (arith, def_value-ended symbol table h address (read_number word table all_ok))
  where
    rest : Text
    rest = skip_spaces (skip_word line)

    symbol : Text
    symbol = (get_word rest 32 32).0

    word : Text
    word = (get_word (skip_spaces (skip_word rest)) 32 32).0

dot_b_generator-Ends : Ends dot_b_generator
unfolding dot_b_generator directed
dot_b_generator-Ends fuel line phase table h address p = ground (
  arith,
  dot_b_loop-ended fuel word n rest phase table h address all_ok (get_word-length rest 32 32)
      enough,
)
  where
    rest : Text
    rest = skip_spaces (skip_word line)

    word : Text
    word = (get_word rest 32 32).0

    n : ℕ
    n = (get_word rest 32 32).1

    enough : length rest < fuel
    enough = omega (arith, skip_spaces-length (skip_word line), skip_word-length line)

-- Every directive of a table ends.
abbrev AllEnd : List (Text × DirectiveGenerator) → Type 0
AllEnd [] = Unit
AllEnd ((name, g) ∷ table) = Ends g × AllEnd table

directive_generators-AllEnd : AllEnd directive_generators
unfolding directive_generators
directive_generators-AllEnd = (
  dot_str_generator-Ends,
  (
    dot_b_generator-Ends,
    (
      dot_w_generator-Ends,
      (
        dot_l_generator-Ends,
        (dot_align_generator-Ends, (dot_org_generator-Ends, (dot_def_generator-Ends, tt))),
      ),
    ),
  ),
)

after_directive-ended : (o : Outcome Directed) → ended o ≡ true → ended (after_directive o) ≡ true
unfolding after_directive
after_directive-ended (returns d) h = refl
after_directive-ended undefined h = refl
after_directive-ended out_of_fuel h = h

-- What `parse_directive` does with the entry that it has found.
abbrev pub run_directive :
    Option DirectiveGenerator → ℕ → Text → Phase → Progress → Outcome Progress
run_directive none fuel line phase p = returns (record p { all_ok = false })
run_directive (some g) fuel line phase p =
    after_directive (g fuel line phase p.table p.hex p.address)

find_directive-ended :
    (table : List (Text × DirectiveGenerator)) (name : Text) (fuel : ℕ) (line : Text)
    (phase : Phase) (p : Progress)
    → AllEnd table
    → length line < fuel
    → ended (run_directive (find_directive table name) fuel line phase p) ≡ true
unfolding find_directive
find_directive-ended [] name fuel line phase p h k = refl
find_directive-ended ((x, g) ∷ table) name fuel line phase p h k =
    elim (Bool-cases (same_text name x)) [
      | inl e ↦
          rw (run_directive, e)
            (after_directive-ended _ (h.0 fuel line phase p.table p.hex p.address k))
      | inr e ↦ rw (run_directive, e) (find_directive-ended table name fuel line phase p h.1 k)
    ]

pub parse_directive-ended :
    (fuel : ℕ) (line : Text) (phase : Phase) (p : Progress)
    → length line < fuel
    → ended (parse_directive fuel line phase p) ≡ true
unfolding parse_directive
parse_directive-ended fuel line phase p h = elim (Bool-cases ((get_word line 32 32).1 == 32)) [
  | inl e ↦ rw (ended, e) refl
  | inr e ↦
      rw (ended, e)
        (go (find_directive directive_generators (get_word line 32 32).0) (
          find_directive-ended directive_generators (get_word line 32 32).0 fuel line phase p
            directive_generators-AllEnd h))
]
  where
    go :
        (o : Option DirectiveGenerator)
        → ended (run_directive o fuel line phase p) ≡ true
        → ended (elim o [
          | none ↦ returns (record p { all_ok = false })
          | some g ↦ after_directive (g fuel line phase p.table p.hex p.address)
        ])
          ≡ true
    go none k = k
    go (some g) k = k
