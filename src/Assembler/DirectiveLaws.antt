-- ===== src/Assembler/DirectiveLaws.antt =====
-- FAsm, `fa.c`: the two passes agree on what `parse_directive` takes.
use fprcade.Assembler.DirectiveTermination.{run_directive}
use fprcade.Common.{
  codes, Option, none, some, ℕ, ◌≡◌, arith, true, false, List, [], ◌∷◌, refl, Bool-cases, inl, inr,
  ◌==◌,
}
use fprcade.Assembler.Text.{
  Text, same_text, ErrorReason, all_ok, unknown_directive, syntax_error, directive_too_long,
  address_error, stack_id_error, get_word,
}
use fprcade.Assembler.Instructions.{
  is_ok, Progress, Phase, scan, assembling, Outcome, returns, undefined, out_of_fuel,
}
use fprcade.Assembler.Directives.{
  Directed, DirectiveGenerator, directive_generators, find_directive, after_directive,
  parse_directive,
}
use fprcade.Assembler.DirectiveCounts.{
  Agrees, dot_str_generator-Agrees, dot_b_generator-Agrees, dot_w_generator-Agrees,
  dot_l_generator-Agrees, dot_align_generator-Agrees, dot_org_generator-Agrees,
}

-- The entry that is found agrees.
abbrev Covered : Text → List (Text × DirectiveGenerator) → Type 0
Covered name [] = Unit
Covered name ((x, g) ∷ table) = (same_text name x ≡ true → Agrees g) × Covered name table

directive_generators-Covered :
    (name : Text) → same_text name (codes ".DEF") ≡ false → Covered name directive_generators
unfolding directive_generators
directive_generators-Covered name h = (
  (λ _. dot_str_generator-Agrees),
  (
    (λ _. dot_b_generator-Agrees),
    (
      (λ _. dot_w_generator-Agrees),
      (
        (λ _. dot_l_generator-Agrees),
        (
          (λ _. dot_align_generator-Agrees),
          ((λ _. dot_org_generator-Agrees), ((λ e. absurd (ground (arith, e, h))), tt)),
        ),
      ),
    ),
  ),
)

all_ok_of_is_ok : (r : ErrorReason) → is_ok r ≡ true → r ≡ all_ok
unfolding is_ok
all_ok_of_is_ok all_ok e = refl
all_ok_of_is_ok unknown_directive e = absurd (ground arith)
all_ok_of_is_ok syntax_error e = absurd (ground arith)
all_ok_of_is_ok directive_too_long e = absurd (ground arith)
all_ok_of_is_ok address_error e = absurd (ground arith)
all_ok_of_is_ok stack_id_error e = absurd (ground arith)

-- What the first pass leaves of the state that the second one has left.
abbrev pub only_counted : Progress → Progress → Progress
only_counted p q = record q { hex = p.hex; table = p.table }

run_directive-Agrees :
    (g : DirectiveGenerator) (fuel : ℕ) (line : Text) (p q : Progress)
    → Agrees g
    → run_directive (some g) fuel line assembling p ≡ returns q
    → q.all_ok ≡ true
    → run_directive (some g) fuel line scan p ≡ returns (only_counted p q)
unfolding after_directive is_ok
run_directive-Agrees g fuel line p q a e k =
    go (g fuel line assembling p.table p.hex p.address) refl
  where
    go :
        (o : Outcome Directed)
        → g fuel line assembling p.table p.hex p.address ≡ o
        → run_directive (some g) fuel line scan p ≡ returns (only_counted p q)
    go (returns d) f =
        let e' : after_directive (returns d) ≡ returns q = rw (run_directive, f) at e in
        let r : d.reason ≡ all_ok = all_ok_of_is_ok d.reason (ground (arith, e', k)) in
        rw (run_directive, a fuel line p.table p.hex p.address d f r) (ground (arith, e', k, r))
    go undefined f =
        let e' : after_directive undefined ≡ returns q = rw (run_directive, f) at e in
        absurd (ground (arith, e'))
    go out_of_fuel f =
        let e' : after_directive out_of_fuel ≡ returns q = rw (run_directive, f) at e in
        absurd (ground (arith, e'))

find_directive-agrees :
    (table : List (Text × DirectiveGenerator)) (name : Text) (fuel : ℕ) (line : Text)
    (p q : Progress)
    → Covered name table
    → run_directive (find_directive table name) fuel line assembling p ≡ returns q
    → q.all_ok ≡ true
    → run_directive (find_directive table name) fuel line scan p ≡ returns (only_counted p q)
unfolding find_directive
find_directive-agrees [] name fuel line p q c e k = absurd (ground (arith, e, k))
find_directive-agrees ((x, g) ∷ table) name fuel line p q c e k =
    elim (Bool-cases (same_text name x)) [
      | inl b ↦
          rw (run_directive, b)
            (run_directive-Agrees g fuel line p q (c.0 b) (rw (run_directive, b) at e) k)
      | inr b ↦
          rw (run_directive, b)
            (find_directive-agrees table name fuel line p q c.1 (rw (run_directive, b) at e) k)
    ]

-- `parse_directive` runs the entry that it has found.
pub parse_directive-eq-run_directive :
    (fuel : ℕ) (line : Text) (phase : Phase) (p : Progress)
    → ((get_word line 32 32).1 == 32) ≡ false
    → parse_directive fuel line phase p
      ≡ run_directive
          (find_directive directive_generators (get_word line 32 32).0)
          fuel
          line
          phase
          p
unfolding parse_directive
parse_directive-eq-run_directive fuel line phase p h =
    rw (parse_directive, h) (go (find_directive directive_generators (get_word line 32 32).0))
  where
    go :
        (o : Option DirectiveGenerator)
        → (elim o [
          | none ↦ returns (record p { all_ok = false })
          | some g ↦ after_directive (g fuel line phase p.table p.hex p.address)
        ])
          ≡ run_directive o fuel line phase p
    go none = refl
    go (some g) = refl

-- Where the second pass meets no error in a directive other than `.DEF`, the first pass accepts the same
-- line from the same state, and leaves the address that the second pass leaves; it writes nothing and
-- keeps the symbol table.
pub parse_directive-agrees :
    (fuel : ℕ) (line : Text) (p q : Progress)
    → same_text (get_word line 32 32).0 (codes ".DEF") ≡ false
    → parse_directive fuel line assembling p ≡ returns q
    → q.all_ok ≡ true
    → parse_directive fuel line scan p ≡ returns (record q { hex = p.hex; table = p.table })
parse_directive-agrees fuel line p q h e k = elim (Bool-cases ((get_word line 32 32).1 == 32)) [
  | inl b ↦ absurd (ground (arith, refused b, e, k))
  | inr b ↦ rw (parse_directive-eq-run_directive fuel line scan p b) (
      find_directive-agrees directive_generators (get_word line 32 32).0 fuel line p q
        (directive_generators-Covered (get_word line 32 32).0 h)
        (rw (parse_directive-eq-run_directive fuel line assembling p b) at e) k)
]
  where
    refused :
        ((get_word line 32 32).1 == 32) ≡ true
        → parse_directive fuel line assembling p ≡ returns (record p { all_ok = false })
    refused b = unfold parse_directive in (rw (parse_directive, b) refl)
