-- ===== src/Assembler/DirectiveCounts.antt =====
-- FAsm, `fa.c`: each directive but `.def` takes the same in both passes.
use fprcade.Common.{
  ℕ, zero, suc, ◌≡◌, ◌+◌, arith, true, refl, drop, Bool-cases, inl, inr, lt→ltb, ltb, ◌==◌,
}
use fprcade.Assembler.Text.{
  Text, ErrorReason, all_ok, syntax_error, get_word, skip_spaces, skip_word,
}
use fprcade.Assembler.Symbols.{SymbolTable}
use fprcade.Assembler.Numbers.{Number, number, failed, overflow, read_number}
use fprcade.Assembler.Hex.{HexWriter, hex_push_byte}
use fprcade.Assembler.Instructions.{scan, assembling, Outcome, returns, undefined}
use fprcade.Assembler.Directives.{
  Directed, directed, DirectiveGenerator, ByteValue, byte_value, break_with, go_on_with,
  byte_undefined, byte_of, dot_b_loop, dot_b_generator, dot_str_generator, dot_align_generator,
  dot_org_generator, dot_w_generator, dot_l_generator, org_value, when_assembling,
}

-- The first pass of a directive takes what the second one has taken, and writes nothing.
abbrev pub Agrees : DirectiveGenerator → Type 0
Agrees g =
    (fuel : ℕ) (line : Text) (table : SymbolTable) (h : HexWriter) (address : ℕ) (d : Directed)
    → g fuel line assembling table h address ≡ returns d
    → d.reason ≡ all_ok
    → g fuel line scan table h address ≡ returns (record d { hex = h; table = table })

pub dot_str_generator-Agrees : Agrees dot_str_generator
unfolding dot_str_generator directed when_assembling
dot_str_generator-Agrees fuel line table h address d e k = ground arith

pub dot_align_generator-Agrees : Agrees dot_align_generator
unfolding dot_align_generator directed when_assembling
dot_align_generator-Agrees fuel line table h address d e k = ground arith

org_value-agrees :
    (table : SymbolTable) (h : HexWriter) (address : ℕ) (n : Number) (d : Directed)
    → org_value assembling table h address n ≡ returns d
    → d.reason ≡ all_ok
    → org_value scan table h address n ≡ returns (record d { hex = h; table = table })
unfolding org_value directed when_assembling
org_value-agrees table h address (number v s) d e k = ground arith
org_value-agrees table h address (failed r) d e k = ground arith
org_value-agrees table h address overflow d e k = absurd (ground arith)

pub dot_org_generator-Agrees : Agrees dot_org_generator
unfolding dot_org_generator directed
dot_org_generator-Agrees fuel line table h address d e k = elim (Bool-cases (found.1 == 0)) [
  | inl b ↦ absurd (ground (arith, b))
  | inr b ↦
      rw (dot_org_generator, b)
        (org_value-agrees table h address value d (rw (dot_org_generator, b) at e) k)
]
  where
    found : Text × ℕ
    found = get_word (skip_spaces (skip_word line)) 32 32

    value : Number
    value = read_number found.0 table all_ok

break_with_syntax_error :
    (n : Number) (r : ErrorReason) → byte_of n ≡ break_with r → r ≡ syntax_error
unfolding byte_of
break_with_syntax_error (number v s) r e = ground arith
break_with_syntax_error (failed x) r e = ground arith
break_with_syntax_error overflow r e = ground arith

-- What the loop of `.b` takes does not depend on the pass, nor on the reason that it starts with.
dot_b_loop-agrees :
    (fuel : ℕ) (word : Text) (n : ℕ) (line : Text) (table : SymbolTable) (h h' : HexWriter)
    (address : ℕ) (reason : ErrorReason) (d : Directed)
    → dot_b_loop fuel (word, n) line assembling table h address reason ≡ returns d
    → d.reason ≡ all_ok
    → dot_b_loop fuel (word, n) line scan table h' address all_ok
      ≡ returns (record d { hex = h'; table = table })
unfolding dot_b_loop directed
dot_b_loop-agrees zero word n line table h h' address reason d e k = absurd (ground arith)
dot_b_loop-agrees (suc fuel) word zero line table h h' address reason d e k = ground arith
dot_b_loop-agrees (suc fuel) word (suc n) line table h h' address reason d e k =
    go (byte_of (read_number word table reason)) refl λ h'' r f.
      dot_b_loop-agrees fuel (get_word line' 32 32).0 (get_word line' 32 32).1 line' table h'' h'
        (address + 1) r d f k
  where
    line' : Text
    line' = skip_spaces (drop (suc n) line)

    some_word : ltb 0 (suc n) ≡ true
    some_word = lt→ltb 0 (suc n) (omega arith)

    go :
        (b : ByteValue)
        → byte_of (read_number word table reason) ≡ b
        → ((h'' : HexWriter) (r : ErrorReason)
            → dot_b_loop fuel (get_word line' 32 32) line' assembling table h'' (address + 1) r
              ≡ returns d
            → dot_b_loop fuel (get_word line' 32 32) line' scan table h' (address + 1) all_ok
              ≡ returns (record d { hex = h'; table = table }))
        → dot_b_loop (suc fuel) (word, suc n) line scan table h' address all_ok
          ≡ returns (record d { hex = h'; table = table })
    go (byte_value v) eb next =
        rw (dot_b_loop, some_word)
          (next (hex_push_byte v h) reason (rw (dot_b_loop, some_word, eb) at e))
    go (go_on_with r) eb next =
        rw (dot_b_loop, some_word) (next h r (rw (dot_b_loop, some_word, eb) at e))
    go (break_with r) eb next =
        let stopped : directed table h (address + 1) r ≡ returns d =
          rw (dot_b_loop, some_word, eb) at e in
        absurd
          (ground (arith, stopped, break_with_syntax_error (read_number word table reason) r eb))
    go byte_undefined eb next =
        let stopped : ◌≡◌ {A = Outcome Directed} undefined (returns d) =
          rw (dot_b_loop, some_word, eb) at e in
        absurd (ground (arith, stopped))

pub dot_b_generator-Agrees : Agrees dot_b_generator
unfolding dot_b_generator directed
dot_b_generator-Agrees fuel line table h address d e k = elim (Bool-cases (found.1 == 0)) [
  | inl b ↦ absurd (ground (arith, b))
  | inr b ↦
      rw (dot_b_generator, b)
        (dot_b_loop-agrees fuel found.0 found.1 rest table h h address all_ok d
          (rw (dot_b_generator, b) at e) k)
]
  where
    rest : Text
    rest = skip_spaces (skip_word line)

    found : Text × ℕ
    found = get_word rest 32 32

pub dot_w_generator-Agrees : Agrees dot_w_generator
unfolding dot_w_generator directed
dot_w_generator-Agrees fuel line table h address d e k = ground arith

pub dot_l_generator-Agrees : Agrees dot_l_generator
unfolding dot_l_generator directed
dot_l_generator-Agrees fuel line table h address d e k = ground arith
