-- ===== src/Assembler/LineLaws.antt =====
-- FAsm, `fa.c`: remarks, stripping, and the split of an instruction into words.
use fprcade.Common.{
  ℕ, zero, suc, ◌≡◌, ◌⊎◌, inl, inr, arith, Bool, true, false, not, ◌&&◌, ◌==◌, ltb, ◌+◌, ◌%◌, ◌∙◌,
  if◌then◌else◌, [], ◌∷◌, refl, ap, Bool-cases, get_or, take, length,
}
use native.Mathlib.Nat.{suc-add, add-suc}
use fprcade.Assembler.Text.{Text, is_space, skip_spaces}
use fprcade.Assembler.Lines.{
  remove_remarks_from, remove_remarks, copy_line, stripped_char, to_upper, cons_unless_blank,
  drop_trailing, strip_line,
}

-- The number of quotes in a text.
abbrev pub quotes : Text → ℕ
quotes [] = 0
quotes (c ∷ line) = if c == b'"' then suc (quotes line) else quotes line

-- A ';' at this index that is outside the strings: with an even number of quotes before it.
abbrev pub is_bare : ℕ → Text → Bool
is_bare i line = get_or line i 0 == b';' && quotes (take i line) % 2 == 0

-- The same, where n quotes came before the line.
bare_after : ℕ → ℕ → Text → Bool
bare_after n i line = get_or line i 0 == b';' && (quotes (take i line) + n) % 2 == 0

bare_after-zero : (i : ℕ) (line : Text) → bare_after 0 i line ≡ is_bare i line
unfolding bare_after
bare_after-zero i line =
    let e : quotes (take i line) + 0 ≡ quotes (take i line) = omega arith in
    ap (λ (q : ℕ). get_or line i 0 == b';' && q % 2 == 0) e

counted : ℕ → ℕ → ℕ
counted c n = if c == b'"' then suc n else n

bare_after-suc :
    (n i c : ℕ) (line : Text) → bare_after n (suc i) (c ∷ line) ≡ bare_after (counted c n) i line
unfolding bare_after counted
bare_after-suc n i c line = elim (Bool-cases (c == b'"')) [
  | inl e ↦ rw (e, suc-add (quotes (take i line)) n, add-suc (quotes (take i line)) n) refl
  | inr e ↦ rw e refl
]

-- Inside a string after an odd number of quotes.
odd-counted :
    (inside : Bool) (n c : ℕ)
    → inside ≡ n % 2 == 1
    → (if inside then not (c == b'"') else c == b'"') ≡ counted c n % 2 == 1
unfolding counted
odd-counted true n c h = ground arith
odd-counted false n c h = ground arith

remove_remarks_from-prefix :
    (inside : Bool) (line : Text)
    → remove_remarks_from inside line ≡ take (length (remove_remarks_from inside line)) line
unfolding remove_remarks_from
remove_remarks_from-prefix true [] = refl
remove_remarks_from-prefix false [] = refl
remove_remarks_from-prefix true (c ∷ line) =
    ap (λ (t : Text). c ∷ t) (remove_remarks_from-prefix (not (c == b'"')) line)
remove_remarks_from-prefix false (c ∷ line) = elim (Bool-cases (c == b';')) [
  | inl e ↦ rw e refl
  | inr e ↦ rw e (ap (λ (t : Text). c ∷ t) (remove_remarks_from-prefix (c == b'"') line))
]

ltb-suc : (i n : ℕ) → ltb (suc i) (suc n) ≡ ltb i n
ltb-suc i n = ground arith

-- What is kept has no remark's ';'.
kept_free :
    (inside : Bool) (n i : ℕ) (line : Text)
    → inside ≡ n % 2 == 1
    → (ltb i (length (remove_remarks_from inside line)) && bare_after n i line) ≡ false
unfolding remove_remarks_from
kept_free true n i [] h = ground arith
kept_free false n i [] h = ground arith
kept_free true n zero (c ∷ line) h = unfold bare_after in (ground arith)
kept_free true n (suc i) (c ∷ line) h =
    rw (ltb-suc i _, bare_after-suc n i c line)
      (kept_free (not (c == b'"')) (counted c n) i line (odd-counted true n c h))
kept_free false n zero (c ∷ line) h = unfold bare_after in (ground arith)
kept_free false n (suc i) (c ∷ line) h = elim (Bool-cases (c == b';')) [
  | inl e ↦ rw e (ground arith)
  | inr e ↦
      rw (e, ltb-suc i _, bare_after-suc n i c line)
        (kept_free (c == b'"') (counted c n) i line (odd-counted false n c h))
]

-- A character in front of a line, of which this much is kept.
cut_further :
    (n c : ℕ) (line kept : Text)
    → (kept ≡ line) ⊎ (bare_after (counted c n) (length kept) line ≡ true)
    → (c ∷ kept ≡ c ∷ line) ⊎ (bare_after n (length (c ∷ kept)) (c ∷ line) ≡ true)
cut_further n c line kept (inl e) = inl (ap (λ (t : Text). c ∷ t) e)
cut_further n c line kept (inr e) = inr (bare_after-suc n (length kept) c line ∙ e)

-- What is cut off begins with the remark's ';'.
cut_bare :
    (inside : Bool) (n : ℕ) (line : Text)
    → inside ≡ n % 2 == 1
    → (remove_remarks_from inside line ≡ line)
      ⊎ (bare_after n (length (remove_remarks_from inside line)) line ≡ true)
unfolding remove_remarks_from
cut_bare true n [] h = inl refl
cut_bare false n [] h = inl refl
cut_bare true n (c ∷ line) h =
    cut_further n c line _ (cut_bare (not (c == b'"')) (counted c n) line (odd-counted true n c h))
cut_bare false n (c ∷ line) h = elim (Bool-cases (c == b';')) [
  | inl e ↦ rw e (inr (unfold bare_after in (ground arith)))
  | inr e ↦
      rw e
        (cut_further n c line _ (cut_bare (c == b'"') (counted c n) line (odd-counted false n c h)))
]

remove_remarks_from_self :
    (inside : Bool) (line : Text)
    → remove_remarks_from inside (remove_remarks_from inside line) ≡ remove_remarks_from inside line
unfolding remove_remarks_from
remove_remarks_from_self true [] = refl
remove_remarks_from_self false [] = refl
remove_remarks_from_self true (c ∷ line) =
    ap (λ (t : Text). c ∷ t) (remove_remarks_from_self (not (c == b'"')) line)
remove_remarks_from_self false (c ∷ line) = elim (Bool-cases (c == b';')) [
  | inl e ↦ rw e refl
  | inr e ↦ rw (e, e) (ap (λ (t : Text). c ∷ t) (remove_remarks_from_self (c == b'"') line))
]

-- Removing remarks leaves the part of a line before its first ';' that has an even number of quotes
-- before it, or all of a line that has none: what is left is a beginning of the line with no such ';',
-- and it is the whole line or is followed by one. Removing remarks again changes nothing.
pub remove_remarks_lem :
    (line : Text) (i : ℕ)
    → (remove_remarks line ≡ take (length (remove_remarks line)) line)
      × ((ltb i (length (remove_remarks line)) && is_bare i line) ≡ false)
      × ((remove_remarks line ≡ line) ⊎ (is_bare (length (remove_remarks line)) line ≡ true))
      × (remove_remarks (remove_remarks line) ≡ remove_remarks line)
unfolding remove_remarks
remove_remarks_lem line i = (
  remove_remarks_from-prefix false line,
  rw (bare_after-zero i line) at (kept_free false 0 i line refl),
  rw (bare_after-zero (length (remove_remarks_from false line)) line) at
      (cut_bare false 0 line refl),
  remove_remarks_from_self false line,
)

-- A text that begins with no space.
abbrev pub Unindented : Text → Type 0
Unindented [] = Unit
Unindented (c ∷ line) = is_space c ≡ false

skip_spaces-Unindented : (line : Text) → Unindented (skip_spaces line)
unfolding skip_spaces
skip_spaces-Unindented [] = tt
skip_spaces-Unindented (c ∷ line) = elim (Bool-cases (is_space c)) [
  | inl e ↦ rw e (skip_spaces-Unindented line)
  | inr e ↦ rw e e
]

stripped_char-is_space :
    (s k : Bool) (c : ℕ) → is_space c ≡ false → is_space (stripped_char s k c) ≡ false
unfolding stripped_char to_upper is_space
stripped_char-is_space s k c h = ground arith

copy_line-Unindented :
    (s k : Bool) (line : Text) → Unindented line → Unindented (copy_line s k line).0
unfolding copy_line
copy_line-Unindented s k [] h = tt
copy_line-Unindented s k (c ∷ line) h = stripped_char-is_space _ _ c h

drop_trailing-Unindented : (line : Text) → Unindented line → Unindented (drop_trailing line)
unfolding drop_trailing
drop_trailing-Unindented [] h = tt
drop_trailing-Unindented (c ∷ line) h = go (drop_trailing line)
  where
    go : (t : Text) → Unindented (cons_unless_blank c t)
    go [] = unfold cons_unless_blank in (rw h h)
    go (d ∷ t) = unfold cons_unless_blank in h

skip_spaces-eq_of_Unindented : (line : Text) → Unindented line → skip_spaces line ≡ line
unfolding skip_spaces
skip_spaces-eq_of_Unindented [] h = refl
skip_spaces-eq_of_Unindented (c ∷ line) h = rw h

cons_unless_blank-stays :
    (c : ℕ) (t : Text)
    → drop_trailing t ≡ t
    → drop_trailing (cons_unless_blank c t) ≡ cons_unless_blank c t
unfolding drop_trailing cons_unless_blank
cons_unless_blank-stays c [] h = elim (Bool-cases (is_space c)) [ inl e ↦ rw e | inr e ↦ rw (e, e) ]
cons_unless_blank-stays c (d ∷ t) h = rw (h, cons_unless_blank)

drop_trailing_self : (line : Text) → drop_trailing (drop_trailing line) ≡ drop_trailing line
unfolding drop_trailing
drop_trailing_self [] = refl
drop_trailing_self (c ∷ line) =
    cons_unless_blank-stays c (drop_trailing line) (drop_trailing_self line)

-- A stripped line has no space at its beginning and none at its end: dropping either changes nothing.
strip_line-trimmed :
    (line : Text)
    → (skip_spaces (strip_line line).0 ≡ (strip_line line).0)
      × (drop_trailing (strip_line line).0 ≡ (strip_line line).0)
unfolding strip_line
strip_line-trimmed line = (
  skip_spaces-eq_of_Unindented (drop_trailing (copy_line false false (skip_spaces line)).0) (
      drop_trailing-Unindented (copy_line false false (skip_spaces line)).0
        (copy_line-Unindented false false (skip_spaces line) (skip_spaces-Unindented line))),
  drop_trailing_self (copy_line false false (skip_spaces line)).0,
)
