-- ===== src/Forth/FindLaws.antt =====
-- The dictionary as the list of its entries, and the search for an opcode.
use fprcade.Common.{
  ℕ, zero, suc, ◌≡◌, ◌≢◌, refl, ap, ◌∙◌, Bool, true, false, List, [], ◌∷◌, length, Option, none,
  some, ◌==◌, if◌then◌else◌, ◌+◌, ◌≤◌, ◌<◌, arith,
}
use fprcade.Forth.State.{
  ForthContext, Outcome, done, stop, assert_failed, F, pure, stops, ff_memory_size, get_dict_head,
}
use fprcade.Forth.Memory.{fetch16ubits}
use fprcade.Forth.Dictionary.{get_code_field, opcode_walk, find_via_opcode}
use fprcade.Forth.MemoryLaws.{word_at, bind_ok, fetch_ok}
use fprcade.Forth.CodeLaws.{code_at, code_ok}

-- The entries from h on, the newest first: each stands after the variables and refers to an older one
-- below it, or to 0 where there is none.
pub data Chain (d : ℕ → ℕ) : ℕ → List ℕ → Type 0 where
  no_entry : Chain d 0 []
  entry :
      {h p : ℕ} {entries : List ℕ}
      → 1166 ≤ h
      → h + 12 ≤ 65536
      → word_at d h ≡ p
      → p < h
      → Chain d p entries
      → Chain d h (h ∷ entries)

-- The newest entry with an opcode.
unfoldable pub first_with : (ℕ → ℕ) → ℕ → List ℕ → Option ℕ
first_with d opcode [] = none
first_with d opcode (e ∷ entries) =
    if code_at d e == opcode then some e else first_with d opcode entries

abbrev pub found_or_failed : Option ℕ → ForthContext → Outcome (ℕ × ForthContext)
found_or_failed none c = stop assert_failed
found_or_failed (some e) c = done (e, c)

Chain-length : {d : ℕ → ℕ} {h : ℕ} {entries : List ℕ} → Chain d h entries → length entries ≤ h
Chain-length no_entry = omega arith
Chain-length (entry g k e l rest) = omega (arith, Chain-length rest)

pub Chain-bound : {d : ℕ → ℕ} {h : ℕ} {entries : List ℕ} → Chain d h entries → h + 12 ≤ 65536
Chain-bound no_entry = omega arith
Chain-bound (entry g k e l rest) = k

-- A choice of pieces, run.
pub if_run :
    {A : Type 0} (b : Bool) (m n : F A) (c : ForthContext)
    → (if b then m else n) c ≡ (if b then m c else n c)
if_run true m n c = refl
if_run false m n c = refl

walk_here :
    (n opcode h : ℕ) (c : ForthContext) {p : ℕ} {o : Outcome (ℕ × ForthContext)}
    → h + 12 ≤ 65536
    → word_at c.dataspace h ≡ p
    → (if p == 0 then stop assert_failed else opcode_walk n opcode p c) ≡ o
    → opcode_walk (suc n) opcode h c ≡ (if code_at c.dataspace h == opcode then done (h, c) else o)
unfolding opcode_walk
walk_here n opcode h c {p} {o} k e r =
    bind_ok (get_code_field h) _ c (code_ok h c (omega arith))
    ∙ bind_ok (fetch16ubits h) _ c (fetch_ok h c (omega arith) ∙ ap (λ (x : ℕ). done (x, c)) e)
    ∙ if_run (code_at c.dataspace h == opcode) (pure h)
        (if p == 0 then stops assert_failed else opcode_walk n opcode p) c
    ∙ ap
        (λ (x : Outcome (ℕ × ForthContext)).
          if code_at c.dataspace h == opcode then done (h, c) else x)
        (if_run (p == 0) (stops assert_failed) (opcode_walk n opcode p) c ∙ r)

not_zero : (p : ℕ) → p ≢ 0 → (p == 0) ≡ false
not_zero p h = ground arith

found_choice :
    (b : Bool) (h : ℕ) (o : Option ℕ) (c : ForthContext)
    → (if b then done (h, c) else found_or_failed o c) ≡ found_or_failed (if b then some h else o) c
found_choice true h o c = refl
found_choice false h o c = refl

opcode_walk_ok :
    (c : ForthContext) (n opcode h : ℕ) (entries : List ℕ)
    → Chain c.dataspace h entries
    → h ≢ 0
    → length entries ≤ n
    → opcode_walk n opcode h c ≡ found_or_failed (first_with c.dataspace opcode entries) c
unfolding first_with
opcode_walk_ok c n opcode h _ no_entry z l = absurd (z refl)
opcode_walk_ok c zero opcode h _ (entry g k e m rest) z l = absurd (omega arith)
opcode_walk_ok c (suc n) opcode h _ (entry g k e m no_entry) z l =
    walk_here n opcode h c k e refl ∙ found_choice (code_at c.dataspace h == opcode) h none c
opcode_walk_ok c (suc n) opcode h _ (entry {p} g k e m (entry {entries} g' k' e' m' rest)) z l =
    walk_here n opcode h c k e (
      ap (λ (b : Bool). if b then stop assert_failed else opcode_walk n opcode p c)
        (not_zero p (omega arith))
      ∙ opcode_walk_ok c n opcode p (p ∷ entries) (entry g' k' e' m' rest) (omega arith)
          (omega (arith, l)))
    ∙ found_choice (code_at c.dataspace h == opcode) h (first_with c.dataspace opcode (p ∷ entries))
        c

-- On a dictionary that is not empty `find_via_opcode` returns the newest entry with the opcode, and
-- fails its assertion where there is none; the search always ends.
pub find_via_opcode-first_with :
    (opcode : ℕ) (c : ForthContext) (entries : List ℕ)
    → Chain c.dataspace c.dict_head entries
    → c.dict_head ≢ 0
    → find_via_opcode opcode c ≡ found_or_failed (first_with c.dataspace opcode entries) c
unfolding find_via_opcode get_dict_head
find_via_opcode-first_with opcode c entries chain z =
    opcode_walk_ok c ff_memory_size opcode c.dict_head entries chain z
      (omega (arith, Chain-length chain, Chain-bound chain))
