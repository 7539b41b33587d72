-- ===== src/Forth/AddLaws.antt =====
-- `add_core_word`: the new word becomes the newest entry, and the older ones stay as they are.
use mathlib.Core.Path.{subst}
use fprcade.Common.{
  ℕ, zero, suc, ◌≡◌, ◌≢◌, refl, sym, ap, ◌∙◌, ◌⊎◌, inl, inr, List, ◌∷◌, length, Option, some,
  get_or, ◌==◌, if◌then◌else◌, true, leb, u8, u16, bit_or, ◌+◌, ◌/◌, ◌%◌, ◌≤◌, ◌<◌, ◌<<<◌, arith,
}
use fprcade.Forth.State.{ForthContext, Outcome, done, stop, F, pure, get_dict_head, set_dict_head}
use fprcade.Forth.Memory.{read_at, write_at, put, fetch16ubits, store16ubits}
use fprcade.Forth.Dictionary.{
  set_code_field, copy_characters, copy_packed_string, add_dict_entry, find_via_opcode, i8_in_size,
  ef_dirty,
}
use fprcade.Forth.Interpreters.{add_core_word, clone_c_string}
use fprcade.Forth.MemoryLaws.{
  word_at, put_word, bind_ok, fetch_ok, store_ok, write_at_ok, read_at_ok, word_at-put_word,
  word_at-put_other,
}
use fprcade.Forth.CodeLaws.{code_at, small}
use fprcade.Forth.Outcomes.{Succeeds, succeeds, bind-Succeeds, by_value, after_Yields}
use fprcade.Forth.FindLaws.{
  Chain, no_entry, entry, Chain-bound, first_with, found_or_failed, find_via_opcode-first_with,
}
mod Entries
use fprcade.Forth.AddLaws.Entries.{Added, add_dict_entry_ok, put_apart, word_same}

-- What is known of the new entry once its opcode is set.
record Coded (h op : ℕ) (d : ℕ → ℕ) (head : ℕ) (c : ForthContext) : Type 0 where
  pub added : Added h d head c
  pub code : code_at c.dataspace h ≡ op

put_word_Added :
    (h head i v : ℕ) (d : ℕ → ℕ) (c : ForthContext)
    → h + 2 ≤ i
    → Added h d head c
    → Added h d head (record c { dataspace = put_word c.dataspace i v })
put_word_Added h head i v d c l a = record {
  below = λ j p q.
      put_apart (put c.dataspace i (v % 256)) (i + 1) j (v / 256 % 256) (omega arith)
      ∙ put_apart c.dataspace i j (v % 256) (omega arith)
      ∙ a.below j p q;
  link = word_at-put_other c.dataspace i h v (inr (omega arith)) ∙ a.link;
  at_head = a.at_head;
}

set_code_Coded :
    (h head op : ℕ) (d : ℕ → ℕ) (c : ForthContext)
    → 1166 ≤ h
    → h + 12 < 65536
    → op < 65536
    → Added h d head c
    → Succeeds (Coded h op d head) (set_code_field h op c)
unfolding set_code_field
set_code_Coded h head op d c k l m a =
    let d1 = put_word c.dataspace (h + 4) (u16 op) in
    let c1 = record c { dataspace = d1 } in
    by_value
      (bind_ok (store16ubits (h + 4) (u16 op)) _ c (store_ok (h + 4) (u16 op) c (omega arith))
        ∙ store_ok (h + 4 + 2) (op / 65536) c1 (omega arith))
      (record {
        added =
            put_word_Added h head (h + 4 + 2) (op / 65536) d c1 (omega arith)
              (put_word_Added h head (h + 4) (u16 op) d c (omega arith) a);
        code = omega (
          arith,
          word_at-put_other d1 (h + 4 + 2) (h + 4) (op / 65536) (inr (omega arith)),
          word_at-put_word c.dataspace (h + 4) (u16 op),
          word_at-put_word d1 (h + 4 + 2) (op / 65536),
        );
      })

flags_Coded :
    (h head op v : ℕ) (d : ℕ → ℕ) (c : ForthContext)
    → 1166 ≤ h
    → h + 12 < 65536
    → Coded h op d head c
    → Succeeds (Coded h op d head) (store16ubits (h + 2) v c)
flags_Coded h head op v d c k l a = by_value (store_ok (h + 2) v c (omega arith)) (record {
  added = put_word_Added h head (h + 2) v d c (omega arith) a.added;
  code = omega (
    arith,
    word_at-put_other c.dataspace (h + 2) (h + 4) v (inl (omega arith)),
    word_at-put_other c.dataspace (h + 2) (h + 4 + 2) v (inl (omega arith)),
    a.code,
  );
})

-- The older entries, in a data space that agrees below h.
Chain_same :
    (h : ℕ) (d d' : ℕ → ℕ) {e : ℕ} {entries : List ℕ}
    → ((i : ℕ) → 12 ≤ i → i < h → d' i ≡ d i)
    → e + 12 ≤ h
    → Chain d e entries
    → Chain d' e entries
Chain_same h d d' same l no_entry = no_entry
Chain_same h d d' {e} same l (entry g k p m rest) =
    entry g k
      (word_same d d' e (same e (omega arith) (omega arith))
          (same (e + 1) (omega arith) (omega arith))
        ∙ p)
      m (Chain_same h d d' same (omega arith) rest)

code_same :
    (h e : ℕ) (d d' : ℕ → ℕ)
    → ((i : ℕ) → 12 ≤ i → i < h → d' i ≡ d i)
    → 1166 ≤ e
    → e + 12 ≤ h
    → code_at d' e ≡ code_at d e
code_same h e d d' same g l = omega (
  arith,
  word_same d d' (e + 4) (same (e + 4) (omega arith) (omega arith))
      (same (e + 4 + 1) (omega arith) (omega arith)),
  word_same d d' (e + 4 + 2) (same (e + 4 + 2) (omega arith) (omega arith))
      (same (e + 4 + 2 + 1) (omega arith) (omega arith)),
)

first_with_same :
    (h opcode : ℕ) (d d' : ℕ → ℕ) {e : ℕ} {entries : List ℕ}
    → ((i : ℕ) → 12 ≤ i → i < h → d' i ≡ d i)
    → e + 12 ≤ h
    → Chain d e entries
    → first_with d' opcode entries ≡ first_with d opcode entries
unfolding first_with
first_with_same h opcode d d' same l no_entry = refl
first_with_same h opcode d d' {e} same l (entry {entries} g k p m rest) =
    ap (λ (x : ℕ). if x == opcode then some e else first_with d' opcode entries)
      (code_same h e d d' same g l)
    ∙ ap (λ (x : Option ℕ). if code_at d e == opcode then some e else x)
        (first_with_same h opcode d d' same (omega arith) rest)

find_added :
    (h op opcode : ℕ) (c c' : ForthContext) (entries : List ℕ)
    → Chain c.dataspace c.dict_head entries
    → 1166 ≤ h
    → h + 12 ≤ 65536
    → c.dict_head + 12 ≤ h
    → Coded h op c.dataspace c.dict_head c'
    → find_via_opcode opcode c'
      ≡ found_or_failed (if op == opcode then some h else first_with c.dataspace opcode entries) c'
unfolding first_with
find_added h op opcode c c' entries chain g k l a =
    find_via_opcode-first_with opcode c' (h ∷ entries)
      (subst (λ (x : ℕ). Chain c'.dataspace x (h ∷ entries)) (sym a.added.at_head)
        (entry g k a.added.link (omega arith)
          (Chain_same h c.dataspace c'.dataspace a.added.below l chain)))
      (omega (arith, a.added.at_head))
    ∙ ap
        (λ (x : ℕ).
          found_or_failed (if x == opcode then some h else first_with c'.dataspace opcode entries)
            c')
        a.code
    ∙ ap (λ (x : Option ℕ). found_or_failed (if op == opcode then some h else x) c')
        (first_with_same h opcode c.dataspace c'.dataspace a.added.below l chain)

clone_c_string_ok :
    (name : List ℕ) (c : ForthContext)
    → length name ≤ 31
    → clone_c_string name c ≡ done (u8 (length name) ∷ name, c)
unfolding clone_c_string
clone_c_string_ok name c l = let e : leb (length name) 31 ≡ true = ground arith in rw e refl

-- A core word with a name of at most 31 characters that is added, with HERE at h behind the dictionary,
-- which may be empty, is the one that its opcode is found by from then on; every other opcode is found,
-- or not, as before.
pub find_via_opcode-add_core_word :
    (name : List ℕ) (op flags opcode h : ℕ) (c : ForthContext) (entries : List ℕ)
    → Chain c.dataspace c.dict_head entries
    → word_at c.dataspace 2 ≡ h
    → 1166 ≤ h
    → c.dict_head + 12 ≤ h
    → h + 12 + length name < 65536
    → length name ≤ 31
    → op < 65536
    → Succeeds
        (λ c'.
          find_via_opcode opcode c'
          ≡ found_or_failed
              (if op == opcode then some h else first_with c.dataspace opcode entries)
              c')
        (add_core_word name op flags c)
unfolding add_core_word
find_via_opcode-add_core_word name op flags opcode h c entries chain i g j k l m =
    subst
      (λ o.
        Succeeds
          (λ c'.
            find_via_opcode opcode c'
            ≡ found_or_failed
                (if op == opcode then some h else first_with c.dataspace opcode entries) c')
          o)
      (sym (bind_ok (clone_c_string name) _ c (clone_c_string_ok name c l)))
      (after_Yields _
        (add_dict_entry_ok (length name) h c.dict_head (λ n. get_or (u8 (length name) ∷ name) n 0) c
          i g (omega arith) (ground arith) k (omega (arith, Chain-bound chain)) refl)
        λ c1 a1.
          bind-Succeeds _ (set_code_Coded h c.dict_head op c.dataspace c1 g (omega arith) m a1)
            λ _ c2 a2.
              bind-Succeeds _ (flags_Coded h c.dict_head op flags c.dataspace c2 g (omega arith) a2)
                λ _ c3 a3.
                  succeeds (find_added h op opcode c c3 entries chain g (omega arith) j a3))
