-- ===== src/Forth/AddLaws/Entries.antt =====
-- `add_dict_entry`: the new entry stands at the head, and the bytes below it are as they were.
use mathlib.Core.Path.{subst}
use fprcade.Common.{
  ℕ, zero, suc, ◌≡◌, ◌≢◌, refl, sym, ap, ◌∙◌, ◌⊎◌, inl, inr, u8, u16, bit_or, ◌+◌, ◌/◌, ◌%◌, ◌≤◌,
  ◌<◌, ◌<<<◌, arith,
}
use fprcade.Forth.State.{ForthContext, done, pure, get_dict_head, set_dict_head}
use fprcade.Forth.Memory.{read_at, write_at, put, fetch16ubits, store16ubits}
use fprcade.Forth.Dictionary.{
  set_code_field, copy_characters, copy_packed_string, add_dict_entry, i8_in_size, ef_dirty,
}
use fprcade.Forth.MemoryLaws.{
  word_at, put_word, bind_ok, fetch_ok, store_ok, write_at_ok, read_at_ok, word_at-put_word,
}
use fprcade.Forth.CodeLaws.{small}
use fprcade.Forth.Outcomes.{
  Succeeds, succeeds, bind-Succeeds, by_value, Yields, yields, after_Succeeds,
}

-- While an entry is made at h: the bytes between the variables and h are those of d, and the entry
-- refers to the old head.
record Adding (h : ℕ) (d : ℕ → ℕ) (head : ℕ) (c : ForthContext) : Type 0 where
  pub below : (i : ℕ) → 12 ≤ i → i < h → c.dataspace i ≡ d i
  pub link : word_at c.dataspace h ≡ head
  pub old_head : c.dict_head ≡ head

pub put_apart : (d : ℕ → ℕ) (i j v : ℕ) → i ≢ j → put d i v j ≡ d j
put_apart d i j v h = ground arith

pub word_same :
    (d d' : ℕ → ℕ) (i : ℕ) → d' i ≡ d i → d' (i + 1) ≡ d (i + 1) → word_at d' i ≡ word_at d i
word_same d d' i p q =
    ap (λ (t : ℕ). bit_or (u16 (t <<< 8)) (d' i)) q
    ∙ ap (λ (t : ℕ). bit_or (u16 (d (i + 1) <<< 8)) t) p

-- A byte written behind the link, or in a variable.
put-Adding :
    (h head i v : ℕ) (d : ℕ → ℕ) (c : ForthContext)
    → 1166 ≤ h
    → (h + 2 ≤ i) ⊎ (i < 12)
    → Adding h d head c
    → Adding h d head (record c { dataspace = put c.dataspace i v })
put-Adding h head i v d c k m a = record {
  below = λ j p q. put_apart c.dataspace i j v (ground arith) ∙ a.below j p q;
  link =
      word_same c.dataspace (put c.dataspace i v) h (put_apart c.dataspace i h v (ground arith))
        (put_apart c.dataspace i (h + 1) v (ground arith))
      ∙ a.link;
  old_head = a.old_head;
}

write_Adding :
    (h head i v : ℕ) (d : ℕ → ℕ) (c : ForthContext)
    → 1166 ≤ h
    → (h + 2 ≤ i) ⊎ (i < 12)
    → i < 65536
    → Adding h d head c
    → Succeeds (Adding h d head) (write_at i v c)
write_Adding h head i v d c k m l a =
    by_value (write_at_ok i v c l) (put-Adding h head i (u8 v) d c k m a)

store_Adding :
    (h head i v : ℕ) (d : ℕ → ℕ) (c : ForthContext)
    → 1166 ≤ h
    → (h + 2 ≤ i) ⊎ (i + 1 < 12)
    → i + 1 < 65536
    → Adding h d head c
    → Succeeds (Adding h d head) (store16ubits i v c)
store_Adding h head i v d c k m l a = by_value (store_ok i v c l) (
    put-Adding h head (i + 1) (v / 256 % 256) d
      (record c { dataspace = put c.dataspace i (v % 256) }) k (ground arith)
      (put-Adding h head i (v % 256) d c k (ground arith) a))

copy_Adding :
    (n i h head : ℕ) (f : ℕ → ℕ) (d : ℕ → ℕ) (c : ForthContext)
    → 1166 ≤ h
    → h + 10 + i + n < 65536
    → Adding h d head c
    → Succeeds (Adding h d head) (copy_characters n (λ j. pure (f j)) (h + 10) i c)
unfolding copy_characters
copy_Adding zero i h head f d c k l a = succeeds a
copy_Adding (suc n) i h head f d c k l a =
    bind-Succeeds _
      (write_Adding h head (h + 10 + i) (f i) d c k (inl (omega arith)) (omega arith) a)
      λ _ c' a'. copy_Adding n (i + 1) h head f d c' k (omega (arith, l)) a'

-- An entry that stands at the head, with the bytes below it as they were.
pub record Added (h : ℕ) (d : ℕ → ℕ) (head : ℕ) (c : ForthContext) : Type 0 where
  pub below : (i : ℕ) → 12 ≤ i → i < h → c.dataspace i ≡ d i
  pub link : word_at c.dataspace h ≡ head
  pub at_head : c.dict_head ≡ h

set_code_Adding :
    (h head op : ℕ) (d : ℕ → ℕ) (c : ForthContext)
    → 1166 ≤ h
    → h + 12 < 65536
    → Adding h d head c
    → Succeeds (Adding h d head) (set_code_field h op c)
unfolding set_code_field
set_code_Adding h head op d c k l a =
    bind-Succeeds _ (store_Adding h head (h + 4) (u16 op) d c k (inl (omega arith)) (omega arith) a)
      λ _ c' a'.
        store_Adding h head (h + 4 + 2) (op / 65536) d c' k (inl (omega arith)) (omega arith) a'

count_is : (d : ℕ → ℕ) (i v n : ℕ) → v ≡ n → n < 128 → i8_in_size (put d i (u8 v) i) ≡ n
unfolding i8_in_size
count_is d i v n e l = ground arith

copy_string_Adding :
    (n h head : ℕ) (f : ℕ → ℕ) (d : ℕ → ℕ) (c : ForthContext)
    → 1166 ≤ h
    → n < 128
    → f 0 ≡ n
    → h + 12 + n < 65536
    → Adding h d head c
    → Succeeds (Adding h d head) (copy_packed_string (λ j. pure (f j)) (h + 10) c)
unfolding copy_packed_string i8_in_size
copy_string_Adding n h head f d c k l e m a =
    let c1 = record c { dataspace = put c.dataspace (h + 10) (u8 (f 0)) } in
    subst (λ o. Succeeds (Adding h d head) o)
      (sym (
        bind_ok (write_at (h + 10) (f 0)) _ c (write_at_ok (h + 10) (f 0) c (omega arith))
        ∙ bind_ok (read_at (h + 10)) _ c1 (read_at_ok (h + 10) c1 (omega arith))))
      (subst
        (λ (count : ℕ).
          Succeeds (Adding h d head) (copy_characters count (λ j. pure (f j)) (h + 10) 1 c1))
        (sym (count_is c.dataspace (h + 10) (f 0) n e l))
        (copy_Adding n 1 h head f d c1 k (omega (arith, m))
          (put-Adding h head (h + 10) (u8 (f 0)) d c k (inl (omega arith)) a)))

fetch_Adding :
    (h head i : ℕ) (d : ℕ → ℕ) (c : ForthContext)
    → i + 1 < 65536
    → Adding h d head c
    → Succeeds (Adding h d head) (fetch16ubits i c)
fetch_Adding h head i d c l a = by_value (fetch_ok i c l) a

-- The link is stored first.
linked :
    (h head : ℕ) (c : ForthContext)
    → h + 1 < 65536
    → c.dict_head ≡ head
    → head < 65536
    → Adding h c.dataspace head (record c { dataspace = put_word c.dataspace h c.dict_head })
linked h head c l r q = record {
  below = λ j p o.
      put_apart (put c.dataspace h (c.dict_head % 256)) (h + 1) j (c.dict_head / 256 % 256)
        (ground arith)
      ∙ put_apart c.dataspace h j (c.dict_head % 256) (ground arith);
  link = word_at-put_word c.dataspace h c.dict_head ∙ small c.dict_head (omega arith) ∙ r;
  old_head = r;
}

pub add_dict_entry_ok :
    (n h head : ℕ) (f : ℕ → ℕ) (c : ForthContext)
    → word_at c.dataspace 2 ≡ h
    → 1166 ≤ h
    → n < 128
    → f 0 ≡ n
    → h + 12 + n < 65536
    → head < 65536
    → c.dict_head ≡ head
    → Yields h (Added h c.dataspace head) (add_dict_entry (λ j. pure (f j)) c)
unfolding add_dict_entry get_dict_head set_dict_head
add_dict_entry_ok n h head f c i k l e m q r =
    let d = c.dataspace in
    subst (λ o. Yields h (Added h d head) o)
      (sym (
        bind_ok (fetch16ubits 2) _ c (fetch_ok 2 c (omega arith) ∙ ap (λ (x : ℕ). done (x, c)) i)
        ∙ bind_ok (store16ubits h c.dict_head) _ c (store_ok h c.dict_head c (omega arith))))
      (after_Succeeds _
        (store_Adding h head (h + 2) 0 d _ k (inl (omega arith)) (omega arith)
          (linked h head c (omega arith) r q))
        λ _ c1 a1.
          after_Succeeds _ (fetch_Adding h head (h + 2) d c1 (omega arith) a1) λ flags c2 a2.
            after_Succeeds _
              (store_Adding h head (h + 2) (bit_or flags ef_dirty) d c2 k (inl (omega arith))
                (omega arith) a2)
              λ _ c3 a3.
                after_Succeeds _ (set_code_Adding h head 0 d c3 k (omega arith) a3) λ _ c4 a4.
                  after_Succeeds _
                    (store_Adding h head (h + 8) 0 d c4 k (inl (omega arith)) (omega arith) a4)
                    λ _ c5 a5.
                      after_Succeeds _ (copy_string_Adding n h head f d c5 k l e m a5) λ _ c6 a6.
                        after_Succeeds _
                          (store_Adding h head 2 _ d c6 k (inr (omega arith)) (omega arith) a6)
                          λ _ c7 a7.
                            yields (record { below = a7.below; link = a7.link; at_head = refl }))
