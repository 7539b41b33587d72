-- ===== src/Forth/MemoryLaws.antt =====
-- The cells of the data space, as 16 bit numbers: what `fetch16ubits`, `store16ubits`, `push` and `pop`
-- do where no address is past the end.
use fprcade.Common.{
  ℕ, ◌≡◌, ◌≢◌, ap, ◌∙◌, ◌⊎◌, false, ◌==◌, u8, u16, bit_and, bit_or, ◌+◌, ◌-◌, ◌*◌, ◌/◌, ◌%◌, ◌≤◌,
  ◌<◌, ◌<<<◌, ◌>>>◌, arith, lt→ltb,
}
use fprcade.Common.Bits.{and_ones, or_fields}
use fprcade.Forth.State.{
  ForthContext, Outcome, done, stop, F, ◌>>=◌, ◌>>◌, StackName, stack_of, with_stack, on_control,
  on_data, on_return,
}
use fprcade.Forth.Memory.{
  read_at, write_at, put, fetch16ubits, store16ubits, get_where, step_up, step_down, check_top,
  push_cell, pop_cell,
}

-- The number in the cell at an address.
abbrev pub word_at : (ℕ → ℕ) → ℕ → ℕ
word_at d i = bit_or (u16 (d (i + 1) <<< 8)) (d i)

-- The data space after a number is stored.
abbrev pub put_word : (ℕ → ℕ) → ℕ → ℕ → ℕ → ℕ
put_word d i v = put (put d i (v % 256)) (i + 1) (v / 256 % 256)

-- The context after a cell is pushed, and after one is taken.
abbrev pub pushed : StackName → ℕ → ForthContext → ForthContext
pushed s v c =
    let t = stack_of s c in
    with_stack s (record t { where_ = t.where_ + 2 })
      (record c { dataspace = put_word c.dataspace t.where_ (u16 v) })

abbrev pub popped : StackName → ForthContext → ForthContext
popped s c = let t = stack_of s c in with_stack s (record t { where_ = t.where_ - 2 }) c

-- The first piece of a chain, done.
pub bind_ok :
    {A B : Type 0} (m : F A) (f : A → F B) (c : ForthContext) {c' : ForthContext} {a : A}
    → m c ≡ done (a, c')
    → (m >>= f) c ≡ f a c'
bind_ok {A} {B} m f c e =
    ap {B = Outcome (B × ForthContext)}
      (λ (r : Outcome (A × ForthContext)). elim r [ stop e ↦ stop e | done (a, c') ↦ f a c' ]) e

pub read_at_ok : (i : ℕ) (c : ForthContext) → i < 65536 → read_at i c ≡ done (c.dataspace i, c)
unfolding read_at
read_at_ok i c h = rw (lt→ltb i 65536 h)

pub write_at_ok :
    (i v : ℕ) (c : ForthContext)
    → i < 65536
    → write_at i v c ≡ done (tt, record c { dataspace = put c.dataspace i (u8 v) })
unfolding write_at
write_at_ok i v c h = rw (lt→ltb i 65536 h)

pub fetch_ok :
    (i : ℕ) (c : ForthContext) → i + 1 < 65536 → fetch16ubits i c ≡ done (word_at c.dataspace i, c)
unfolding fetch16ubits
fetch_ok i c h =
    bind_ok (read_at (i + 1)) _ c (read_at_ok (i + 1) c h)
    ∙ bind_ok (read_at i) _ c (read_at_ok i c (omega arith))

low_byte : (v : ℕ) → bit_and v 255 % 256 ≡ v % 256
low_byte v = omega (arith, and_ones 8 v)

pub store_ok :
    (i v : ℕ) (c : ForthContext)
    → i + 1 < 65536
    → store16ubits i v c ≡ done (tt, record c { dataspace = put_word c.dataspace i v })
unfolding store16ubits
store_ok i v c h =
    bind_ok (write_at i (bit_and v 255)) _ c (write_at_ok i (bit_and v 255) c (omega arith))
    ∙ write_at_ok (i + 1) (v >>> 8) _ h
    ∙ ap
        (λ (b : ℕ).
          done (tt, record c { dataspace = put (put c.dataspace i b) (i + 1) (v / 256 % 256) }))
        (low_byte v)

put_same : (d : ℕ → ℕ) (i v : ℕ) → put d i v i ≡ v
put_same d i v = ground arith

put_other : (d : ℕ → ℕ) (i j v : ℕ) → i ≢ j → put d i v j ≡ d j
put_other d i j v h = ground arith

join_bytes : (v : ℕ) → bit_or (v / 256 % 256 * 256 % 65536) (v % 256) ≡ v % 65536
join_bytes v =
    ap (λ (t : ℕ). bit_or t (v % 256)) (omega arith)
    ∙ or_fields 8 (v / 256 % 256) (v % 256) (omega arith)
    ∙ omega arith

-- A cell that was just stored, and one that shares no byte with it.
pub word_at-put_word : (d : ℕ → ℕ) (i v : ℕ) → word_at (put_word d i v) i ≡ v % 65536
word_at-put_word d i v =
    ap (λ (t : ℕ). bit_or (t * 256 % 65536) (put_word d i v i))
      (put_same (put d i (v % 256)) (i + 1) (v / 256 % 256))
    ∙ ap (λ (t : ℕ). bit_or (v / 256 % 256 * 256 % 65536) t)
        (put_other (put d i (v % 256)) (i + 1) i (v / 256 % 256) (ground arith)
          ∙ put_same d i (v % 256))
    ∙ join_bytes v

pub put_word_other : (d : ℕ → ℕ) (i j v : ℕ) → i ≢ j → i + 1 ≢ j → put_word d i v j ≡ d j
put_word_other d i j v h k =
    put_other (put d i (v % 256)) (i + 1) j (v / 256 % 256) k ∙ put_other d i j (v % 256) h

pub word_at-put_other :
    (d : ℕ → ℕ) (i j v : ℕ) → (i + 1 < j) ⊎ (j + 1 < i) → word_at (put_word d i v) j ≡ word_at d j
word_at-put_other d i j v h =
    ap (λ (t : ℕ). bit_or (t * 256 % 65536) (put_word d i v j))
      (put_word_other d i (j + 1) v (ground arith) (ground arith))
    ∙ ap (λ (t : ℕ). bit_or (d (j + 1) * 256 % 65536) t)
        (put_word_other d i j v (ground arith) (ground arith))

-- A stack pointer from which a cell can be pushed in the data space.
pub push_ok :
    (s : StackName) (v : ℕ) (c : ForthContext)
    → (stack_of s c).where_ + 3 < 65536
    → (stack_of s c).where_ + 2 ≢ (stack_of s c).top
    → push_cell s v c ≡ done (tt, pushed s v c)
unfolding push_cell get_where step_up check_top
push_ok s v c h k =
    bind_ok (store16ubits (stack_of s c).where_ (u16 v)) _ c (store_ok _ (u16 v) c (omega arith))
    ∙ rest s h k
  where
    rest :
        (s : StackName)
        → (stack_of s c).where_ + 3 < 65536
        → (stack_of s c).where_ + 2 ≢ (stack_of s c).top
        → (step_up s >> check_top s)
            (record c { dataspace = put_word c.dataspace (stack_of s c).where_ (u16 v) })
          ≡ done (tt, pushed s v c)
    rest on_control h k = ground arith
    rest on_data h k = ground arith
    rest on_return h k = ground arith

not_bottom :
    (s : StackName) (c : ForthContext)
    → (stack_of s c).where_ ≢ (stack_of s c).bottom
    → ((stack_of s c).where_ == (stack_of s c).bottom) ≡ false
not_bottom s c h = ground arith

down : (w : ℕ) → 2 ≤ w → w < 65536 → (w % 65536 + 65536 - 2) % 65536 ≡ w - 2
down w k l = omega arith

pub pop_ok :
    (s : StackName) (c : ForthContext)
    → (stack_of s c).where_ ≢ (stack_of s c).bottom
    → 2 ≤ (stack_of s c).where_
    → (stack_of s c).where_ < 65536
    → pop_cell s c ≡ done (word_at c.dataspace ((stack_of s c).where_ - 2), popped s c)
unfolding pop_cell get_where step_down
pop_ok on_control c h k l =
    rw (not_bottom on_control c h, down c.control_stack.where_ k l)
      (fetch_ok (c.control_stack.where_ - 2) (popped on_control c) (omega arith))
pop_ok on_data c h k l =
    rw (not_bottom on_data c h, down c.data_stack.where_ k l)
      (fetch_ok (c.data_stack.where_ - 2) (popped on_data c) (omega arith))
pop_ok on_return c h k l =
    rw (not_bottom on_return c h, down c.return_stack.where_ k l)
      (fetch_ok (c.return_stack.where_ - 2) (popped on_return c) (omega arith))
