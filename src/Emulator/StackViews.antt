-- ===== src/Emulator/StackViews.antt =====
-- FPEmu, `fpemu.c`: the data stack seen as a list with the top first, and what an operation leaves on it.
use fprcade.Common.{
  ℕ, zero, suc, ◌≡◌, ◌≢◌, ◌<◌, ◌≤◌, ◌+◌, ◌-◌, ◌%◌, arith, refl, List, [], ◌∷◌, ap, ◌∙◌,
}
use mathlib.Core.Path.{ap₂}
use native.Mathlib.Nat.{le_refl}
use fprcade.Emulator.State.{CpuContext, ok, M, ◌>>=◌, data_id, with_stack, max_stack_size}
use fprcade.Emulator.Stacks.{push, pushed, pop, store}
use fprcade.Emulator.StackLaws.{push_fits, pop_fits, popped, bind_ok}

-- The cells of a stack, the top first.
abbrev pub cells : (ℕ → ℕ) → ℕ → List ℕ
cells values zero = []
cells values (suc n) = values n ∷ cells values n

abbrev pub contents : CpuContext → List ℕ
contents c = cells c.data_stack.values c.data_stack.top

-- The stack holds these values, in its array, and is not full.
pub record Holds (c : CpuContext) (xs : List ℕ) : Type 0 where
  pub view : contents c ≡ xs
  pub fits : c.data_stack.top ≤ max_stack_size
  pub below : c.data_stack.top < c.data_stack.size

pub cells-store : (values : ℕ → ℕ) (n i v : ℕ) → n ≤ i → cells (store values i v) n ≡ cells values n
cells-store values zero i v h = refl
cells-store values (suc n) i v h = ground (arith, cells-store values n i v)

-- A stack that shows a value on top of others has it in the cell below `top`.
pub cells_view :
    (values : ℕ → ℕ) (n a : ℕ) (rest : List ℕ)
    → cells values n ≡ a ∷ rest
    → (n ≡ suc (n - 1)) × (values (n - 1) ≡ a) × (cells values (n - 1) ≡ rest)
cells_view values zero a rest h = absurd (ground arith)
cells_view values (suc n) a rest h =
    let e : suc n - 1 ≡ n = omega arith in rw e (refl, ground arith, ground arith)

pub pop-Holds :
    (c : CpuContext) (a : ℕ) (rest : List ℕ)
    → Holds c (a ∷ rest)
    → (pop data_id c ≡ ok (a, popped data_id c)) × Holds (popped data_id c) rest
pop-Holds c a rest h =
    let view = cells_view c.data_stack.values c.data_stack.top a rest h.view in
    (
      pop_fits data_id c (omega (arith, view.0)) h.fits ∙ rw view.1 refl,
      record { view = view.2; fits = omega (arith, h.fits); below = omega (arith, h.below) },
    )

pub pushed_room :
    (c : CpuContext) (v : ℕ)
    → c.data_stack.top < max_stack_size
    → c.data_stack.top + 1 ≢ c.data_stack.size
    → pushed data_id v c ≡ record c {
      data_stack = record c.data_stack {
        top = suc c.data_stack.top;
        values = store c.data_stack.values c.data_stack.top (v % 65536);
      };
    }
unfolding pushed
pushed_room c v h k = ground arith

pub store_self : (values : ℕ → ℕ) (i v : ℕ) → store values i v i ≡ v
store_self values i v = ground arith

-- Everything but the data stack is as it was, and so is the size of the data stack.
pub record Keeps (c c' : CpuContext) : Type 0 where
  pub others : with_stack data_id c.data_stack c' ≡ c
  pub same_size : c'.data_stack.size ≡ c.data_stack.size

pub Keeps-refl : (c : CpuContext) → Keeps c c
Keeps-refl c = record { others = refl; same_size = refl }

pub Keeps-trans : (a b c : CpuContext) → Keeps a b → Keeps b c → Keeps a c
Keeps-trans a b c h k = record {
  others = ap (λ (x : CpuContext). with_stack data_id a.data_stack x) k.others ∙ h.others;
  same_size = k.same_size ∙ h.same_size;
}

pub popped-Keeps : (c : CpuContext) → Keeps c (popped data_id c)
popped-Keeps c = record { others = refl; same_size = refl }

pub pushed-contents :
    (c : CpuContext) (v : ℕ)
    → c.data_stack.top < max_stack_size
    → c.data_stack.top + 1 ≢ c.data_stack.size
    → (contents (pushed data_id v c) ≡ (v % 65536) ∷ contents c) × Keeps c (pushed data_id v c)
pushed-contents c v h k = rw (pushed_room c v h k) (
  ap₂ ◌∷◌ (store_self c.data_stack.values c.data_stack.top (v % 65536))
      (cells-store c.data_stack.values c.data_stack.top c.data_stack.top (v % 65536) (le_refl _)),
  record { others = refl; same_size = refl },
)

-- What an operator leaves: these values on the data stack, and everything else as it was.
pub record Leaves (m : M (Unit {0})) (c : CpuContext) (xs : List ℕ) : Type 0 where
  pub after : CpuContext
  pub returns : m c ≡ ok (tt, after)
  pub shows : contents after ≡ xs
  pub keeps : Keeps c after

pub two_operands :
    (f : ℕ → ℕ → ℕ) (c : CpuContext) (a b : ℕ) (rest : List ℕ)
    → Holds c (a ∷ (b ∷ rest))
    → Leaves
        (pop data_id >>= λ v. pop data_id >>= λ w. push data_id (f v w))
        c
        ((f a b % 65536) ∷ rest)
two_operands f c a b rest h = record {
  after = pushed data_id (f a b) (popped data_id (popped data_id c));
  returns =
      bind_ok (pop data_id) (λ v. pop data_id >>= λ w. push data_id (f v w)) c first.0
      ∙ bind_ok (pop data_id) (λ w. push data_id (f a w)) (popped data_id c) second.0
      ∙ push_fits data_id (f a b) (popped data_id (popped data_id c))
          (omega (arith, second.1.fits, room));
  shows = written.0 ∙ ap (λ (l : List ℕ). (f a b % 65536) ∷ l) second.1.view;
  keeps = Keeps-trans c twice _ twice-Keeps written.1;
}
  where
    twice : CpuContext
    twice = popped data_id (popped data_id c)

    twice-Keeps : Keeps c twice
    twice-Keeps =
        Keeps-trans c (popped data_id c) twice (popped-Keeps c) (popped-Keeps (popped data_id c))

    first : (pop data_id c ≡ ok (a, popped data_id c)) × Holds (popped data_id c) (b ∷ rest)
    first = pop-Holds c a (b ∷ rest) h

    second :
        (pop data_id (popped data_id c) ≡ ok (b, popped data_id (popped data_id c)))
        × Holds (popped data_id (popped data_id c)) rest
    second = pop-Holds (popped data_id c) b rest first.1

    room : (c.data_stack.top - 1 - 1 + 1 < c.data_stack.top)
    room = omega (
      arith,
      (cells_view c.data_stack.values c.data_stack.top a (b ∷ rest) h.view).0,
      (cells_view c.data_stack.values (c.data_stack.top - 1) b rest first.1.view).0,
    )

    written :
        (contents (pushed data_id (f a b) (popped data_id (popped data_id c)))
          ≡ (f a b % 65536) ∷ contents (popped data_id (popped data_id c)))
        × Keeps twice (pushed data_id (f a b) twice)
    written =
        pushed-contents (popped data_id (popped data_id c)) (f a b) (omega (arith, h.fits, room))
          (omega (arith, h.below, room))
