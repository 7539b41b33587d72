-- ===== src/Emulator/MoveLaws.antt =====
-- FPEmu, `fpemu.c`: the stack operations on the data stack, seen as a list with the top first.
use fprcade.Common.{ℕ, ◌≡◌, ◌<◌, ◌≤◌, ◌+◌, ◌-◌, ◌%◌, arith, List, ◌∷◌, refl, ◌∙◌}
use mathlib.Core.Path.{ap₂}
use fprcade.Emulator.State.{CpuContext, ok, M, ◌>>=◌, ◌>>◌, data_id, max_stack_size, pure}
use fprcade.Emulator.Stacks.{push, pushed, pop}
use fprcade.Emulator.StackLaws.{push_fits, popped, bind_ok}
use fprcade.Emulator.Moves.{exec_drop, exec_dup, exec_swap}
use fprcade.Emulator.StackViews.{
  Holds, Leaves, Keeps, Keeps-refl, Keeps-trans, popped-Keeps, contents, pop-Holds, pushed-contents,
  pushed_room, cells_view,
}

-- A push with room for one more cell after it.
push-Holds :
    (c : CpuContext) (v : ℕ) (xs : List ℕ)
    → v < 65536
    → c.data_stack.top + 1 < c.data_stack.size
    → c.data_stack.top < max_stack_size
    → Holds c xs
    → (push data_id v c ≡ ok (tt, pushed data_id v c)) × Holds (pushed data_id v c) (v ∷ xs)
push-Holds c v xs p room small h = (
  push_fits data_id v c small,
  record {
    view =
        (pushed-contents c v small (omega arith)).0
        ∙ (let e : v % 65536 ≡ v = omega arith in ap₂ ◌∷◌ e h.view);
    fits = rw (pushed_room c v small (omega arith)) (omega arith);
    below = rw (pushed_room c v small (omega arith)) (omega arith);
  },
)

-- Two pushes one after the other.
two_pushes :
    (c : CpuContext) (v w : ℕ) (xs : List ℕ)
    → v < 65536
    → w < 65536
    → c.data_stack.top + 2 < c.data_stack.size
    → c.data_stack.top + 1 < max_stack_size
    → Holds c xs
    → Leaves (push data_id v >> push data_id w) c (w ∷ (v ∷ xs))
two_pushes c v w xs p q room small h = record {
  after = pushed data_id w c';
  returns =
      bind_ok (push data_id v) (λ _. push data_id w) c first.0
      ∙ push_fits data_id w c' (rw grown (omega arith));
  shows = second.0 ∙ (let e : w % 65536 ≡ w = omega arith in ap₂ ◌∷◌ e first.1.view);
  keeps = Keeps-trans c c' _ kept.1 second.1;
}
  where
    c' : CpuContext
    c' = pushed data_id v c

    grown : c'.data_stack.top ≡ c.data_stack.top + 1
    grown = rw (pushed_room c v (omega arith) (omega arith)) (omega arith)

    same : c'.data_stack.size ≡ c.data_stack.size
    same = rw (pushed_room c v (omega arith) (omega arith)) refl

    first : (push data_id v c ≡ ok (tt, c')) × Holds c' (v ∷ xs)
    first = push-Holds c v xs p (omega arith) (omega arith) h

    kept : (contents c' ≡ (v % 65536) ∷ contents c) × Keeps c c'
    kept = pushed-contents c v (omega arith) (omega arith)

    second :
        (contents (pushed data_id w c') ≡ (w % 65536) ∷ contents c')
        × Keeps c' (pushed data_id w c')
    second = pushed-contents c' w (omega (arith, grown)) (omega (arith, grown, same))

-- A pop, and what comes after it.
pub after_pop :
    (f : ℕ → M (Unit {0})) (c : CpuContext) (a : ℕ) (rest xs : List ℕ)
    → Holds c (a ∷ rest)
    → Leaves (f a) (popped data_id c) xs
    → Leaves (pop data_id >>= f) c xs
after_pop f c a rest xs h l = record {
  after = l.after;
  returns = bind_ok (pop data_id) f c (pop-Holds c a rest h).0 ∙ l.returns;
  shows = l.shows;
  keeps = Keeps-trans c (popped data_id c) l.after (popped-Keeps c) l.keeps;
}

nothing_more : (c : CpuContext) (xs : List ℕ) → Holds c xs → Leaves (pure tt) c xs
nothing_more c xs h = record { after = c; returns = refl; shows = h.view; keeps = Keeps-refl c }

-- On the data stack: with two 16 bit values on one that is not full, DROP takes the top value and SWAP
-- leaves the two in the other order; with a 16 bit value and room for one more, DUP leaves the value
-- twice. The rest of the stack, and everything else of the processor, is kept.
pub exec_drop-exec_swap-exec_dup-Leaves :
    (c : CpuContext) (a b : ℕ) (rest : List ℕ)
    → a < 65536
    → b < 65536
    → Holds c (a ∷ (b ∷ rest))
    → (d : CpuContext) (e : ℕ) (below : List ℕ) → e < 65536
    → Holds d (e ∷ below)
    → d.data_stack.top + 1 < d.data_stack.size
    → d.data_stack.top + 1 ≤ max_stack_size
    → Leaves (exec_drop data_id) c (b ∷ rest)
      × Leaves (exec_swap data_id) c (b ∷ (a ∷ rest))
      × Leaves (exec_dup data_id) d (e ∷ (e ∷ below))
unfolding exec_drop exec_dup exec_swap
exec_drop-exec_swap-exec_dup-Leaves c a b rest p q h d e below r k room small = (
  after_pop (λ _. pure tt) c a (b ∷ rest) (b ∷ rest) h (nothing_more once (b ∷ rest) first),
  after_pop (λ v. pop data_id >>= λ w. push data_id v >> push data_id w) c a (b ∷ rest) _ h
      (after_pop (λ w. push data_id a >> push data_id w) once b rest _ first
        (two_pushes twice a b rest p q (omega (arith, some_values, h.below))
          (omega (arith, some_values, h.fits)) second)),
  after_pop (λ v. push data_id v >> push data_id v) d e below _ k
      (two_pushes (popped data_id d) e e below r r (omega (arith, a_value)) (omega (arith, a_value))
        (pop-Holds d e below k).1),
)
  where
    once : CpuContext
    once = popped data_id c

    twice : CpuContext
    twice = popped data_id once

    first : Holds once (b ∷ rest)
    first = (pop-Holds c a (b ∷ rest) h).1

    second : Holds twice rest
    second = (pop-Holds once b rest first).1

    some_values : 1 < c.data_stack.top
    some_values = omega (
      arith,
      (cells_view c.data_stack.values c.data_stack.top a (b ∷ rest) h.view).0,
      (cells_view c.data_stack.values (c.data_stack.top - 1) b rest first.view).0,
    )

    a_value : 0 < d.data_stack.top
    a_value = omega (arith, (cells_view d.data_stack.values d.data_stack.top e below k.view).0)
