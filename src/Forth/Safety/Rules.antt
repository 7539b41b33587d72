-- ===== src/Forth/Safety/Rules.antt =====
-- Assertions on the three stacks, and the rules for the pieces of which the words are made.
use fprcade.Common.{ℕ, ◌≡◌, Bool, true, false, if◌then◌else◌, ◌+◌, ◌%◌, ◌≤◌}
use fprcade.Forth.State.{
  CellStack, ForthContext, Outcome, done, stop, Stop, pop_assert, push_assert, assert_failed,
  exit_100, out_of_bounds, indeterminate, zero_division, never_ends, F, pure, ◌>>=◌, StackName,
  on_control, on_data, on_return,
}

-- A stack between its fixed bounds, with one cell at least between the pointer and the top.
pub record Placed (low high : ℕ) (s : CellStack) : Type 0 where
  pub at_bottom : s.bottom ≡ low
  pub at_top : s.top ≡ high
  pub above : low ≤ s.where_
  pub below : s.where_ + 2 ≤ high
  pub even : s.where_ % 2 ≡ 0

-- What is known of one of the stacks besides: nothing, that it holds a cell, or that it has room for
-- one.
pub data Mode : Type 0 where
  ready : Mode
  filled roomy : StackName → Mode

abbrev pub Known : Mode → CellStack → CellStack → CellStack → Type 0
Known ready k d r = Unit {0}
Known (filled on_control) k d r = k.bottom + 2 ≤ k.where_
Known (filled on_data) k d r = d.bottom + 2 ≤ d.where_
Known (filled on_return) k d r = r.bottom + 2 ≤ r.where_
Known (roomy on_control) k d r = k.where_ + 4 ≤ k.top
Known (roomy on_data) k d r = d.where_ + 4 ≤ d.top
Known (roomy on_return) k d r = r.where_ + 4 ≤ r.top

-- The places are those that `ff_init_all_stacks` claims.
pub record Sized (mode : Mode) (k d r : CellStack) : Type 0 where
  pub control_placed : Placed 65444 65484 k
  pub data_placed : Placed 65378 65442 d
  pub return_placed : Placed 65486 65534 r
  pub known : Known mode k d r

abbrev pub Has : Mode → ForthContext → Type 0
Has mode c = Sized mode c.control_stack c.data_stack c.return_stack

-- The stops that are in order: no push meets the top of its stack, and, where it is asked for, no pop
-- meets the bottom.
abbrev pub Allowed : Bool → Stop → Type 0
Allowed strict push_assert = ⊥
Allowed true pop_assert = ⊥
Allowed false pop_assert = Unit {0}
Allowed strict assert_failed = Unit {0}
Allowed strict exit_100 = Unit {0}
Allowed strict out_of_bounds = Unit {0}
Allowed strict indeterminate = Unit {0}
Allowed strict zero_division = Unit {0}
Allowed strict never_ends = Unit {0}

pub data Post {A : Type 0} (strict : Bool) (Q : ForthContext → Type 0)
    : Outcome (A × ForthContext) → Type 0 where
  returns : {a : A} {c : ForthContext} → Q c → Post strict Q (done (a, c))
  ends : {e : Stop} → Allowed strict e → Post strict Q (stop e)

abbrev pub Ensures : {A : Type 0} → Bool → Mode → F A → Mode → Type 0
Ensures strict p m q = (c : ForthContext) → Has p c → Post strict (Has q) (m c)

-- A piece that leaves the stacks alone, whatever is known of them.
abbrev pub Quiet : {A : Type 0} → F A → Type 0
Quiet m = (strict : Bool) (p : Mode) → Ensures strict p m p

bind-Post :
    {A B : Type 0} {strict : Bool} {q r : Mode} {o : Outcome (A × ForthContext)} (f : A → F B)
    → Post strict (Has q) o
    → ((a : A) → Ensures strict q (f a) r)
    → Post strict (Has r) (elim o [ stop e ↦ stop e | done (a, c') ↦ f a c' ])
bind-Post f (returns h) k = k _ _ h
bind-Post f (ends h) k = ends h

pub bind :
    {A B : Type 0} {strict : Bool} {p q r : Mode} {m : F A} {f : A → F B}
    → Ensures strict p m q
    → ((a : A) → Ensures strict q (f a) r)
    → Ensures strict p (m >>= f) r
bind {f} h k = λ c p. bind-Post f (h c p) k

pub bind-Quiet :
    {A B : Type 0} {m : F A} {f : A → F B} → Quiet m → ((a : A) → Quiet (f a)) → Quiet (m >>= f)
bind-Quiet h k = λ strict p. bind (h strict p) (λ a. k a strict p)

-- A quiet piece, then the rest.
pub quiet :
    {A B : Type 0} {strict : Bool} {p r : Mode} {m : F A} {f : A → F B}
    → Quiet m
    → ((a : A) → Ensures strict p (f a) r)
    → Ensures strict p (m >>= f) r
quiet {strict} {p} h k = bind (h strict p) k

pub branch :
    {A : Type 0} {strict : Bool} {p q : Mode} (b : Bool) {m n : F A}
    → Ensures strict p m q
    → Ensures strict p n q
    → Ensures strict p (if b then m else n) q
branch true h k = h
branch false h k = k

pub branch-Quiet :
    {A : Type 0} (b : Bool) {m n : F A} → Quiet m → Quiet n → Quiet (if b then m else n)
branch-Quiet true h k = h
branch-Quiet false h k = k

pub pure-Quiet : {A : Type 0} (a : A) → Quiet (pure a)
pure-Quiet a strict p c h = returns h

pub Has-ready : {p : Mode} (c : ForthContext) → Has p c → Has ready c
Has-ready c h = record {
  control_placed = h.control_placed;
  data_placed = h.data_placed;
  return_placed = h.return_placed;
  known = tt;
}

forget_Post :
    {A : Type 0} {strict : Bool} {q : Mode} {o : Outcome (A × ForthContext)}
    → Post strict (Has q) o
    → Post strict (Has ready) o
forget_Post (returns {c} h) = returns (Has-ready c h)
forget_Post (ends h) = ends h

-- What is known besides can be forgotten, after a piece and before it.
pub forget :
    {A : Type 0} {strict : Bool} {p q : Mode} {m : F A}
    → Ensures strict p m q
    → Ensures strict p m ready
forget h = λ c p. forget_Post (h c p)

pub from_ready :
    {A : Type 0} {strict : Bool} {p q : Mode} {m : F A}
    → Ensures strict ready m q
    → Ensures strict p m q
from_ready h = λ c p. h c (Has-ready c p)

pub settle : {A : Type 0} {strict : Bool} {p : Mode} {m : F A} → Quiet m → Ensures strict p m ready
settle {strict} {p} h = forget (h strict p)
