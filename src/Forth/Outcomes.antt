-- ===== src/Forth/Outcomes.antt =====
-- Functions that do return, without the context that they return in being spelt out.
use mathlib.Core.Path.{subst}
use fprcade.Common.{◌≡◌, sym}
use fprcade.Forth.State.{ForthContext, Outcome, done, stop, F}

-- A piece that does return, in a context of which something is known.
pub data Succeeds {A : Type 0} (Q : ForthContext → Type 0)
    : Outcome (A × ForthContext) → Type 0 where
  succeeds : {a : A} {c : ForthContext} → Q c → Succeeds Q (done (a, c))

pub bind-Succeeds :
    {A B : Type 0} {Q R : ForthContext → Type 0} {o : Outcome (A × ForthContext)} (f : A → F B)
    → Succeeds Q o
    → ((a : A) (c : ForthContext) → Q c → Succeeds R (f a c))
    → Succeeds R (elim o [ stop e ↦ stop e | done (a, c') ↦ f a c' ])
bind-Succeeds f (succeeds h) k = k _ _ h

pub by_value :
    {A : Type 0} {Q : ForthContext → Type 0} {o : Outcome (A × ForthContext)} {a : A}
    {c : ForthContext}
    → o ≡ done (a, c)
    → Q c
    → Succeeds Q o
by_value {Q} e h = subst (λ o. Succeeds Q o) (sym e) (succeeds h)

-- A piece that returns a known value.
pub data Yields {A : Type 0} (a : A) (Q : ForthContext → Type 0)
    : Outcome (A × ForthContext) → Type 0 where
  yields : {c : ForthContext} → Q c → Yields a Q (done (a, c))

pub after_Succeeds :
    {A B : Type 0} {b : B} {Q R : ForthContext → Type 0} {o : Outcome (A × ForthContext)}
    (f : A → F B)
    → Succeeds Q o
    → ((a : A) (c : ForthContext) → Q c → Yields b R (f a c))
    → Yields b R (elim o [ stop e ↦ stop e | done (a, c') ↦ f a c' ])
after_Succeeds f (succeeds h) k = k _ _ h

pub after_Yields :
    {A B : Type 0} {a : A} {Q R : ForthContext → Type 0} {o : Outcome (A × ForthContext)}
    (f : A → F B)
    → Yields a Q o
    → ((c : ForthContext) → Q c → Succeeds R (f a c))
    → Succeeds R (elim o [ stop e ↦ stop e | done (a, c') ↦ f a c' ])
after_Yields f (yields h) k = k _ h
