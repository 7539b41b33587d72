-- ===== src/Emulator/Safety/Triples.antt =====
-- Assertions on the stacks' room, and the rules for the pieces that the instructions are made of.
use fprcade.Common.{ℕ, ◌≡◌, ◌≢◌, Bool, true, false, if◌then◌else◌, ◌+◌, ◌≤◌, ◌<◌, arith}
use fprcade.Emulator.State.{
  CpuContext, Result, ok, fault, Fault, stack_array, M, pure, ◌>>=◌, StackId, stack_of, dstack_size,
  rstack_size, cstack_size, tstack_size,
}

-- With `top` at the size a stack is full, and the processor must have stopped.
abbrev Level : Bool → ℕ → ℕ → Type 0
Level true top size = top < size
Level false top size = top ≤ size

-- The sizes are those of the reset; no stack is over-full, and none is full while the processor runs.
pub record Guarded (c : CpuContext) : Type 0 where
  pub data_size : c.data_stack.size ≡ dstack_size
  pub return_size : c.return_stack.size ≡ rstack_size
  pub control_size : c.control_stack.size ≡ cstack_size
  pub temp_size : c.temp_stack.size ≡ tstack_size
  pub data_level : Level c.keep_going c.data_stack.top dstack_size
  pub return_level : Level c.keep_going c.return_stack.top rstack_size
  pub control_level : Level c.keep_going c.control_stack.top cstack_size
  pub temp_level : Level c.keep_going c.temp_stack.top tstack_size

-- There is room for one more cell on each stack, whether or not the processor runs.
pub record Roomy (c : CpuContext) : Type 0 where
  pub data_size : c.data_stack.size ≡ dstack_size
  pub return_size : c.return_stack.size ≡ rstack_size
  pub control_size : c.control_stack.size ≡ cstack_size
  pub temp_size : c.temp_stack.size ≡ tstack_size
  pub data_level : c.data_stack.top < dstack_size
  pub return_level : c.return_stack.top < rstack_size
  pub control_level : c.control_stack.top < cstack_size
  pub temp_level : c.temp_stack.top < tstack_size

-- As `Roomy`, with room for a second cell on one of the stacks.
pub record RoomForTwo (id : StackId) (c : CpuContext) : Type 0 where
  pub roomy : Roomy c
  pub two : (stack_of id c).top + 2 ≤ (stack_of id c).size

-- A run from `P` either faults, but not at a stack's array, or returns in `Q`.
pub data Post {A : Type 0} (Q : CpuContext → Type 0) : Result (A × CpuContext) → Type 0 where
  returns : {a : A} {c : CpuContext} → Q c → Post Q (ok (a, c))
  faults : {e : Fault} → e ≢ stack_array → Post Q (fault e)

abbrev pub Ensures : {A : Type 0} → (CpuContext → Type 0) → M A → (CpuContext → Type 0) → Type 0
Ensures P m Q = (c : CpuContext) → P c → Post Q (m c)

bind-Post :
    {A B : Type 0} {Q R : CpuContext → Type 0} {r : Result (A × CpuContext)} (f : A → M B)
    → Post Q r
    → ((a : A) → Ensures Q (f a) R)
    → Post R (elim r [ fault e ↦ fault e | ok (a, c') ↦ f a c' ])
bind-Post f (returns h) k = k _ _ h
bind-Post f (faults h) k = faults h

pub bind :
    {A B : Type 0} {P Q R : CpuContext → Type 0} {m : M A} {f : A → M B}
    → Ensures P m Q
    → ((a : A) → Ensures Q (f a) R)
    → Ensures P (m >>= f) R
bind {f} h k = λ c p. bind-Post f (h c p) k

pub weaken :
    {A : Type 0} {P Q R : CpuContext → Type 0} {m : M A}
    → ((c : CpuContext) → P c → Q c)
    → Ensures Q m R
    → Ensures P m R
weaken w h = λ c p. h c (w c p)

pub branch :
    {A : Type 0} {P Q : CpuContext → Type 0} (b : Bool) {m n : M A}
    → Ensures P m Q
    → Ensures P n Q
    → Ensures P (if b then m else n) Q
branch true h k = h
branch false h k = k

pub pure-Roomy : {A : Type 0} {P : CpuContext → Type 0} (a : A) → Ensures P (pure a) P
pure-Roomy a = λ c h. returns h

pub two→Roomy : (id : StackId) (c : CpuContext) → RoomForTwo id c → Roomy c
two→Roomy id c h = h.roomy

pub Roomy→Guarded : (c : CpuContext) → Roomy c → Guarded c
Roomy→Guarded c h = ground arith

pub Guarded→Roomy : (c : CpuContext) → c.keep_going ≡ true → Guarded c → Roomy c
Guarded→Roomy c e h = ground arith
