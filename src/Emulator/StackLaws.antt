-- ===== src/Emulator/StackLaws.antt =====
-- FPEmu, `fpemu.c`: `push` and `pop` where neither array bound is met, and the two together.
use fprcade.Common.{ℕ, ◌≡◌, ◌≢◌, ◌+◌, ◌-◌, ◌≤◌, ◌<◌, ◌%◌, ◌==◌, arith, refl, lt→ltb, false, ap}
use mathlib.Core.Path.{fun_ext}
use fprcade.Emulator.State.{
  CpuContext, Result, M, ◌>>=◌, ok, fault, StackId, data_id, return_id, control_id, temp_id,
  stack_of, with_stack, max_stack_size,
}
use fprcade.Emulator.Stacks.{push, pushed, pop, store, get_stack, stack_number}

pub push_fits :
    (id : StackId) (v : ℕ) (c : CpuContext)
    → (stack_of id c).top < max_stack_size
    → push id v c ≡ ok (tt, pushed id v c)
unfolding push
push_fits id v c h = rw (lt→ltb _ _ h)

-- The context after a cell is taken.
abbrev pub popped : StackId → CpuContext → CpuContext
popped id c = with_stack id (record (stack_of id c) { top = (stack_of id c).top - 1 }) c

pub pop_fits :
    (id : StackId) (c : CpuContext)
    → (stack_of id c).top ≢ 0
    → (stack_of id c).top ≤ max_stack_size
    → pop id c ≡ ok ((stack_of id c).values ((stack_of id c).top - 1), popped id c)
unfolding pop
pop_fits id c h k =
    let e : ((stack_of id c).top == 0) ≡ false = ground arith in
    rw (e, lt→ltb ((stack_of id c).top - 1) max_stack_size (omega arith))

-- The first piece of a chain, done.
pub bind_ok :
    {A B : Type 0} (m : M A) (f : A → M B) (c : CpuContext) {c' : CpuContext} {a : A}
    → m c ≡ ok (a, c')
    → (m >>= f) c ≡ f a c'
bind_ok {A} {B} m f c e =
    ap {B = Result (B × CpuContext)}
      (λ (r : Result (A × CpuContext)). elim r [ fault e ↦ fault e | ok (a, c') ↦ f a c' ]) e

pub get_stack-stack_number :
    (id : StackId) (c : CpuContext) → get_stack (stack_number id) c ≡ ok (id, c)
unfolding get_stack
get_stack-stack_number data_id c = refl
get_stack-stack_number return_id c = refl
get_stack-stack_number control_id c = refl
get_stack-stack_number temp_id c = refl

-- A cell pushed without an overflow, taken again: the value, and the stack as high as before.
pub pop-pushed :
    (id : StackId) (v : ℕ) (c : CpuContext)
    → (stack_of id c).top < max_stack_size
    → pop id (pushed id v c) ≡ ok (v % 65536, popped id (pushed id v c))
unfolding pop pushed
pop-pushed data_id v c h = ground arith
pop-pushed return_id v c h = ground arith
pop-pushed control_id v c h = ground arith
pop-pushed temp_id v c h = ground arith

store-store : (a : ℕ → ℕ) (i v w : ℕ) → store (store a i v) i w ≡ store a i w
store-store a i v w = fun_ext (λ j. ground arith)

-- A cell written over another is as if it had been pushed in its place.
pub pushed-popped-pushed :
    (id : StackId) (v w : ℕ) (c : CpuContext)
    → (stack_of id c).top < max_stack_size
    → (stack_of id c).top + 1 ≢ (stack_of id c).size
    → pushed id w (popped id (pushed id v c)) ≡ pushed id w c
unfolding pushed
pushed-popped-pushed data_id v w c h k =
    ground (arith, store-store c.data_stack.values c.data_stack.top (v % 65536) (w % 65536))
pushed-popped-pushed return_id v w c h k =
    ground (arith, store-store c.return_stack.values c.return_stack.top (v % 65536) (w % 65536))
pushed-popped-pushed control_id v w c h k =
    ground (arith, store-store c.control_stack.values c.control_stack.top (v % 65536) (w % 65536))
pushed-popped-pushed temp_id v w c h k =
    ground (arith, store-store c.temp_stack.values c.temp_stack.top (v % 65536) (w % 65536))
