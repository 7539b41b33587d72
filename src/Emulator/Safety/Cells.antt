-- ===== src/Emulator/Safety/Cells.antt =====
-- `push`, `pop`, `get_stack` and the changes of the program counter, under the assertions on room.
use fprcade.Common.{ℕ, ◌≡◌, ◌≢◌, false, ◌==◌, ◌<◌, arith, Bool-cases, inl, inr, ◌-◌, lt→ltb}
use fprcade.Emulator.State.{
  CpuContext, ok, M, pure, ◌>>=◌, ◌>>◌, raise, advance, set_pc, get_pc, StackId, data_id, return_id,
  control_id, temp_id, stack_of, with_stack, max_stack_size, ExceptionCode, illegal_stack_id,
  stack_underflow,
}
use fprcade.Emulator.Stacks.{push, pushed, pop, get_stack}
use fprcade.Emulator.Safety.Triples.{
  Guarded, Roomy, RoomForTwo, returns, Ensures, bind, weaken, branch, pure-Roomy, two→Roomy,
}

-- The four stacks have the same bounds under another name.
top-lt : (id : StackId) {c : CpuContext} → Roomy c → (stack_of id c).top < max_stack_size
top-lt data_id h = omega arith
top-lt return_id h = omega arith
top-lt control_id h = omega arith
top-lt temp_id h = omega arith

pushed-Guarded : (id : StackId) (v : ℕ) (c : CpuContext) → Roomy c → Guarded (pushed id v c)
unfolding pushed
pushed-Guarded data_id v c h = ground arith
pushed-Guarded return_id v c h = ground arith
pushed-Guarded control_id v c h = ground arith
pushed-Guarded temp_id v c h = ground arith

pushed-Roomy : (id : StackId) (v : ℕ) (c : CpuContext) → RoomForTwo id c → Roomy (pushed id v c)
unfolding pushed
pushed-Roomy data_id v c h = ground arith
pushed-Roomy return_id v c h = ground arith
pushed-Roomy control_id v c h = ground arith
pushed-Roomy temp_id v c h = ground arith

push_in_room :
    (id : StackId) (v : ℕ) (c : CpuContext) → Roomy c → push id v c ≡ ok (tt, pushed id v c)
unfolding push
push_in_room id v c h = rw (lt→ltb _ _ (top-lt id h))

pub push-Guarded : (id : StackId) (v : ℕ) → Ensures Roomy (push id v) Guarded
push-Guarded id v c h = rw (push_in_room id v c h) (returns (pushed-Guarded id v c h))

pub push-Roomy : (id : StackId) (v : ℕ) → Ensures (RoomForTwo id) (push id v) Roomy
push-Roomy id v c h = rw (push_in_room id v c h.roomy) (returns (pushed-Roomy id v c h))

underflow_two :
    (id : StackId) (c : CpuContext)
    → (stack_of id c).top ≡ 0
    → Roomy c
    → RoomForTwo id (record c { keep_going = false; exception = stack_underflow })
underflow_two data_id c e h = ground arith
underflow_two return_id c e h = ground arith
underflow_two control_id c e h = ground arith
underflow_two temp_id c e h = ground arith

below_two :
    (id : StackId) (c : CpuContext)
    → (stack_of id c).top ≢ 0
    → Roomy c
    → RoomForTwo id (with_stack id (record (stack_of id c) { top = (stack_of id c).top - 1 }) c)
below_two data_id c e h = ground arith
below_two return_id c e h = ground arith
below_two control_id c e h = ground arith
below_two temp_id c e h = ground arith

pub pop-RoomForTwo : (id : StackId) → Ensures Roomy (pop id) (RoomForTwo id)
unfolding pop
pop-RoomForTwo id c h = elim (Bool-cases ((stack_of id c).top == 0)) [
  | inl e ↦ rw e (returns (underflow_two id c (ground arith) h))
  | inr e ↦
      rw (e, lt→ltb ((stack_of id c).top - 1) max_stack_size (omega (arith, top-lt id h)))
        (returns (below_two id c (ground arith) h))
]

pub get_stack-Roomy : (n : ℕ) → Ensures Roomy (get_stack n) Roomy
unfolding get_stack
get_stack-Roomy n = branch (n == 0) (pure-Roomy _) (
    branch (n == 1) (pure-Roomy _)
      (branch (n == 2) (pure-Roomy _) (branch (n == 3) (pure-Roomy _) unknown)))
  where
    unknown : Ensures Roomy (raise illegal_stack_id >> pure data_id) Roomy
    unknown c h = returns (ground arith)

pub raise-Guarded : (e : ExceptionCode) → Ensures Guarded (raise e) Guarded
unfolding raise
raise-Guarded e c h = returns (raised e c h)
  where
    raised :
        (e : ExceptionCode) (c : CpuContext)
        → Guarded c
        → Guarded (record c { exception = e; keep_going = false })
    raised e c h = ground arith

pub advance-Guarded : Ensures Guarded advance Guarded
unfolding advance
advance-Guarded c h = returns (record {
  data_size = h.data_size;
  return_size = h.return_size;
  control_size = h.control_size;
  temp_size = h.temp_size;
  data_level = h.data_level;
  return_level = h.return_level;
  control_level = h.control_level;
  temp_level = h.temp_level;
})

pub set_pc-Guarded : (a : ℕ) → Ensures Guarded (set_pc a) Guarded
unfolding set_pc
set_pc-Guarded a c h = returns (record {
  data_size = h.data_size;
  return_size = h.return_size;
  control_size = h.control_size;
  temp_size = h.temp_size;
  data_level = h.data_level;
  return_level = h.return_level;
  control_level = h.control_level;
  temp_level = h.temp_level;
})

pub get_pc_keeps : {P : CpuContext → Type 0} → Ensures P get_pc P
unfolding get_pc
get_pc_keeps c h = returns h

-- The common shapes: one value popped, or two, both from the data stack.
pub with_value :
    (id : StackId) {f : ℕ → M (Unit {0})}
    → ((v : ℕ) → Ensures Roomy (f v) Guarded)
    → Ensures Roomy (pop id >>= f) Guarded
with_value id k = bind (pop-RoomForTwo id) (λ v. weaken (two→Roomy id) (k v))

pub with_two_values :
    {f : ℕ → ℕ → M (Unit {0})}
    → ((v w : ℕ) → Ensures Roomy (f v w) Guarded)
    → Ensures Roomy (pop data_id >>= λ v. pop data_id >>= f v) Guarded
with_two_values k = with_value data_id (λ v. with_value data_id (k v))
