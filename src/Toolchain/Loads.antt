-- ===== src/Toolchain/Loads.antt =====
-- The macro LD of FAsm, run in FPEmu: LDL and LDH with one value leave that value.
use fprcade.Common.{
  ℕ, ◌≡◌, ◌≢◌, ◌+◌, ◌*◌, ◌/◌, ◌%◌, ◌<◌, bit_and, bit_or, arith, ◌>>>◌, ◌<<<◌, u16, refl, ◌∙◌,
}
use fprcade.Common.Bits.{and_ones, and_field, or_fields, or_comm, or_above}
use fprcade.Assembler.Text.{get_stack_id}
use fprcade.Assembler.Generators.{ldl_code, ldh_code}
use fprcade.Emulator.State.{
  CpuContext, Result, ok, ◌>>◌, StackId, data_id, return_id, control_id, temp_id, stack_of, Memory,
  max_stack_size, advance,
}
use fprcade.Emulator.Stacks.{push, pushed, pop, get_stack, stack_number}
use fprcade.Emulator.StackLaws.{
  push_fits, pop-pushed, pushed-popped-pushed, popped, bind_ok, get_stack-stack_number,
}
use fprcade.Emulator.Moves.{exec_ldl, exec_ldh}
use fprcade.Emulator.Run.{execute}
use fprcade.Toolchain.Encoding.{group-eq-div}

-- The opcode's six high bits, with the stack's two bits among them.
with_stack_bits : (opcode d : ℕ) → d < 4 → bit_or (opcode * 4) d ≡ opcode * 4 + d
with_stack_bits opcode d h = or_fields 2 opcode d h

ldl_code-eq-add : (d v : ℕ) → d < 4 → ldl_code d v ≡ 49152 + d * 1024 + v % 1024
unfolding ldl_code
ldl_code-eq-add d v h = ground (
  arith,
  and_ones 10 v,
  or_fields 10 48 (v % 1024),
  or_above 10 48 d (v % 1024),
  with_stack_bits 12 d,
)

ldh_code-eq-add : (d v : ℕ) → d < 4 → v < 65536 → ldh_code d v ≡ 53248 + d * 1024 + v / 1024
unfolding ldh_code
ldh_code-eq-add d v h k =
    ground (arith, or_fields 10 52 (v / 1024), or_above 10 52 d (v / 1024), with_stack_bits 13 d)

stack_number-lt : (id : StackId) → stack_number id < 4
stack_number-lt data_id = omega arith
stack_number-lt return_id = omega arith
stack_number-lt control_id = omega arith
stack_number-lt temp_id = omega arith

execute-ldl_code :
    (memory : Memory) (d v : ℕ) (c : CpuContext)
    → d < 4
    → execute memory (ldl_code d v) c ≡ exec_ldl (ldl_code d v) c
unfolding execute
execute-ldl_code memory d v c h = ground (arith, ldl_code-eq-add d v, group-eq-div (ldl_code d v))

execute-ldh_code :
    (memory : Memory) (d v : ℕ) (c : CpuContext)
    → d < 4
    → v < 65536
    → execute memory (ldh_code d v) c ≡ exec_ldh (ldh_code d v) c
unfolding execute
execute-ldh_code memory d v c h k = ground (arith, ldh_code-eq-add d v, group-eq-div (ldh_code d v))

ldl_fields :
    (d v : ℕ)
    → d < 4
    → (bit_and (ldl_code d v) 0x0C00 >>> 10 ≡ d) × (bit_and (ldl_code d v) 0x03FF ≡ v % 1024)
ldl_fields d v h =
    ground (arith, ldl_code-eq-add d v, and_field 10 2 (ldl_code d v), and_ones 10 (ldl_code d v))

ldh_fields :
    (d v : ℕ)
    → d < 4
    → v < 65536
    → (bit_and (ldh_code d v) 0x0C00 >>> 10 ≡ d) × (bit_and (ldh_code d v) 0x003F ≡ v / 1024)
ldh_fields d v h k =
    ground (arith, ldh_code-eq-add d v, and_field 10 2 (ldh_code d v), and_ones 6 (ldh_code d v))

joined : (v : ℕ) → v < 65536 → u16 (bit_or (v % 1024) ((v / 1024) <<< 10)) ≡ v
joined v h =
    ground (arith, or_comm (v % 1024) ((v / 1024) * 1024), or_fields 10 (v / 1024) (v % 1024))

abbrev at_pc : ℕ → CpuContext → CpuContext
at_pc a c = record c { pc = a }

exec_ldl_lem :
    (id : StackId) (v : ℕ) (c : CpuContext)
    → (stack_of id c).top < max_stack_size
    → exec_ldl (ldl_code (stack_number id) v) c
      ≡ ok (tt, at_pc (u16 ((pushed id (v % 1024) c).pc + 2)) (pushed id (v % 1024) c))
unfolding exec_ldl advance
exec_ldl_lem id v c h =
    rw
      (
        (ldl_fields (stack_number id) v (stack_number-lt id)).0,
        (ldl_fields (stack_number id) v (stack_number-lt id)).1,
      )
      (bind_ok (get_stack (stack_number id)) _ c (get_stack-stack_number id c)
        ∙ bind_ok (push id (v % 1024)) _ c (push_fits id (v % 1024) c h))

pushed-at_pc :
    (id : StackId) (v a : ℕ) (c : CpuContext) → at_pc a (pushed id v c) ≡ pushed id v (at_pc a c)
unfolding pushed
pushed-at_pc data_id v a c = ground arith
pushed-at_pc return_id v a c = ground arith
pushed-at_pc control_id v a c = ground arith
pushed-at_pc temp_id v a c = ground arith

pushed_pc : (id : StackId) (v : ℕ) (c : CpuContext) → (pushed id v c).pc ≡ c.pc
unfolding pushed
pushed_pc data_id v c = ground arith
pushed_pc return_id v c = ground arith
pushed_pc control_id v c = ground arith
pushed_pc temp_id v c = ground arith

popped_top :
    (id : StackId) (v : ℕ) (c : CpuContext)
    → (stack_of id c).top < max_stack_size
    → (stack_of id (popped id (pushed id v c))).top < max_stack_size
unfolding pushed
popped_top data_id v c h = ground arith
popped_top return_id v c h = ground arith
popped_top control_id v c h = ground arith
popped_top temp_id v c h = ground arith

stack_of-at_pc : (id : StackId) (a : ℕ) (c : CpuContext) → stack_of id (at_pc a c) ≡ stack_of id c
stack_of-at_pc data_id a c = refl
stack_of-at_pc return_id a c = refl
stack_of-at_pc control_id a c = refl
stack_of-at_pc temp_id a c = refl

-- LDH on the value that LDL has pushed.
exec_ldh_lem :
    (id : StackId) (v : ℕ) (c : CpuContext)
    → v < 65536
    → (stack_of id c).top < max_stack_size
    → (stack_of id c).top + 1 ≢ (stack_of id c).size
    → exec_ldh (ldh_code (stack_number id) v) (pushed id (v % 1024) c)
      ≡ ok (tt, at_pc (u16 (c.pc + 2)) (pushed id v c))
unfolding exec_ldh advance
exec_ldh_lem id v c k h room =
    rw (fields.0, fields.1)
      (bind_ok (get_stack (stack_number id)) _ c' (get_stack-stack_number id c')
        ∙ bind_ok (pop id) _ c' (pop-pushed id (v % 1024) c h)
        ∙ bind_ok (push id _) _ (popped id c') (push_fits id _ (popped id c') (popped_top id _ c h))
        ∙ value)
  where
    fields :
        (bit_and (ldh_code (stack_number id) v) 0x0C00 >>> 10 ≡ stack_number id)
        × (bit_and (ldh_code (stack_number id) v) 0x003F ≡ v / 1024)
    fields = ldh_fields (stack_number id) v (stack_number-lt id) k

    c' : CpuContext
    c' = pushed id (v % 1024) c

    value :
        ◌≡◌ {A = Result (Unit {0} × CpuContext)}
          (ok (
            tt,
            at_pc
                (u16 (
                  (pushed id
                    (u16 (bit_or (v % 1024 % 65536) ((v / 1024) <<< 10)))
                    (popped id c')).pc
                  + 2))
                (pushed id (u16 (bit_or (v % 1024 % 65536) ((v / 1024) <<< 10))) (popped id c')),
          ))
          (ok (tt, at_pc (u16 (c.pc + 2)) (pushed id v c)))
    value =
        let e : u16 (bit_or (v % 1024 % 65536) ((v / 1024) <<< 10)) ≡ v =
          ground (arith, joined v k) in
        rw (e, pushed-popped-pushed id (v % 1024) v c h room, pushed_pc id v c) refl

-- LD, as FAsm assembles it for one of FPEmu's stacks and a value, pushes the value on that stack: the
-- context after LDL and LDH is that of one `push`, with the program counter four further. The stack
-- must have room for the cell.
pub execute-ldl_code-ldh_code :
    (memory : Memory) (id : StackId) (v : ℕ) (c : CpuContext)
    → v < 65536
    → (stack_of id c).top < max_stack_size
    → (stack_of id c).top + 1 ≢ (stack_of id c).size
    → (execute memory (ldl_code (stack_number id) v)
          >> execute memory (ldh_code (stack_number id) v))
        c
      ≡ ok (tt, record (pushed id v c) { pc = u16 (u16 (c.pc + 2) + 2) })
execute-ldl_code-ldh_code memory id v c k h room =
    bind_ok (execute memory (ldl_code d v)) (λ _. execute memory (ldh_code d v)) c
      (execute-ldl_code memory d v c fits ∙ exec_ldl_lem id v c h)
    ∙ execute-ldh_code memory d v _ fits k
    ∙ second
  where
    d : ℕ
    d = stack_number id

    fits : d < 4
    fits = stack_number-lt id

    a : ℕ
    a = u16 (c.pc + 2)

    second :
        exec_ldh
          (ldh_code d v)
          (at_pc (u16 ((pushed id (v % 1024) c).pc + 2)) (pushed id (v % 1024) c))
        ≡ ok (tt, record (pushed id v c) { pc = u16 (a + 2) })
    second =
        rw (pushed_pc id (v % 1024) c, pushed-at_pc id (v % 1024) a c)
          (exec_ldh_lem id v (at_pc a c) k (rw (stack_of-at_pc id a c) h)
              (rw (stack_of-at_pc id a c) room)
            ∙ rw (← pushed-at_pc id v a c) refl)

-- The letters of FAsm and the numbers of FPEmu: D and T name the same stacks, but the bits that FAsm
-- writes for R are those of FPEmu's control stack, and those for C are of its return stack.
pub get_stack-get_stack_id :
    (c : CpuContext)
    → (get_stack (get_stack_id b'D') c ≡ ok (data_id, c))
      × (get_stack (get_stack_id b'T') c ≡ ok (temp_id, c))
      × (get_stack (get_stack_id b'R') c ≡ ok (control_id, c))
      × (get_stack (get_stack_id b'C') c ≡ ok (return_id, c))
unfolding get_stack get_stack_id
get_stack-get_stack_id c = (refl, refl, refl, refl)
