-- ===== src/Emulator/Safety/Instructions.antt =====
-- Every instruction, run with room on the stacks, faults at no stack's array and leaves the stacks
-- guarded.
use fprcade.Common.{
  ℕ, Bool, true, false, ◌==◌, ltb, ◌>>>◌, ◌<<<◌, u16, if◌then◌else◌, ◌+◌, arith, not, ◌||◌, bit_and,
  bit_or, bit_xor, ◌*◌, ◌^◌, ◌/◌, ◌*ℤ◌, to_u16, ℤ, pos, negsuc, i16,
}
use fprcade.Emulator.State.{
  CpuContext, ok, fault, memory_array, shift_amount, M, pure, fails, ◌>>=◌, ◌>>◌, raise, advance,
  StackId, data_id, return_id, illegal_instruction, Memory,
}
use fprcade.Emulator.Stacks.{push}
use fprcade.Emulator.Flow.{exec_enter, exec_bif, exec_control, stop, control_function, exec_leave}
use fprcade.Emulator.Moves.{exec_stack, exec_ldl, exec_ldh, stack_function}
use fprcade.Emulator.Arithmetic.{
  exec_binary, binary_function, exec_add, exec_mul, exec_eq, exec_asr, asr_value, exec_lt, exec_gt,
  exec_lte, exec_gte, exec_shift_left, exec_shift_right, exec_sto, sto_action, write_byte,
  exec_bitwise, int_result,
}
use fprcade.Emulator.Run.{
  exec_neg, exec_not, exec_rd, rd_action, push_byte, unary_function, exec_unary, execute,
}
use fprcade.Emulator.Safety.Triples.{
  Guarded, Roomy, Post, returns, faults, Ensures, bind, weaken, branch, pure-Roomy, Roomy→Guarded,
}
use fprcade.Emulator.Safety.Cells.{
  push-Guarded, push-Roomy, pop-RoomForTwo, get_stack-Roomy, raise-Guarded, advance-Guarded,
  set_pc-Guarded, get_pc_keeps, with_value, with_two_values,
}

abbrev IsSafe : M (Unit {0}) → Type 0
IsSafe m = Ensures Roomy m Guarded

raise-IsSafe : IsSafe (raise illegal_instruction)
raise-IsSafe = weaken Roomy→Guarded (raise-Guarded _)

pure-IsSafe : IsSafe (pure tt)
pure-IsSafe = weaken Roomy→Guarded (pure-Roomy tt)

-- Each case of the big `switch` counts the program counter up at its end.
then_advance : {m : M (Unit {0})} → IsSafe m → IsSafe (m >> advance)
then_advance h = bind h (λ _. advance-Guarded)

exec_enter-IsSafe : (instr : ℕ) → IsSafe (exec_enter instr)
unfolding exec_enter
exec_enter-IsSafe instr =
    bind get_pc_keeps (λ pc. bind (push-Guarded return_id (pc + 2)) (λ _. set_pc-Guarded _))

exec_bif-IsSafe : (instr : ℕ) → IsSafe (exec_bif instr)
unfolding exec_bif
exec_bif-IsSafe instr = with_value data_id λ v.
    weaken Roomy→Guarded
      (bind get_pc_keeps (λ pc. branch (v == 0) (set_pc-Guarded _) advance-Guarded))

stop-Guarded : Ensures Guarded stop Guarded
unfolding stop
stop-Guarded c h = returns (stopped c h)
  where
    stopped : (c : CpuContext) → Guarded c → Guarded (record c { keep_going = false })
    stopped c h = ground arith

control_function-IsSafe : (func : ℕ) → IsSafe (control_function func)
unfolding control_function exec_leave
control_function-IsSafe func = branch (func == 0x0000) (weaken Roomy→Guarded advance-Guarded) (
    branch (func == 0x0100) (with_value return_id (λ a. weaken Roomy→Guarded (set_pc-Guarded a))) (
      branch (func == 0x0200) (bind (weaken Roomy→Guarded advance-Guarded) (λ _. stop-Guarded))
        raise-IsSafe))

stack_function-IsSafe : (func : ℕ) (s t : StackId) → IsSafe (stack_function func s t)
unfolding stack_function
stack_function-IsSafe func s t = branch (func == 0x0000) (with_value s (λ _. pure-IsSafe)) (
    branch (func == 0x0100)
      (bind (pop-RoomForTwo s) (λ v. bind (push-Roomy s v) (λ _. push-Guarded s v)))
      (branch (func == 0x0200)
        (with_value s
          λ v. bind (pop-RoomForTwo s) λ w. bind (push-Roomy s v) (λ _. push-Guarded s w))
        (branch (func == 0x0300) (with_value s (λ v. push-Guarded t v)) raise-IsSafe)))

exec_stack-IsSafe : (instr : ℕ) → IsSafe (exec_stack instr)
unfolding exec_stack
exec_stack-IsSafe instr = bind (get_stack-Roomy (bit_and instr 0x00C0 >>> 6)) λ s.
    bind (get_stack-Roomy (bit_and instr 0x0030 >>> 4))
      λ t. then_advance (stack_function-IsSafe (bit_and instr 0x0F00) s t)

exec_ldl-IsSafe : (instr : ℕ) → IsSafe (exec_ldl instr)
unfolding exec_ldl
exec_ldl-IsSafe instr =
    bind (get_stack-Roomy (bit_and instr 0x0C00 >>> 10))
      λ s. then_advance (push-Guarded s (bit_and instr 0x03FF))

exec_ldh-IsSafe : (instr : ℕ) → IsSafe (exec_ldh instr)
unfolding exec_ldh
exec_ldh-IsSafe instr = bind (get_stack-Roomy (bit_and instr 0x0C00 >>> 10)) λ s.
    with_value s λ v. then_advance (push-Guarded s (u16 (bit_or v (bit_and instr 0x003F <<< 10))))

-- A result that may be a fault, but no fault at a stack.
computed : {m : M ℕ} → Ensures Roomy m Roomy → IsSafe (m >>= λ r. push data_id r)
computed h = bind h (λ r. push-Guarded data_id r)

int_result-Roomy : (n : ℕ) → Ensures Roomy (int_result n) Roomy
unfolding int_result
int_result-Roomy n = branch (ltb n 0x8000_0000) (pure-Roomy n) (λ c h. faults cc)

bad_shift : Ensures Roomy (fails {A = ℕ} shift_amount) Roomy
bad_shift c h = faults cc

asr_value-Roomy : (s k : ℤ) → Ensures Roomy (asr_value s k) Roomy
unfolding asr_value
asr_value-Roomy s (negsuc k) = bad_shift
asr_value-Roomy s (pos k) = branch (ltb k 32) (pure-Roomy _) bad_shift

exec_asr-IsSafe : (b : Bool) → IsSafe (exec_asr b)
unfolding exec_asr
exec_asr-IsSafe true = with_two_values (λ v w. computed (asr_value-Roomy (i16 w) (i16 v)))
exec_asr-IsSafe false = raise-IsSafe

write_byte-IsSafe : (n : ℕ) → IsSafe (write_byte n)
unfolding write_byte
write_byte-IsSafe n c h = returns (ground arith)

sto_action-IsSafe : (instr a n : ℕ) → IsSafe (sto_action instr a n)
unfolding sto_action
sto_action-IsSafe instr a n = branch (bit_and instr 0x40 == 0) raise-IsSafe (
    branch (bit_and instr 0x03 == 1) (branch (a == 0) (write_byte-IsSafe n) pure-IsSafe)
      raise-IsSafe)

exec_bitwise-IsSafe : (op : ℕ → ℕ → ℕ) → IsSafe (exec_bitwise op)
unfolding exec_bitwise
exec_bitwise-IsSafe op = with_two_values (λ v w. push-Guarded data_id (op w v))

exec_add-IsSafe : (b : Bool) → IsSafe (exec_add b)
unfolding exec_add
exec_add-IsSafe b = with_two_values (λ v w. push-Guarded data_id _)

exec_lt-IsSafe : (b : Bool) → IsSafe (exec_lt b)
unfolding exec_lt
exec_lt-IsSafe b = with_two_values (λ v w. push-Guarded data_id _)

exec_gt-IsSafe : (b : Bool) → IsSafe (exec_gt b)
unfolding exec_gt
exec_gt-IsSafe b = with_two_values (λ v w. push-Guarded data_id _)

exec_lte-IsSafe : (b : Bool) → IsSafe (exec_lte b)
unfolding exec_lte
exec_lte-IsSafe b = with_two_values (λ v w. push-Guarded data_id _)

exec_gte-IsSafe : (b : Bool) → IsSafe (exec_gte b)
unfolding exec_gte
exec_gte-IsSafe b = with_two_values (λ v w. push-Guarded data_id _)

exec_eq-IsSafe : IsSafe exec_eq
unfolding exec_eq
exec_eq-IsSafe = with_two_values (λ v w. push-Guarded data_id _)

exec_mul-IsSafe : (b : Bool) → IsSafe (exec_mul b)
unfolding exec_mul
exec_mul-IsSafe b =
    with_two_values
      λ v w. computed (branch b (pure-Roomy (to_u16 (i16 v *ℤ i16 w))) (int_result-Roomy (v * w)))

exec_shift_left-IsSafe : IsSafe exec_shift_left
unfolding exec_shift_left
exec_shift_left-IsSafe =
    with_two_values λ v w. computed (branch (ltb v 32) (int_result-Roomy (w * 2 ^ v)) bad_shift)

exec_shift_right-IsSafe : IsSafe exec_shift_right
unfolding exec_shift_right
exec_shift_right-IsSafe =
    with_two_values λ v w. computed (branch (ltb v 32) (pure-Roomy (w / 2 ^ v)) bad_shift)

exec_sto-IsSafe : (instr : ℕ) → IsSafe (exec_sto instr)
unfolding exec_sto
exec_sto-IsSafe instr = with_two_values (λ n a. sto_action-IsSafe instr a n)

binary_function-IsSafe : (func instr : ℕ) → IsSafe (binary_function func instr)
unfolding binary_function
binary_function-IsSafe func instr =
    let s = not (bit_and instr 0x0010 == 0) in
    branch (func == 0x00) (exec_add-IsSafe s) (
      branch (func == 0x01) (exec_mul-IsSafe s) (
        branch (func == 0x03) (exec_eq-IsSafe) (
          branch (func == 0x04) (exec_asr-IsSafe s) (
            branch (func == 0x05) (exec_lt-IsSafe s) (
              branch (func == 0x06) (exec_gt-IsSafe s) (
                branch (func == 0x07) (exec_lte-IsSafe s) (
                  branch (func == 0x08) (exec_gte-IsSafe s) (
                    branch (func == 0x09) (exec_shift_left-IsSafe) (
                      branch (func == 0x0A) (exec_shift_right-IsSafe) (
                        branch (func == 0x0B) (exec_sto-IsSafe instr) (
                          branch (func == 0x0D) (exec_bitwise-IsSafe bit_and) (
                            branch (func == 0x0E) (exec_bitwise-IsSafe bit_or) (
                              branch (func == 0x0F) (exec_bitwise-IsSafe bit_xor)
                                raise-IsSafe)))))))))))))

push_byte-IsSafe : (memory : Memory) (a : ℕ) → IsSafe (push_byte memory a)
unfolding push_byte
push_byte-IsSafe memory a c h = go (ltb a 65536)
  where
    go :
        (b : Bool)
        → Post Guarded (elim (if b then ok (memory a) else fault memory_array) [
          | fault e ↦ fault e
          | ok byte ↦ push data_id byte c
        ])
    go true = push-Guarded data_id (memory a) c h
    go false = faults cc

rd_action-IsSafe : (memory : Memory) (instr a : ℕ) → IsSafe (rd_action memory instr a)
unfolding rd_action
rd_action-IsSafe memory instr a =
    branch (bit_and instr 0x40 == 0)
      (branch (bit_and instr 0x03 == 1) (push_byte-IsSafe memory a) raise-IsSafe) raise-IsSafe

unary_function-IsSafe :
    (func : ℕ) (memory : Memory) (instr : ℕ) → IsSafe (unary_function func memory instr)
unfolding unary_function exec_neg exec_not exec_rd
unary_function-IsSafe func memory instr =
    branch (func == 0x00) (with_value data_id (λ v. push-Guarded data_id _)) (
      branch (func == 0x01) (with_value data_id (λ v. push-Guarded data_id _)) (
        branch (func == 0x02) (with_value data_id (λ a. rd_action-IsSafe memory instr a))
          raise-IsSafe))

-- One instruction, of any group.
pub execute-IsSafe : (memory : Memory) (instr : ℕ) → IsSafe (execute memory instr)
unfolding execute exec_control exec_binary exec_unary
execute-IsSafe memory instr =
    let g = bit_and instr 0xF000 in
    branch (g == 0x4000 || (g == 0x5000 || (g == 0x6000 || g == 0x7000))) (exec_enter-IsSafe instr)
      (branch (g == 0x1000) (exec_bif-IsSafe instr) (
        branch (g == 0x8000) (then_advance (control_function-IsSafe (bit_and instr 0x0F00))) (
          branch (g == 0xB000) (exec_stack-IsSafe instr) (
            branch (g == 0xC000) (exec_ldl-IsSafe instr) (
              branch (g == 0xD000) (exec_ldh-IsSafe instr) (
                branch (g == 0xE000)
                  (then_advance (binary_function-IsSafe (bit_and instr 0x0F80 >>> 7) instr))
                  (branch (g == 0xF000)
                    (then_advance (unary_function-IsSafe (bit_and instr 0x0F00 >>> 8) memory instr))
                    (then_advance raise-IsSafe))))))))
