-- ===== src/Emulator/State.antt =====
-- FPEmu, `fpemu.c`: the processor state, the exception codes and the stack identifiers, and the
-- monad in which the instructions run.
use fprcade.Common.{ℕ, Bool, false, List, u16, ◌+◌}

-- `MEMORY_SIZE` and `MAX_STACK_SIZE`.
abbrev pub memory_size : ℕ
memory_size = 65536

abbrev pub max_stack_size : ℕ
max_stack_size = 64

abbrev pub dstack_size : ℕ
dstack_size = 16

abbrev pub rstack_size : ℕ
rstack_size = 32

abbrev pub cstack_size : ℕ
cstack_size = 32

abbrev pub tstack_size : ℕ
tstack_size = 16

pub data ExceptionCode : Type 0 where
  all_is_ok stack_overflow stack_underflow illegal_instruction illegal_stack_id : ExceptionCode

-- `values` is the array; only its first `max_stack_size` cells exist.
pub record Stack : Type 0 where
  pub top : ℕ
  pub size : ℕ
  pub values : ℕ → ℕ

-- `output` is what was written to `fd_out`, the last byte first.
pub record CpuContext : Type 0 where
  pub keep_going : Bool
  pub single_step : Bool
  pub exception : ExceptionCode
  pub data_stack : Stack
  pub return_stack : Stack
  pub control_stack : Stack
  pub temp_stack : Stack
  pub pc : ℕ
  pub instruction : ℕ
  pub output : List ℕ

-- The 64K of memory as a function of the address; an access at `memory_size` or above is a fault.
abbrev pub Memory : Type 0
Memory = ℕ → ℕ

-- What C leaves undefined: a cell past the end of a stack's array, a byte past the end of the
-- memory, a shift by 32 or more or by a negative number, and an `int` result that does not fit.
pub data Fault : Type 0 where
  stack_array memory_array shift_amount int_overflow : Fault

pub data Result {ℓ} (A : Type ℓ) : Type ℓ where
  ok : A → Result A
  fault : Fault → Result A

-- A piece of the emulator's code: it changes the context and returns a value.
abbrev pub M : Type 0 → Type 0
M A = CpuContext → Result (A × CpuContext)

abbrev pub pure : {A : Type 0} → A → M A
pure a c = ok (a, c)

infixl 5 ◌>>=◌ ◌>>◌
abbrev pub ◌>>=◌ : {A B : Type 0} → M A → (A → M B) → M B
◌>>=◌ m f c = elim (m c) [ fault e ↦ fault e | ok (a, c') ↦ f a c' ]

abbrev pub ◌>>◌ : {B : Type 0} → M (Unit {0}) → M B → M B
m >> k = m >>= λ _. k

abbrev pub fails : {A : Type 0} → Fault → M A
fails e c = fault e

-- The four stacks, by the pointer that the code takes of each.
pub data StackId : Type 0 where
  data_id return_id control_id temp_id : StackId

abbrev pub stack_of : StackId → CpuContext → Stack
stack_of data_id c = c.data_stack
stack_of return_id c = c.return_stack
stack_of control_id c = c.control_stack
stack_of temp_id c = c.temp_stack

abbrev pub with_stack : StackId → Stack → CpuContext → CpuContext
with_stack data_id s c = record c { data_stack = s }
with_stack return_id s c = record c { return_stack = s }
with_stack control_id s c = record c { control_stack = s }
with_stack temp_id s c = record c { temp_stack = s }

-- `c->exception = e; c->keep_going = false;`
unfoldable pub raise : ExceptionCode → M (Unit {0})
raise e c = ok (tt, record c { exception = e; keep_going = false })

-- `(c->pc) += 2;`
unfoldable pub advance : M (Unit {0})
advance c = ok (tt, record c { pc = u16 (c.pc + 2) })

unfoldable pub set_pc : ℕ → M (Unit {0})
set_pc a c = ok (tt, record c { pc = u16 a })

unfoldable pub get_pc : M ℕ
get_pc c = ok (c.pc, c)
