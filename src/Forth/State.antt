-- ===== src/Forth/State.antt =====
-- CF_Forth_V2, `ff.h`: the constants, `T_Stack` and `T_Context`, and the monad in which the functions
-- of `ff.c` run.
use fprcade.Common.{ℕ, Bool, List, u16, ◌+◌}

-- `FF_MEMORY_SIZE`, `FF_CELL_SIZE` and `MAX_INSTRUCTION_COUNT`.
abbrev pub ff_memory_size : ℕ
ff_memory_size = 65536

abbrev pub ff_cell_size : ℕ
ff_cell_size = 2

abbrev pub max_instruction_count : ℕ
max_instruction_count = 256

-- `FF_LOC_HERE` and the other places of the system variables.
abbrev pub ff_loc_here : ℕ
ff_loc_here = 2

abbrev pub ff_loc_state : ℕ
ff_loc_state = 4

abbrev pub ff_loc_base : ℕ
ff_loc_base = 6

abbrev pub ff_loc_input_buffer_index : ℕ
ff_loc_input_buffer_index = 8

abbrev pub ff_loc_input_buffer_count : ℕ
ff_loc_input_buffer_count = 10

abbrev pub ff_loc_word_buffer : ℕ
ff_loc_word_buffer = 14

abbrev pub ff_loc_input_buffer : ℕ
ff_loc_input_buffer = 142

abbrev pub ff_input_buffer_size : ℕ
ff_input_buffer_size = 1024

abbrev pub ff_system_variables_end : ℕ
ff_system_variables_end = 1166

abbrev pub ff_return_stack_size : ℕ
ff_return_stack_size = 24

abbrev pub ff_control_stack_size : ℕ
ff_control_stack_size = 20

abbrev pub ff_data_stack_size : ℕ
ff_data_stack_size = 32

-- `T_Stack`.
pub record CellStack : Type 0 where
  pub top : ℕ
  pub where_ : ℕ
  pub bottom : ℕ

-- `T_Context`. `input` is what is left to read on `stdin`, and `output` what was written to `stdout`,
-- the last character first.
pub record ForthContext : Type 0 where
  pub ip : ℕ
  pub dataspace : ℕ → ℕ
  pub run : Bool
  pub dict_head : ℕ
  pub top : ℕ
  pub recover : ℕ
  pub control_stack : CellStack
  pub data_stack : CellStack
  pub return_stack : CellStack
  pub input : List ℕ
  pub output : List ℕ

-- How a function ends the program, or is left undefined by C: a failed `CF_Assert` of `pop`, of `push`
-- or of another function, `exit(100)`, an access past the data space or the instruction table, a
-- variable that was never written, a division by 0, and a loop whose state comes again.
pub data Stop : Type 0 where
  pop_assert push_assert assert_failed exit_100 : Stop
  out_of_bounds indeterminate zero_division never_ends : Stop

pub data Outcome {ℓ} (A : Type ℓ) : Type ℓ where
  done : A → Outcome A
  stop : Stop → Outcome A

abbrev pub F : Type 0 → Type 0
F A = ForthContext → Outcome (A × ForthContext)

abbrev pub pure : {A : Type 0} → A → F A
pure a c = done (a, c)

infixl 5 ◌>>=◌ ◌>>◌
abbrev pub ◌>>=◌ : {A B : Type 0} → F A → (A → F B) → F B
◌>>=◌ m f c = elim (m c) [ stop e ↦ stop e | done (a, c') ↦ f a c' ]

abbrev pub ◌>>◌ : {B : Type 0} → F (Unit {0}) → F B → F B
m >> k = m >>= λ _. k

abbrev pub stops : {A : Type 0} → Stop → F A
stops e c = stop e

-- The three stacks, by the pointer that the code takes of each.
pub data StackName : Type 0 where
  on_control on_data on_return : StackName

abbrev pub stack_of : StackName → ForthContext → CellStack
stack_of on_control c = c.control_stack
stack_of on_data c = c.data_stack
stack_of on_return c = c.return_stack

abbrev pub with_stack : StackName → CellStack → ForthContext → ForthContext
with_stack on_control s c = record c { control_stack = s }
with_stack on_data s c = record c { data_stack = s }
with_stack on_return s c = record c { return_stack = s }

-- `return (ctx->ip + n);`
unfoldable pub next : ℕ → F ℕ
next n c = done (u16 (c.ip + n), c)

unfoldable pub get_ip : F ℕ
get_ip c = done (c.ip, c)

unfoldable pub get_dict_head : F ℕ
get_dict_head c = done (c.dict_head, c)

unfoldable pub set_dict_head : ℕ → F (Unit {0})
set_dict_head h c = done (tt, record c { dict_head = h })
