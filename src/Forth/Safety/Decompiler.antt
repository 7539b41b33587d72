-- ===== src/Forth/Safety/Decompiler.antt =====
-- DECOMPILE under the assertions on the stacks.
use fprcade.Common.{
  ℕ, zero, suc, Bool, true, false, List, [], ◌∷◌, u16, if◌then◌else◌, ◌==◌, ltb, ◌+◌, ◌||◌,
}
use fprcade.Forth.State.{F, pure, ◌>>=◌, ◌>>◌, ff_memory_size, max_instruction_count}
use fprcade.Forth.Memory.{fetch16ubits}
use fprcade.Forth.StackWords.{print}
use fprcade.Forth.Dictionary.{de_name}
use fprcade.Forth.Decompiler.{
  print_characters, decomp_name, decomp_opcode, decomp_push, decomp_jump, decompile_table,
  decompile_loop, print_flags, print_header, code_address, instr_decompile,
}
use fprcade.Forth.Opcodes.{op_push, op_jump, op_jump_if, op_exit, op_enter, op_does_enter}
use fprcade.Forth.Safety.Rules.{Quiet, bind-Quiet, settle, branch-Quiet, pure-Quiet}
use fprcade.Forth.Safety.Cells.{read_at-Quiet, fetch16ubits-Quiet, stops-Quiet}
use fprcade.Forth.Safety.Guards.{next-Quiet}
use fprcade.Forth.Safety.Words.{IsSafe, with_popped, print-Quiet}
use fprcade.Forth.Safety.Branches.{get_code_field-Quiet, get_parameter_field-Quiet}

-- A text printed, then the rest.
printed : {B : Type 0} (text : List ℕ) {m : F B} → Quiet m → Quiet (do print text; m)
printed text h = bind-Quiet (print-Quiet text) (λ _. h)

print_characters-Quiet : (n a : ℕ) → Quiet (print_characters n a)
unfolding print_characters
print_characters-Quiet zero a = pure-Quiet tt
print_characters-Quiet (suc n) a =
    bind-Quiet (read_at-Quiet a) (λ ch. printed (ch ∷ []) (print_characters-Quiet n (a + 1)))

decomp_name-Quiet : (header ip : ℕ) → Quiet (decomp_name header ip)
unfolding decomp_name
decomp_name-Quiet header ip =
    printed _ (bind-Quiet (read_at-Quiet (header + de_name)) (λ count. print_characters-Quiet _ _))

operand_shown :
    (header ip : ℕ) (show : ℕ → List ℕ)
    → Quiet {A = ℕ} (do
      decomp_name header ip
      n ← fetch16ubits (u16 (ip + 2))
      print (show n)
      print (b'\n' ∷ [])
      pure 4)
operand_shown header ip show =
    bind-Quiet (decomp_name-Quiet header ip)
      λ _. bind-Quiet (fetch16ubits-Quiet _) λ n. printed (show n) (printed _ (pure-Quiet 4))

decompile_table-Quiet : (opcode header ip : ℕ) → Quiet (decompile_table opcode header ip)
unfolding decompile_table decomp_opcode decomp_push decomp_jump
decompile_table-Quiet opcode header ip =
    go (opcode == op_push) (opcode == op_jump_if || opcode == op_jump)
  where
    go :
        (a b : Bool)
        → Quiet ((if a then decomp_push else if b then decomp_jump else decomp_opcode) header ip)
    go true b = operand_shown header ip _
    go false true = operand_shown header ip _
    go false false = bind-Quiet (decomp_name-Quiet header ip) (λ _. printed _ (pure-Quiet 2))

decompile_loop-Quiet : (n ip : ℕ) → Quiet (decompile_loop n ip)
unfolding decompile_loop
decompile_loop-Quiet zero ip = stops-Quiet (λ _. tt)
decompile_loop-Quiet (suc n) ip = bind-Quiet (fetch16ubits-Quiet ip) λ word.
    bind-Quiet (get_code_field-Quiet word) λ opcode.
      branch-Quiet (ltb opcode max_instruction_count)
        (bind-Quiet (decompile_table-Quiet opcode word ip) λ size.
          branch-Quiet (opcode == 0 || opcode == op_exit) (pure-Quiet tt)
            (decompile_loop-Quiet n (u16 (ip + size))))
        (pure-Quiet tt)

print_flags-Quiet : (flags : ℕ) → Quiet (print_flags flags)
unfolding print_flags
print_flags-Quiet flags = printed _ (printed _ (printed _ (printed _ (printed _ (print-Quiet _)))))

print_header-Quiet : (xt : ℕ) → Quiet (print_header xt)
unfolding print_header
print_header-Quiet xt = bind-Quiet (read_at-Quiet _) λ count. printed _ (
    bind-Quiet (print_characters-Quiet _ _) λ _. printed _ (
      bind-Quiet (fetch16ubits-Quiet xt) λ previous. printed _ (
        bind-Quiet (get_code_field-Quiet xt) λ code. printed _ (
          bind-Quiet (fetch16ubits-Quiet _) λ does_code.
            printed _ (bind-Quiet (fetch16ubits-Quiet _) (λ flags. print_flags-Quiet flags))))))

code_address-Quiet : (xt : ℕ) → Quiet (code_address xt)
unfolding code_address
code_address-Quiet xt = bind-Quiet (get_code_field-Quiet xt) λ code.
    branch-Quiet (code == op_enter) (get_parameter_field-Quiet xt)
      (branch-Quiet (code == op_does_enter) (fetch16ubits-Quiet _) (pure-Quiet 0))

pub instr_decompile-IsSafe : (strict : Bool) → IsSafe strict instr_decompile
unfolding instr_decompile
instr_decompile-IsSafe strict word = with_popped word λ xt. settle (
    bind-Quiet (print_header-Quiet xt) λ _. bind-Quiet (code_address-Quiet xt) λ ip.
      bind-Quiet (branch-Quiet (ip == 0) (print-Quiet _) (decompile_loop-Quiet ff_memory_size ip))
        λ _. next-Quiet 2)
