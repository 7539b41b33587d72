-- ===== src/Assembler/Operators.antt =====
-- FAsm, `fa.c`: the generators of the operators and of the stack operations.
use fprcade.Common.{◌==◌, ◌||◌, ltb, if◌then◌else◌, ℕ, ◌+◌, some, length, bit_or, u16, ◌<<<◌}
use fprcade.Assembler.Text.{
  first_char, ErrorReason, all_ok, syntax_error, get_stack_id, get_size_id,
}
use fprcade.Assembler.Generators.{Generator, word_at, emit, emit_code, refuse}

unfoldable pub xor_generator : Generator
unfolding emit
xor_generator words table h address = emit 0xe780 h address

unfoldable pub or_generator : Generator
unfolding emit
or_generator words table h address = emit 0xe700 h address

unfoldable pub and_generator : Generator
unfolding emit
and_generator words table h address = emit 0xe680 h address

unfoldable pub eq_generator : Generator
unfolding emit
eq_generator words table h address = emit 0xe180 h address

-- RD, STO, IRD and ISTO: the address goes up even on an error.
unfoldable pub rd_sto_generator : ℕ → Generator
unfolding emit
rd_sto_generator opcode words table h address =
    let size = get_size_id (first_char (word_at words 1)) in
    if ltb (length words) 2 || size == 0xF
    then some (record { hex = h; new_address = u16 (address + 2); reason = syntax_error })
    else emit (bit_or opcode size) h address

unfoldable pub rd_generator : Generator
unfolding rd_sto_generator
rd_generator words table h address = rd_sto_generator 0xF200 words table h address

unfoldable pub sto_generator : Generator
unfolding rd_sto_generator
sto_generator words table h address = rd_sto_generator 0xE580 words table h address

unfoldable pub ird_generator : Generator
unfolding rd_sto_generator
ird_generator words table h address = rd_sto_generator 0xF280 words table h address

unfoldable pub isto_generator : Generator
unfolding rd_sto_generator
isto_generator words table h address = rd_sto_generator 0xE5C0 words table h address

unfoldable pub lt_generator : Generator
unfolding emit
lt_generator words table h address = emit 0xe290 h address

unfoldable pub lte_generator : Generator
unfolding emit
lte_generator words table h address = emit 0xe390 h address

unfoldable pub ltu_generator : Generator
unfolding emit
ltu_generator words table h address = emit 0xe280 h address

unfoldable pub lteu_generator : Generator
unfolding emit
lteu_generator words table h address = emit 0xe380 h address

unfoldable pub gteu_generator : Generator
unfolding emit
gteu_generator words table h address = emit 0xe400 h address

unfoldable pub gte_generator : Generator
unfolding emit
gte_generator words table h address = emit 0xe410 h address

unfoldable pub gtu_generator : Generator
unfolding emit
gtu_generator words table h address = emit 0xe300 h address

unfoldable pub gt_generator : Generator
unfolding emit
gt_generator words table h address = emit 0xe310 h address

unfoldable pub lsl_generator : Generator
unfolding emit
lsl_generator words table h address = emit 0xe480 h address

unfoldable pub lsr_generator : Generator
unfolding emit
lsr_generator words table h address = emit 0xe500 h address

unfoldable pub asr_generator : Generator
unfolding emit
asr_generator words table h address = emit 0xe210 h address

unfoldable pub add_generator : Generator
unfolding emit
add_generator words table h address = emit 0xe010 h address

unfoldable pub mul_generator : Generator
unfolding emit
mul_generator words table h address = emit 0xe080 h address

unfoldable pub mulu_generator : Generator
unfolding emit
mulu_generator words table h address = emit 0xe090 h address

unfoldable pub not_generator : Generator
unfolding emit
not_generator words table h address = emit 0xf000 h address

unfoldable pub neg_generator : Generator
unfolding emit
neg_generator words table h address = emit 0xf100 h address

-- The reason that the two tests on `0x7` leave.
unfoldable pub stack_op_reason : ℕ → ErrorReason → ErrorReason
stack_op_reason bits r = if bits == 0x7 then syntax_error else r

unfoldable pub gen_stack_op_generator : ℕ → Generator
unfolding refuse stack_op_reason
gen_stack_op_generator opcode words table h address =
    let sbits = get_stack_id (first_char (word_at words 1)) in
    let tbits = get_stack_id (first_char (word_at words 2)) in
    if ltb (length words) 2
    then refuse syntax_error h address
    else if length words == 3
    then some (record {
      hex = emit_code (bit_or (bit_or opcode (sbits <<< 6)) (tbits <<< 4)) h;
      new_address = u16 (address + 2);
      reason = stack_op_reason tbits (stack_op_reason sbits all_ok);
    })
    else some (record {
      hex = emit_code (bit_or opcode (sbits <<< 6)) h;
      new_address = u16 (address + 2);
      reason = stack_op_reason sbits all_ok;
    })

unfoldable pub mov_generator : Generator
unfolding gen_stack_op_generator
mov_generator words table h address = gen_stack_op_generator 0xB300 words table h address

unfoldable pub dup_generator : Generator
unfolding gen_stack_op_generator
dup_generator words table h address = gen_stack_op_generator 0xB100 words table h address

unfoldable pub swap_generator : Generator
unfolding gen_stack_op_generator
swap_generator words table h address = gen_stack_op_generator 0xB200 words table h address

unfoldable pub drop_generator : Generator
unfolding gen_stack_op_generator
drop_generator words table h address = gen_stack_op_generator 0xB000 words table h address
