-- ===== src/Forth/Calls.antt =====
-- ENTER and EXIT: a colon word that is called comes back behind the call.
use fprcade.Common.{ℕ, ◌≡◌, ap, ◌∙◌, inr, u16, ◌+◌, ◌-◌, ◌<◌, arith}
use fprcade.Forth.State.{ForthContext, done, get_ip, on_return}
use fprcade.Forth.Memory.{read_at, push_cell, align}
use fprcade.Forth.Dictionary.{get_parameter_field, i8_in_u16}
use fprcade.Forth.Opcodes.{op_enter, op_exit}
use fprcade.Forth.ControlFlow.{instr_enter, instr_exit}
use fprcade.Forth.Interpreters.{inner_step}
use fprcade.Forth.MemoryLaws.{
  word_at, put_word, bind_ok, push_ok, pop_ok, pushed, popped, word_at-put_word, word_at-put_other,
  read_at_ok, put_word_other,
}
use fprcade.Forth.CodeLaws.{code_at, step_ok, full_ok, empty_ok, run_enter, run_exit, small}
use fprcade.Forth.Conditionals.{pushed-Placed, back}
use fprcade.Forth.Safety.Rules.{Has, filled, roomy}

-- The first address behind the header of an entry, rounded up to an even one.
unfoldable pub parameter_field : (ℕ → ℕ) → ℕ → ℕ
unfolding align i8_in_u16
parameter_field d e = align (u16 (u16 (e + i8_in_u16 (d (e + 10))) + 12))

field_ok :
    (e : ℕ) (c : ForthContext)
    → e + 10 < 65536
    → get_parameter_field e c ≡ done (parameter_field c.dataspace e, c)
unfolding get_parameter_field parameter_field
field_ok e c h = bind_ok (read_at (e + 10)) _ c (read_at_ok (e + 10) c h)

enter_ok :
    (e : ℕ) (c : ForthContext)
    → Has (roomy on_return) c
    → e + 11 < 65484
    → instr_enter e c
      ≡ done (
        parameter_field (pushed on_return (u16 (c.ip + 2)) c).dataspace e,
        pushed on_return (u16 (c.ip + 2)) c,
      )
unfolding instr_enter get_ip
enter_ok e c s l =
    full_ok on_return e _ c (omega (arith, s.return_placed, s.known))
    ∙ bind_ok (push_cell on_return (u16 (c.ip + 2))) _ c (
        push_ok on_return (u16 (c.ip + 2)) c (omega (arith, s.return_placed))
          (omega (arith, s.return_placed, s.known)))
    ∙ field_ok e (pushed on_return (u16 (c.ip + 2)) c) (omega arith)

exit_ok :
    (w : ℕ) (c : ForthContext)
    → Has (filled on_return) c
    → instr_exit w c ≡ done (word_at c.dataspace (c.return_stack.where_ - 2), popped on_return c)
unfolding instr_exit
exit_ok w c s =
    empty_ok on_return w _ c (omega (arith, s.return_placed, s.known))
    ∙ pop_ok on_return c (omega (arith, s.return_placed, s.known)) (omega (arith, s.return_placed))
        (omega (arith, s.return_placed))

-- The context after the call, with the cell behind it on the return stack.
abbrev pub called : ℕ → ForthContext → ForthContext
called e c = record (pushed on_return (u16 (c.ip + 2)) c) { ip = parameter_field c.dataspace e }

call_ok :
    (e : ℕ) (c : ForthContext)
    → Has (roomy on_return) c
    → c.ip + 1 < 65536
    → word_at c.dataspace c.ip ≡ e
    → e + 12 < 65484
    → code_at c.dataspace e ≡ op_enter
    → inner_step c ≡ done (tt, called e c)
unfolding parameter_field
call_ok e c s l i j k =
    step_ok c e op_enter l i (omega arith) k (run_enter e c ∙ enter_ok e c s (omega arith))
    ∙ ap
        (λ (b : ℕ). done (
          tt,
          record (pushed on_return (u16 (c.ip + 2)) c) {
            ip = align (u16 (u16 (e + i8_in_u16 b) + 12));
          },
        ))
        (put_word_other c.dataspace c.return_stack.where_ (e + 10) (u16 (u16 (c.ip + 2)))
          (omega (arith, s.return_placed)) (omega (arith, s.return_placed)))

pushed-filled :
    (v : ℕ) (c : ForthContext)
    → Has (roomy on_return) c
    → Has (filled on_return) (pushed on_return v c)
pushed-filled v c s = record {
  control_placed = s.control_placed;
  data_placed = s.data_placed;
  return_placed = pushed-Placed c.return_stack s.return_placed s.known;
  known = omega (arith, s.return_placed);
}

-- A colon word at e, called from a cell below the stacks where the return stack has room, is run from
-- its parameter field; and an EXIT in any cell a below the stacks, come to with that return stack,
-- goes on at the cell behind the call, with the return stack as high as before.
pub inner_step-enter-exit :
    (e x a : ℕ) (c : ForthContext)
    → Has (roomy on_return) c
    → c.ip + 4 < 65484
    → word_at c.dataspace c.ip ≡ e
    → e + 12 < 65484
    → code_at c.dataspace e ≡ op_enter
    → a + 2 < 65484
    → word_at c.dataspace a ≡ x
    → x + 8 < 65484
    → code_at c.dataspace x ≡ op_exit
    → (inner_step c ≡ done (tt, called e c))
      × (inner_step (record (called e c) { ip = a })
          ≡ done (
            tt,
            record c {
              ip = c.ip + 2;
              dataspace = put_word c.dataspace c.return_stack.where_ (c.ip + 2);
            },
          ))
inner_step-enter-exit e x a c s l i j k m n o p =
    let v = u16 (u16 (c.ip + 2)) in
    let w = c.return_stack.where_ in
    let c1 = record (called e c) { ip = a } in
    let left : ℕ → ℕ → ℕ → ForthContext = λ t after stored. record c {
      ip = after;
      dataspace = put_word c.dataspace w stored;
      return_stack = record c.return_stack { where_ = t };
    } in
    (
      call_ok e c s (omega arith) i j k,
      step_ok c1 x op_exit (omega arith)
            (word_at-put_other c.dataspace w a v (inr (omega (arith, s.return_placed))) ∙ n)
            (omega arith)
            (omega (
              arith,
              p,
              word_at-put_other c.dataspace w (x + 4) v (inr (omega (arith, s.return_placed))),
              word_at-put_other c.dataspace w (x + 4 + 2) v (inr (omega (arith, s.return_placed))),
            ))
            (run_exit x c1 ∙ exit_ok x c1 (pushed-filled (u16 (c.ip + 2)) c s))
          ∙ ap (λ (t : ℕ). done (tt, left t (word_at (put_word c.dataspace w v) t) v)) (back w)
          ∙ ap (λ (b : ℕ). done (tt, left w b v)) (word_at-put_word c.dataspace w v)
          ∙ ap (λ (b : ℕ). done (tt, left w (u16 (u16 b)) (u16 b))) (small (c.ip + 2) (omega arith))
          ∙ ap (λ (b : ℕ). done (tt, left w (u16 b) b)) (small (c.ip + 2) (omega arith))
          ∙ ap (λ (b : ℕ). done (tt, left w b (c.ip + 2))) (small (c.ip + 2) (omega arith)),
    )
