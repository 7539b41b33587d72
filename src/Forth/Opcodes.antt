-- ===== src/Forth/Opcodes.antt =====
-- CF_Forth_V2, `ff.h`: the opcodes, the numbers of `T_OpCode`.
use fprcade.Common.{ℕ}

abbrev pub op_create : ℕ
op_create = 1

abbrev pub op_create_enter : ℕ
op_create_enter = 2

abbrev pub op_word : ℕ
op_word = 3

abbrev pub op_allot : ℕ
op_allot = 4

abbrev pub op_enter : ℕ
op_enter = 5

abbrev pub op_exit : ℕ
op_exit = 6

abbrev pub op_execute : ℕ
op_execute = 7

abbrev pub op_jump : ℕ
op_jump = 8

abbrev pub op_jump_if : ℕ
op_jump_if = 9

abbrev pub op_push : ℕ
op_push = 10

abbrev pub op_drop : ℕ
op_drop = 11

abbrev pub op_find : ℕ
op_find = 12

abbrev pub op_state : ℕ
op_state = 13

abbrev pub op_query : ℕ
op_query = 14

abbrev pub op_colon : ℕ
op_colon = 15

abbrev pub op_semicolon : ℕ
op_semicolon = 16

abbrev pub op_comma : ℕ
op_comma = 17

abbrev pub op_dot : ℕ
op_dot = 18

abbrev pub op_begin : ℕ
op_begin = 19

abbrev pub op_then : ℕ
op_then = 20

abbrev pub op_if : ℕ
op_if = 21

abbrev pub op_else : ℕ
op_else = 22

abbrev pub op_while : ℕ
op_while = 23

abbrev pub op_repeat : ℕ
op_repeat = 24

abbrev pub op_again : ℕ
op_again = 25

abbrev pub op_literal : ℕ
op_literal = 26

abbrev pub op_pliteral : ℕ
op_pliteral = 27

abbrev pub op_emit : ℕ
op_emit = 28

abbrev pub op_abort : ℕ
op_abort = 29

abbrev pub op_immediate : ℕ
op_immediate = 30

abbrev pub op_qimmediate : ℕ
op_qimmediate = 31

abbrev pub op_bye : ℕ
op_bye = 32

abbrev pub op_at : ℕ
op_at = 34

abbrev pub op_c_at : ℕ
op_c_at = 35

abbrev pub op_pass : ℕ
op_pass = 36

abbrev pub op_equal : ℕ
op_equal = 37

abbrev pub op_dup : ℕ
op_dup = 38

abbrev pub op_bnumber : ℕ
op_bnumber = 39

abbrev pub op_wordbuffer : ℕ
op_wordbuffer = 40

abbrev pub op_base : ℕ
op_base = 41

abbrev pub op_store : ℕ
op_store = 42

abbrev pub op_paren : ℕ
op_paren = 43

abbrev pub op_decompile : ℕ
op_decompile = 44

abbrev pub op_add : ℕ
op_add = 45

abbrev pub op_does : ℕ
op_does = 46

abbrev pub op_does_enter : ℕ
op_does_enter = 47

abbrev pub op_does_rt : ℕ
op_does_rt = 48
