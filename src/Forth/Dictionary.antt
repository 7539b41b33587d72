-- ===== src/Forth/Dictionary.antt =====
-- CF_Forth_V2, `ff.c`: the headers of the dictionary, packed strings, and the search for an opcode. A
-- header is the `T_DictHeader` of `ff.h`: the cells `previous` and `flags`, the four bytes of
-- `code_field`, the cell `does_code`, and the name with its count first.
use fprcade.Common.{
  ℕ, zero, suc, Bool, true, false, ◌==◌, ltb, leb, if◌then◌else◌, u16, bit_or, ◌+◌, ◌-◌, ◌*◌, ◌/◌,
  ◌^◌, ◌&&◌,
}
use fprcade.Forth.State.{
  F, pure, ◌>>=◌, ◌>>◌, stops, never_ends, assert_failed, get_dict_head, set_dict_head,
  ff_memory_size, ff_loc_here,
}
use fprcade.Forth.Memory.{read_at, write_at, fetch16ubits, store16ubits, align}

abbrev pub ef_machine_code : ℕ
ef_machine_code = 1

abbrev pub ef_immediate : ℕ
ef_immediate = 2

abbrev pub ef_compile_only : ℕ
ef_compile_only = 8

abbrev pub ef_hidden : ℕ
ef_hidden = 16

abbrev pub ef_dirty : ℕ
ef_dirty = 32

abbrev pub de_flags : ℕ
de_flags = 2

abbrev pub de_code_field : ℕ
de_code_field = 4

abbrev pub de_does_code : ℕ
de_does_code = 8

abbrev pub de_name : ℕ
de_name = 10

abbrev pub de_size_min : ℕ
de_size_min = 12

-- `header->code_field`, an enumeration of four bytes.
unfoldable pub get_code_field : ℕ → F ℕ
get_code_field h = do
  low ← fetch16ubits (h + de_code_field)
  high ← fetch16ubits (h + de_code_field + 2)
  pure (low + 65536 * high)

unfoldable pub set_code_field : ℕ → ℕ → F (Unit {0})
set_code_field h op = do
  store16ubits (h + de_code_field) (u16 op)
  store16ubits (h + de_code_field + 2) (op / 65536)

-- The `int8_t` of a count, added to a 16 bit number.
unfoldable pub i8_in_u16 : ℕ → ℕ
i8_in_u16 count = if ltb count 128 then count else 65280 + count

unfoldable pub get_parameter_field : ℕ → F ℕ
get_parameter_field entry = do
  count ← read_at (entry + de_name)
  pure (align (u16 (u16 (entry + i8_in_u16 count) + de_size_min)))

-- An `int8_t` as a `size_t`.
unfoldable pub i8_in_size : ℕ → ℕ
i8_in_size count = if ltb count 128 then count else 2 ^ 64 - (256 - count)

abbrev pub to_lower : ℕ → ℕ
to_lower ch = if leb b'A' ch && leb ch b'Z' then ch + 32 else ch

-- `strncasecmp(a, b, n) == 0`.
unfoldable pub same_letters : ℕ → ℕ → ℕ → F Bool
same_letters zero a b = pure true
same_letters (suc n) a b = do
  v ← read_at a
  w ← read_at b
  if to_lower v == to_lower w
      then if v == 0 then pure true else same_letters n (a + 1) (b + 1)
      else pure false

unfoldable pub compare_packed_string : ℕ → ℕ → F Bool
compare_packed_string ps1 ps2 = do
  m ← read_at ps1
  n ← read_at ps2
  if m == n then same_letters (i8_in_size m) (ps1 + 1) (ps2 + 1) else pure false

-- A packed string, by its bytes: the count, then the characters. It stands in the data space, or in a
-- buffer of its own.
abbrev pub PackedString : Type 0
PackedString = ℕ → F ℕ

abbrev pub in_dataspace : ℕ → PackedString
in_dataspace a i = read_at (a + i)

-- `memcpy` from the first byte on; a negative count is a size past every memory.
unfoldable pub copy_characters : ℕ → PackedString → ℕ → ℕ → F (Unit {0})
copy_characters zero source dest i = pure tt
copy_characters (suc n) source dest i = do
  v ← source i
  write_at (dest + i) v
  copy_characters n source dest (i + 1)

unfoldable pub copy_packed_string : PackedString → ℕ → F (Unit {0})
copy_packed_string source dest = do
  count ← source 0
  write_at dest count
  copied ← read_at dest
  copy_characters (i8_in_size copied) source dest 1

-- The result is the address of the header.
unfoldable pub add_dict_entry : PackedString → F ℕ
add_dict_entry name = do
  current_head ← get_dict_head
  here ← fetch16ubits ff_loc_here
  n ← name 0
  store16ubits here current_head
  store16ubits (here + de_flags) 0
  flags ← fetch16ubits (here + de_flags)
  store16ubits (here + de_flags) (bit_or flags ef_dirty)
  set_code_field here 0
  store16ubits (here + de_does_code) 0
  copy_packed_string name (here + de_name)
  store16ubits ff_loc_here (align (u16 (here + de_size_min + i8_in_u16 n)))
  set_dict_head here
  pure here

-- The loop of `find_via_opcode`. It changes nothing but the address `h`, so that a walk of 65536 steps
-- comes to an address for the second time and goes on for ever.
unfoldable pub opcode_walk : ℕ → ℕ → ℕ → F ℕ
opcode_walk zero opcode h = stops never_ends
opcode_walk (suc n) opcode h = do
  code ← get_code_field h
  previous ← fetch16ubits h
  if code == opcode
      then pure h
      else if previous == 0
      then stops assert_failed
      else opcode_walk n opcode previous

unfoldable pub find_via_opcode : ℕ → F ℕ
find_via_opcode opcode = do h ← get_dict_head; opcode_walk ff_memory_size opcode h

-- The loop of `instr_find`: the address of the entry with the name at `word`, or 0.
unfoldable pub name_walk : ℕ → ℕ → ℕ → F ℕ
name_walk zero word h = stops never_ends
name_walk (suc n) word h = do
  found ← compare_packed_string word (h + de_name)
  previous ← fetch16ubits h
  if found then pure h else if previous == 0 then pure 0 else name_walk n word previous
