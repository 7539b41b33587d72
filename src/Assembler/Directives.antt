-- ===== src/Assembler/Directives.antt =====
-- FAsm, `fa.c`: the directives, and `parse_directive`.
use fprcade.Common.{
  ℕ, zero, suc, true, false, not, ◌&&◌, ◌||◌, ◌==◌, ltb, leb, if◌then◌else◌, List, [], ◌∷◌, ◌+◌,
  ◌-◌, length, drop, Option, none, some, pos, negsuc, ltb_ℤ, leb_ℤ, to_u16, u8, u16, bit_and, codes,
}
use fprcade.Assembler.Text.{
  Text, first_char, ErrorReason, all_ok, syntax_error, address_error, skip_word, skip_spaces,
  get_word, same_text,
}
use fprcade.Assembler.Symbols.{SymbolTable, Added, added, refused, aborted, add_symbol}
use fprcade.Assembler.Numbers.{Number, number, failed, overflow, read_number}
use fprcade.Assembler.Hex.{HexWriter, hex_push_byte, hex_flush, hex_set_start_address}
use fprcade.Assembler.Instructions.{
  Phase, scan, assembling, Progress, Outcome, returns, undefined, out_of_fuel, is_ok,
}

-- What a directive leaves, with `error_reason`.
pub record Directed : Type 0 where
  pub hex : HexWriter
  pub table : SymbolTable
  pub address : ℕ
  pub reason : ErrorReason

-- The directive's line, the state and the phase. The fuel is for the loop of `.b`.
abbrev pub DirectiveGenerator : Type 0
DirectiveGenerator = ℕ → Text → Phase → SymbolTable → HexWriter → ℕ → Outcome Directed

unfoldable pub directed : SymbolTable → HexWriter → ℕ → ErrorReason → Outcome Directed
directed table h address r =
    returns (record { hex = h; table = table; address = u16 address; reason = r })

-- The characters of a string up to its end, and what is pushed for them.
unfoldable pub string_bytes : Text → List ℕ
string_bytes [] = []
string_bytes (c ∷ line) = if c == b'"' then [] else c ∷ string_bytes line

unfoldable pub push_bytes : List ℕ → HexWriter → HexWriter
push_bytes [] h = h
push_bytes (b ∷ bytes) h = push_bytes bytes (hex_push_byte b h)

-- In the first phase nothing is written.
unfoldable pub when_assembling : Phase → (HexWriter → HexWriter) → HexWriter → HexWriter
when_assembling scan f h = h
when_assembling assembling f h = f h

unfoldable pub dot_str_generator : DirectiveGenerator
unfolding directed string_bytes push_bytes when_assembling skip_spaces
dot_str_generator fuel line phase table h address =
    let text = skip_spaces (drop 4 line) in
    let bytes = string_bytes (drop 1 text) in
    if ltb 4 (length line)
    then (if first_char text == b'"'
        then directed table (when_assembling phase (push_bytes bytes) h) (address + length bytes)
            all_ok
        else directed table h address syntax_error)
    else directed table h address syntax_error

-- What one value of `.b` does: a byte, an error with `break`, or an error with which the loop goes on.
pub data ByteValue : Type 0 where
  byte_value : ℕ → ByteValue
  break_with go_on_with : ErrorReason → ByteValue
  byte_undefined : ByteValue

unfoldable pub byte_of : Number → ByteValue
byte_of (number value is_negative) =
    if is_negative && (leb_ℤ (negsuc 127) value && ltb_ℤ value (pos 128))
    then byte_value (u8 (to_u16 value))
    else if not is_negative && (leb_ℤ (pos 0) value && ltb_ℤ value (pos 256))
    then byte_value (u8 (to_u16 value))
    else break_with syntax_error
byte_of (failed r) = go_on_with r
byte_of overflow = byte_undefined

-- The loop of `.b`: the word read, the line from where it starts, and the bytes counted so far.
unfoldable pub dot_b_loop :
    ℕ → Text × ℕ → Text → Phase → SymbolTable → HexWriter → ℕ → ErrorReason → Outcome Directed
unfolding directed byte_of skip_spaces get_word
dot_b_loop zero (word, n) line phase table h address reason = out_of_fuel
dot_b_loop (suc fuel) (word, n) line phase table h address reason =
    let line' = skip_spaces (drop n line) in
    let next = λ (h' : HexWriter) (r : ErrorReason).
      dot_b_loop fuel (get_word line' 32 32) line' phase table h' (address + 1) r in
    elim (ltb 0 n) [
      | false ↦ directed table h address reason
      | true ↦ elim phase [
        | scan ↦ next h reason
        | assembling ↦ elim (byte_of (read_number word table reason)) [
          | byte_value b ↦ next (hex_push_byte b h) reason
          | break_with r ↦ directed table h (address + 1) r
          | go_on_with r ↦ next h r
          | byte_undefined ↦ undefined
        ]
      ]
    ]

unfoldable pub dot_b_generator : DirectiveGenerator
unfolding directed dot_b_loop skip_word skip_spaces get_word
dot_b_generator fuel line phase table h address =
    let rest = skip_spaces (skip_word line) in
    let (word, n) = get_word rest 32 32 in
    if n == 0
    then directed table h address syntax_error
    else dot_b_loop fuel (word, n) rest phase table h address all_ok

-- `.w` and `.l` are not implemented: they return the address 0 and no error.
unfoldable pub dot_w_generator : DirectiveGenerator
unfolding directed
dot_w_generator fuel line phase table h address = directed table h 0 all_ok

unfoldable pub dot_l_generator : DirectiveGenerator
unfolding directed
dot_l_generator fuel line phase table h address = directed table h 0 all_ok

unfoldable pub def_added : HexWriter → ℕ → SymbolTable → Added → Outcome Directed
unfolding directed
def_added h address table (added table') = directed table' h address all_ok
def_added h address table refused = directed table h address syntax_error
def_added h address table aborted = undefined

-- The value of `.def`, checked and entered.
unfoldable pub def_value : Text → SymbolTable → HexWriter → ℕ → Number → Outcome Directed
unfolding directed def_added
def_value symbol table h address (number value is_negative) =
    if ltb_ℤ (pos 65535) value || ltb_ℤ value (negsuc 32767)
    then directed table h address syntax_error
    else def_added h address table (add_symbol table symbol (to_u16 value))
def_value symbol table h address (failed r) = directed table h address syntax_error
def_value symbol table h address overflow = undefined

unfoldable pub dot_def_generator : DirectiveGenerator
unfolding directed def_value skip_word skip_spaces get_word
dot_def_generator fuel line assembling table h address = directed table h address all_ok
dot_def_generator fuel line scan table h address =
    let rest = skip_spaces (skip_word line) in
    let (symbol, n) = get_word rest 32 32 in
    let rest' = skip_spaces (skip_word rest) in
    let (word, m) = get_word rest' 32 32 in
    if n == 0 || leb 32 n
    then directed table h address syntax_error
    else if m == 0 || m == 32
    then directed table h address syntax_error
    else def_value symbol table h address (read_number word table all_ok)

-- The value of `.org`.
unfoldable pub org_value : Phase → SymbolTable → HexWriter → ℕ → Number → Outcome Directed
unfolding directed when_assembling
org_value phase table h address (number value is_negative) =
    if is_negative
    then directed table h address syntax_error
    else if ltb_ℤ (pos 0xFFFF) value
    then directed table h address address_error
    else directed table
        (when_assembling phase (λ h'. hex_set_start_address (to_u16 value) (hex_flush h')) h)
        (to_u16 value) all_ok
org_value phase table h address (failed r) = directed table h address r
org_value phase table h address overflow = undefined

unfoldable pub dot_org_generator : DirectiveGenerator
unfolding directed org_value skip_word skip_spaces get_word
dot_org_generator fuel line phase table h address =
    let (word, n) = get_word (skip_spaces (skip_word line)) 32 32 in
    if n == 0
    then directed table h address syntax_error
    else org_value phase table h address (read_number word table all_ok)

-- The filler to the next multiple of two or of four.
unfoldable pub align_delta : ℕ → ℕ → ℕ
align_delta c address =
    if c == b'W'
    then (if bit_and address 0x01 == 0 then 0 else 2 - bit_and address 0x01)
    else if c == b'L'
    then (if bit_and address 0x03 == 0 then 0 else 4 - bit_and address 0x03)
    else 0

unfoldable pub fill : ℕ → HexWriter → HexWriter
fill zero h = h
fill (suc n) h = fill n (hex_push_byte 0xAA h)

unfoldable pub dot_align_generator : DirectiveGenerator
unfolding directed align_delta fill when_assembling skip_word skip_spaces
dot_align_generator fuel line phase table h address =
    let c = first_char (skip_spaces (skip_word line)) in
    let delta = align_delta c address in
    directed table (when_assembling phase (λ h'. hex_flush (fill delta h')) h) (address + delta)
      (if c == b'W' || c == b'L' then all_ok else syntax_error)

unfoldable pub directive_generators : List (Text × DirectiveGenerator)
directive_generators =
    (codes ".STR", dot_str_generator)
    ∷ (codes ".B", dot_b_generator)
    ∷ (codes ".W", dot_w_generator)
    ∷ (codes ".L", dot_l_generator)
    ∷ (codes ".ALIGN", dot_align_generator)
    ∷ (codes ".ORG", dot_org_generator)
    ∷ (codes ".DEF", dot_def_generator)
    ∷ []

unfoldable pub find_directive : List (Text × DirectiveGenerator) → Text → Option DirectiveGenerator
unfolding same_text
find_directive [] name = none
find_directive ((directive_name, g) ∷ table) name =
    if same_text name directive_name then some g else find_directive table name

-- The state of the assembler after a directive.
unfoldable pub after_directive : Outcome Directed → Outcome Progress
unfolding is_ok
after_directive (returns d) =
    returns (record { hex = d.hex; table = d.table; address = d.address; all_ok = is_ok d.reason })
after_directive undefined = undefined
after_directive out_of_fuel = out_of_fuel

unfoldable pub parse_directive : ℕ → Text → Phase → Progress → Outcome Progress
unfolding after_directive
parse_directive fuel line phase p =
    let (name, n) = get_word line 32 32 in
    if n == 32
    then returns (record p { all_ok = false })
    else elim (find_directive directive_generators name) [
      | none ↦ returns (record p { all_ok = false })
      | some g ↦ after_directive (g fuel line phase p.table p.hex p.address)
    ]
