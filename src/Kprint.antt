-- ===== src/Kprint.antt =====
-- kernel/debug/kprint.hpp and kernel/debug/kprint.cpp: the printing of a format string with its
-- arguments, and of numbers without a format. What is written to the console is a list of
-- characters; none stands for a program that the compiler refuses, or for a write past a buffer.
pub mod Rendering
pub mod Numbers
mod Tests
use doom_os.Base.{
  ℕ, zero, suc, ◌+◌, ◌-◌, ◌*◌, ◌/◌, ◌%◌, ◌^◌, Bool, true, false, ◌&&◌, ◌>>=◌, List, [], ◌∷◌, ◌++◌,
  Option, none, some, ℤ, pos, negsuc, get_or, length, bit_and, leb, ltb, ◌==◌, if◌then◌else◌,
}
use doom_os.Format.{
  Text, FormatSpec, FormatParseResult, char_at, open_brace, close_brace, parse_field_at,
  parse_format, literal_run_length,
}
use doom_os.Emit.{Output, Value, emit_value, cons_some, reverse_some, hex_digits_upper}

unfoldable pub emit_nth_arg : ℕ → FormatSpec → List Value → Option Output
emit_nth_arg target_index spec [] = none
emit_nth_arg zero spec (value ∷ rest) = emit_value spec value
emit_nth_arg (suc target_index) spec (value ∷ rest) = emit_nth_arg target_index spec rest

-- `emit_bytes` of the characters from `offset` on
abbrev pub slice : Text → ℕ → ℕ → Output
slice text offset zero = []
slice text offset (suc count) = char_at text offset ∷ slice text (offset + 1) count

abbrev pub append_some : Output → Option Output → Option Output
append_some out none = none
append_some out (some rest) = some (out ++ rest)

-- `emit_format`, on fuel: its template recursion, where none stands for one that does not end.
unfoldable pub emit_format : Text → List Value → ℕ → ℕ → ℕ → Option Output
emit_format fmt args offset arg_index zero = none
emit_format fmt args offset arg_index (suc fuel) =
    let field = parse_field_at fmt offset in
    let run_length = literal_run_length fmt offset in
    let after_two = emit_format fmt args (offset + 2) arg_index fuel in
    let after_field = emit_format fmt args (offset + field.length) (arg_index + 1) fuel in
    let after_run = emit_format fmt args (offset + run_length) arg_index fuel in
    let after_one = emit_format fmt args (offset + 1) arg_index fuel in
    if leb (length fmt) offset
    then some []
    else if (char_at fmt offset == open_brace) && (char_at fmt (offset + 1) == open_brace)
    then cons_some open_brace after_two
    else if (char_at fmt offset == close_brace) && (char_at fmt (offset + 1) == close_brace)
    then cons_some close_brace after_two
    else if char_at fmt offset == open_brace
    then (if field.valid
        then emit_nth_arg arg_index field.spec args >>= (λ out. append_some out after_field)
        else none)
    else if ltb 0 run_length
    then append_some (slice fmt offset run_length) after_run
    else cons_some (char_at fmt offset) after_one

unfoldable pub kprint_ct : Text → List Value → Option Output
kprint_ct fmt args = parse_format fmt >>= λ parse_result.
    if parse_result.valid && (parse_result.field_count == length args)
    then emit_format fmt args 0 0 (length fmt + 1)
    else none

unfoldable pub kprintln_ct : Text → List Value → Option Output
kprintln_ct fmt args = kprint_ct fmt args >>= λ out. some (out ++ 10 ∷ [])

-- The first loop of `emit_decimal_u64`, with the slots that are left in `buffer`.
unfoldable pub decimal_buffer : ℕ → ℕ → Option Output
decimal_buffer zero value = if value == 0 then some [] else none
decimal_buffer (suc slots) value =
    let rest = decimal_buffer slots (value / 10) in
    if value == 0 then some [] else cons_some ((48 + value % 10) % 256) rest

unfoldable pub emit_decimal_u64 : ℕ → Option Output
emit_decimal_u64 value =
    if value == 0 then some (48 ∷ []) else reverse_some (decimal_buffer 20 value)

-- `-(value + 1)` of the negative number `negsuc n` is n.
unfoldable pub emit_decimal_i64 : ℤ → Option Output
emit_decimal_i64 (pos n) = emit_decimal_u64 n
emit_decimal_i64 (negsuc n) = cons_some 45 (emit_decimal_u64 ((n + 1) % 2 ^ 64))

-- The loop of `emit_hex_u64`: `shift` is four times the digits that follow.
unfoldable pub hex_buffer : ℕ → ℕ → Output
hex_buffer value zero = []
hex_buffer value (suc digits) =
    get_or hex_digits_upper (bit_and (value / 2 ^ (4 * digits)) 15) 0 ∷ hex_buffer value digits

unfoldable pub emit_hex_u64 : ℕ → Output
emit_hex_u64 value = 48 ∷ 120 ∷ hex_buffer value 16
