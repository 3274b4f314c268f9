-- ===== src/Emit.antt =====
-- kernel/debug/emit.hpp, kernel/debug/formatter.hpp and kernel/debug/kprint.hpp: printing values
-- under a format. What is written to the console is a list of characters, `Output`. A format that
-- does not fit its value is refused by the compiler: the result is none, as it would be for a write
-- past the end of a buffer. `long double`, and so `emit_fixed_float`, is not modelled.
pub mod Radix
pub mod Padding
mod Tests
use mathlib.Core.List.{reverse}
use doom_os.Base.{
  ℕ, zero, suc, ◌+◌, ◌-◌, ◌*◌, ◌/◌, ◌%◌, ◌^◌, Bool, true, false, not, ◌&&◌, ◌||◌, ◌>>=◌, List, [],
  ◌∷◌, ◌++◌, Option, none, some, get_or, length, take, ℤ, pos, negsuc, bit_and, ltb, leb, ◌==◌,
  if◌then◌else◌,
}
use doom_os.Format.{
  Text, Presentation, default_presentation, decimal, hex_lower, hex_upper, pointer, fixed, string,
  character, FormatAlign, default_align, left, right, center, FormatSign, default_sign, plus, space,
  FormatSpec, FormatParseResult, open_brace, close_brace, char_at, is_at, parse_field_at,
  parse_format, literal_run_length,
}

abbrev pub Output : Type 0
Output = List ℕ

-- `HEX_DIGITS_LOWER` and `HEX_DIGITS_UPPER`
abbrev pub hex_digits_lower : Text
hex_digits_lower =
    48 ∷ 49 ∷ 50 ∷ 51 ∷ 52 ∷ 53 ∷ 54 ∷ 55 ∷ 56 ∷ 57 ∷ 97 ∷ 98 ∷ 99 ∷ 100 ∷ 101 ∷ 102 ∷ []

abbrev pub hex_digits_upper : Text
hex_digits_upper =
    48 ∷ 49 ∷ 50 ∷ 51 ∷ 52 ∷ 53 ∷ 54 ∷ 55 ∷ 56 ∷ 57 ∷ 65 ∷ 66 ∷ 67 ∷ 68 ∷ 69 ∷ 70 ∷ []

unfoldable pub emit_repeated : ℕ → ℕ → Output
emit_repeated value zero = []
emit_repeated value (suc count) = value ∷ emit_repeated value count

abbrev pub cons_some : ℕ → Option Output → Option Output
cons_some c none = none
cons_some c (some cs) = some (c ∷ cs)

abbrev pub reverse_some : Option Output → Option Output
reverse_some none = none
reverse_some (some cs) = some (reverse cs)

-- The `do` loop of `format_u64_decimal`, with the slots that are left in `reverse`.
unfoldable pub decimal_reverse : ℕ → ℕ → Option Output
decimal_reverse zero value = none
decimal_reverse (suc slots) value =
    let rest = decimal_reverse slots (value / 10) in
    cons_some ((48 + value % 10) % 256) (if value / 10 == 0 then some [] else rest)

unfoldable pub format_u64_decimal : ℕ → Option Output
format_u64_decimal value = reverse_some (decimal_reverse 20 value)

unfoldable pub hex_reverse : Text → ℕ → ℕ → Option Output
hex_reverse digits zero value = none
hex_reverse digits (suc slots) value =
    let rest = hex_reverse digits slots (value / 2 ^ 4) in
    cons_some (get_or digits (bit_and value 15) 0) (if value / 2 ^ 4 == 0 then some [] else rest)

unfoldable pub format_u64_hex : ℕ → Bool → Option Output
format_u64_hex value uppercase =
    reverse_some (hex_reverse (if uppercase then hex_digits_upper else hex_digits_lower) 16 value)

-- `-(value + 1)` of the negative number `negsuc n` is n.
unfoldable pub signed_magnitude_i64 : ℤ → ℕ
signed_magnitude_i64 (pos n) = n
signed_magnitude_i64 (negsuc n) = (n + 1) % 2 ^ 64

abbrev pub align_of : FormatAlign → Bool → FormatAlign
align_of default_align true = right
align_of default_align false = left
align_of align numeric = align

abbrev pub is_right : FormatAlign → Bool
is_right right = true
is_right _ = false

-- The rest of `emit_padded`, by the alignment.
abbrev pub pad_by : FormatAlign → ℕ → ℕ → Output → Output
pad_by left fill padding content = content ++ emit_repeated fill padding
pad_by center fill padding content =
    emit_repeated fill (padding / 2) ++ content ++ emit_repeated fill (padding - padding / 2)
pad_by right fill padding content = emit_repeated fill padding ++ content
pad_by default_align fill padding content = emit_repeated fill padding ++ content

unfoldable pub emit_padded : FormatSpec → Output → Output → Bool → Output
emit_padded spec prefix body numeric =
    let content_length = length prefix + length body in
    let width = if spec.has_width then spec.width else 0 in
    let padding = if ltb content_length width then width - content_length else 0 in
    let align = align_of spec.align numeric in
    if numeric && (spec.zero_pad && is_right align)
    then prefix ++ emit_repeated 48 padding ++ body
    else pad_by align spec.fill padding (prefix ++ body)

abbrev pub sign_prefix : FormatSign → Output
sign_prefix default_sign = []
sign_prefix plus = 43 ∷ []
sign_prefix space = 32 ∷ []

abbrev pub signed_prefix : ℤ → FormatSign → Output
signed_prefix (pos n) sign = sign_prefix sign
signed_prefix (negsuc n) sign = 45 ∷ []

abbrev pub guard : Bool → Option Output → Option Output
guard true o = o
guard false o = none

unfoldable pub emit_unsigned_decimal : FormatSpec → ℕ → Option Output
emit_unsigned_decimal spec value =
    guard (not spec.has_precision && not spec.alternate) (
      format_u64_decimal value >>= λ body.
      some (emit_padded spec (sign_prefix spec.sign) body true))

unfoldable pub emit_signed_decimal : FormatSpec → ℤ → Option Output
emit_signed_decimal spec value = guard (not spec.has_precision && not spec.alternate) (
    format_u64_decimal (signed_magnitude_i64 value) >>= λ body.
    some (emit_padded spec (signed_prefix value spec.sign) body true))

abbrev pub is_hex_upper : Presentation → Bool
is_hex_upper hex_upper = true
is_hex_upper _ = false

unfoldable pub emit_hex_integer : FormatSpec → ℕ → Option Output
emit_hex_integer spec value = guard (not spec.has_precision) (
    format_u64_hex value (is_hex_upper spec.presentation_value) >>= λ body.
    some (emit_padded spec (if spec.alternate then 48 ∷ 120 ∷ [] else []) body true))

abbrev pub pointer_spec : FormatSpec → FormatSpec
pointer_spec spec = record {
  presentation_value = hex_lower;
  align = spec.align;
  sign = default_sign;
  fill = spec.fill;
  alternate = true;
  zero_pad = spec.zero_pad;
  has_width = spec.has_width;
  width = spec.width;
  has_precision = false;
  precision = 0;
}

unfoldable pub emit_pointer_value : FormatSpec → ℕ → Option Output
emit_pointer_value spec address = guard (not spec.has_precision) (elim spec.presentation_value [
  | hex_lower ↦ emit_hex_integer spec address
  | hex_upper ↦ emit_hex_integer spec address
  | default_presentation ↦ emit_hex_integer (pointer_spec spec) address
  | pointer ↦ emit_hex_integer (pointer_spec spec) address
  | _ ↦ none
])

unfoldable pub emit_float_special : FormatSpec → Output → Bool → Output
emit_float_special spec body negative =
    emit_padded spec (if negative then 45 ∷ [] else sign_prefix spec.sign) body true

-- `(null)`
abbrev pub null_string : Output
null_string = 40 ∷ 110 ∷ 117 ∷ 108 ∷ 108 ∷ 41 ∷ []

-- A string of known length, cut to the precision.
abbrev pub cut : FormatSpec → Output → Output
cut spec s =
    take
      (if spec.has_precision
        then (if ltb spec.precision (length s) then spec.precision else length s)
        else length s)
      s

abbrev pub emit_text : FormatSpec → Output → Option Output
emit_text spec s = elim spec.presentation_value [
  | default_presentation ↦ some (emit_padded spec [] (cut spec s) false)
  | string ↦ some (emit_padded spec [] (cut spec s) false)
  | _ ↦ none
]

-- A `const char *` is none when it is null.
unfoldable pub emit_string_value : FormatSpec → Option Output → Option Output
emit_string_value spec none = emit_text spec null_string
emit_string_value spec (some s) = emit_text spec s

unfoldable pub emit_char_value : FormatSpec → ℕ → Option Output
emit_char_value spec value = guard (not spec.has_precision) (elim spec.presentation_value [
  | default_presentation ↦ some (emit_padded spec [] (value ∷ []) false)
  | character ↦ some (emit_padded spec [] (value ∷ []) false)
  | decimal ↦ emit_unsigned_decimal spec (value % 2 ^ 8)
  | hex_lower ↦ emit_hex_integer spec (value % 2 ^ 8)
  | hex_upper ↦ emit_hex_integer spec (value % 2 ^ 8)
  | _ ↦ none
])

-- The bits of a signed number, as an unsigned one.
abbrev pub bits_of : ℤ → ℕ
bits_of (pos n) = n
bits_of (negsuc n) = 2 ^ 64 - 1 - n

-- The values with a formatter, by the constraints of the specialisations; a `const char *` has its
-- address and what it points to, and an enumerator its number and its name, empty if it has none.
mutual
  pub data Value : Type 0 where
    char_value : ℕ → Value
    boolean_value : Bool → Value
    unsigned_value : ℕ → Value
    signed_value : ℤ → Value
    c_string_value : ℕ → Option Output → Value
    null_value : Value
    pointer_value : ℕ → Value
    string_value : Output → Value
    view_value : Output → Value
    unsigned_enum_value : ℕ → Output → Value
    signed_enum_value : ℤ → Output → Value
    reflectable_value : Fields → Value

  pub data Fields : Type 0 where
    end : Fields
    field : Output → Value → Fields → Fields

abbrev pub true_string : Output
true_string = 116 ∷ 114 ∷ 117 ∷ 101 ∷ []

abbrev pub false_string : Output
false_string = 102 ∷ 97 ∷ 108 ∷ 115 ∷ 101 ∷ []

unfoldable pub emit_boolean : FormatSpec → Bool → Option Output
emit_boolean spec value = guard (not spec.has_precision) (elim spec.presentation_value [
  | default_presentation ↦
      emit_string_value spec (some (if value then true_string else false_string))
  | decimal ↦ emit_unsigned_decimal spec (if value then 1 else 0)
  | hex_lower ↦ emit_hex_integer spec (if value then 1 else 0)
  | hex_upper ↦ emit_hex_integer spec (if value then 1 else 0)
  | _ ↦ none
])

unfoldable pub emit_unsigned : FormatSpec → ℕ → Option Output
emit_unsigned spec value = elim spec.presentation_value [
  | default_presentation ↦ emit_unsigned_decimal spec value
  | decimal ↦ emit_unsigned_decimal spec value
  | hex_lower ↦ emit_hex_integer spec value
  | hex_upper ↦ emit_hex_integer spec value
  | _ ↦ none
]

unfoldable pub emit_signed : FormatSpec → ℤ → Option Output
emit_signed spec value = elim spec.presentation_value [
  | default_presentation ↦ emit_signed_decimal spec value
  | decimal ↦ emit_signed_decimal spec value
  | hex_lower ↦ emit_hex_integer spec (bits_of value)
  | hex_upper ↦ emit_hex_integer spec (bits_of value)
  | _ ↦ none
]

unfoldable pub emit_c_string_value : FormatSpec → ℕ → Option Output → Option Output
emit_c_string_value spec address value = elim spec.presentation_value [
  | pointer ↦ emit_pointer_value spec address
  | hex_lower ↦ emit_pointer_value spec address
  | hex_upper ↦ emit_pointer_value spec address
  | _ ↦ emit_string_value spec value
]

-- An enumerator, by its name unless the format asks for the number, `number`. Both printers must
-- fit the format, as the choice between them is made when the program runs.
unfoldable pub emit_enum : FormatSpec → Option Output → Output → Option Output
emit_enum spec number name = elim spec.presentation_value [
  | decimal ↦ number
  | hex_lower ↦ number
  | hex_upper ↦ number
  | _ ↦ number >>= λ out.
      emit_text spec name >>= λ out_name. some (if length name == 0 then out else out_name)
]

-- `, ` before all fields but the first
abbrev pub separator : Bool → Output
separator true = []
separator false = 44 ∷ 32 ∷ []

unfoldable mutual
  pub emit_value : FormatSpec → Value → Option Output
  emit_value spec (char_value c) = emit_char_value spec c
  emit_value spec (boolean_value b) = emit_boolean spec b
  emit_value spec (unsigned_value n) = emit_unsigned spec n
  emit_value spec (signed_value z) = emit_signed spec z
  emit_value spec (c_string_value address s) = emit_c_string_value spec address s
  emit_value spec null_value = emit_pointer_value spec 0
  emit_value spec (pointer_value address) = emit_pointer_value spec address
  emit_value spec (string_value s) = emit_string_value spec (some s)
  emit_value spec (view_value s) = emit_text spec s
  emit_value spec (unsigned_enum_value n name) = emit_enum spec (emit_unsigned spec n) name
  emit_value spec (signed_enum_value z name) = emit_enum spec (emit_signed spec z) name
  emit_value spec (reflectable_value fs) =
      guard (not spec.has_precision)
        (emit_fields spec true fs >>= λ out. some (open_brace ∷ out ++ close_brace ∷ []))

  pub emit_fields : FormatSpec → Bool → Fields → Option Output
  emit_fields spec first end = some []
  emit_fields spec first (field name v fs) = emit_value spec v >>= λ out.
      emit_fields spec false fs >>= λ rest. some (separator first ++ name ++ 61 ∷ out ++ rest)
