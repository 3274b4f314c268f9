-- ===== src/Format.antt =====
-- kernel/debug/format_spec.hpp: the format strings of the kernel's output, parsed at compile time.
-- A format string is the list of the codes of its characters; `usize` is a 64-bit word.
pub mod Digits
pub mod Fields
pub mod Strings
mod Tests
use doom_os.Base.{
  ◌>>=◌, ℕ, zero, suc, ◌+◌, ◌-◌, ◌*◌, ◌%◌, ◌^◌, Bool, true, false, not, ◌&&◌, ◌||◌, List, Option,
  none, some, get_or, length, ltb, leb, ◌==◌, ◌!=◌, if◌then◌else◌,
}

abbrev pub Text : Type 0
Text = List ℕ

abbrev pub max_format_width : ℕ
max_format_width = 128

abbrev pub max_float_precision : ℕ
max_float_precision = 18

pub data Presentation : Type 0 where
  default_presentation decimal hex_lower hex_upper pointer fixed string character : Presentation

pub data FormatAlign : Type 0 where
  default_align left right center : FormatAlign

pub data FormatSign : Type 0 where
  default_sign plus space : FormatSign

pub record FormatSpec : Type 0 where
  pub presentation_value : Presentation
  pub align : FormatAlign
  pub sign : FormatSign
  pub fill : ℕ
  pub alternate : Bool
  pub zero_pad : Bool
  pub has_width : Bool
  pub width : ℕ
  pub has_precision : Bool
  pub precision : ℕ

pub record FormatField : Type 0 where
  pub valid : Bool
  pub length : ℕ
  pub spec : FormatSpec

pub record FormatParseResult : Type 0 where
  pub valid : Bool
  pub field_count : ℕ

abbrev pub default_format_spec : FormatSpec
default_format_spec = record {
  presentation_value = default_presentation;
  align = default_align;
  sign = default_sign;
  fill = 32;
  alternate = false;
  zero_pad = false;
  has_width = false;
  width = 0;
  has_precision = false;
  precision = 0;
}

abbrev pub invalid_format_field : FormatField
invalid_format_field = record { valid = false; length = 0; spec = default_format_spec }

-- The characters that the format uses.
abbrev pub open_brace : ℕ
open_brace = 123

abbrev pub close_brace : ℕ
close_brace = 125

abbrev pub char_at : Text → ℕ → ℕ
char_at text index = get_or text index 0

abbrev pub is_format_digit : ℕ → Bool
is_format_digit value = leb 48 value && leb value 57

abbrev pub format_digit_value : ℕ → ℕ
format_digit_value value = value - 48

abbrev pub is_format_align : ℕ → Bool
is_format_align value = (value == 60) || ((value == 62) || (value == 94))

abbrev pub parse_format_align : ℕ → FormatAlign
parse_format_align value =
    if value == 60
    then left
    else if value == 62
    then right
    else if value == 94
    then center
    else default_align

-- Whether the character at `index` is there and is `c`.
abbrev pub is_at : Text → ℕ → ℕ → Bool
is_at text index c = ltb index (length text) && (char_at text index == c)

abbrev pub digit_at : Text → ℕ → Bool
digit_at text index = ltb index (length text) && is_format_digit (char_at text index)

-- The parts of `parse_field_at` in their order: each takes the specification and the index that
-- it starts from, and gives those that it ends with.
unfoldable pub parse_align : Text → FormatSpec → ℕ → FormatSpec × ℕ
parse_align text spec index =
    if ltb (index + 1) (length text) && is_format_align (char_at text (index + 1))
    then (
      record spec {
        fill = char_at text index;
        align = parse_format_align (char_at text (index + 1));
      },
      index + 2,
    )
    else if is_format_align (char_at text index)
    then (record spec { align = parse_format_align (char_at text index) }, index + 1)
    else (spec, index)

unfoldable pub parse_sign : Text → FormatSpec → ℕ → FormatSpec × ℕ
parse_sign text spec index =
    if is_at text index 43
    then (record spec { sign = plus }, index + 1)
    else if is_at text index 32
    then (record spec { sign = space }, index + 1)
    else (spec, index)

unfoldable pub parse_alternate : Text → FormatSpec → ℕ → FormatSpec × ℕ
parse_alternate text spec index =
    if is_at text index 35 then (record spec { alternate = true }, index + 1) else (spec, index)

abbrev pub align_right_by_default : FormatAlign → FormatAlign
align_right_by_default default_align = right
align_right_by_default other = other

unfoldable pub parse_zero : Text → FormatSpec → ℕ → FormatSpec × ℕ
parse_zero text spec index =
    if is_at text index 48
    then (record spec { zero_pad = true; align = align_right_by_default spec.align }, index + 1)
    else (spec, index)

-- The two loops on digits, with a round for each character that is left.
unfoldable pub width_digits : Text → FormatSpec → ℕ → ℕ → FormatSpec × ℕ
width_digits text spec index zero = (spec, index)
width_digits text spec index (suc rounds) =
    let rest =
      width_digits text
        (record spec {
          has_width = true;
          width = (spec.width * 10 + format_digit_value (char_at text index)) % 2 ^ 64;
        })
        (index + 1) rounds in
    if digit_at text index then rest else (spec, index)

unfoldable pub precision_digits : Text → FormatSpec → ℕ → ℕ → FormatSpec × ℕ
precision_digits text spec index zero = (spec, index)
precision_digits text spec index (suc rounds) =
    let rest =
      precision_digits text
        (record spec {
          precision = (spec.precision * 10 + format_digit_value (char_at text index)) % 2 ^ 64;
        })
        (index + 1) rounds in
    if digit_at text index then rest else (spec, index)

unfoldable pub parse_width : Text → FormatSpec → ℕ → Option (FormatSpec × ℕ)
parse_width text spec index =
    let (spec', index') = width_digits text spec index (length text - index) in
    if spec'.has_width && ltb max_format_width spec'.width then none else some (spec', index')

unfoldable pub parse_precision : Text → FormatSpec → ℕ → Option (FormatSpec × ℕ)
parse_precision text spec index =
    let (spec', index') =
      precision_digits text (record spec { has_precision = true }) (index + 1)
        (length text - (index + 1)) in
    if not (is_at text index 46)
    then some (spec, index)
    else if not (digit_at text (index + 1))
    then none
    else if ltb max_float_precision spec'.precision
    then none
    else some (spec', index')

abbrev pub presentation_of : ℕ → Option Presentation
presentation_of type =
    if type == 100
    then some decimal
    else if type == 120
    then some hex_lower
    else if type == 88
    then some hex_upper
    else if type == 112
    then some pointer
    else if type == 102
    then some fixed
    else if type == 115
    then some string
    else if type == 99
    then some character
    else none

abbrev pub with_presentation : FormatSpec → ℕ → Option Presentation → Option (FormatSpec × ℕ)
with_presentation spec index none = none
with_presentation spec index (some p) = some (record spec { presentation_value = p }, index + 1)

unfoldable pub parse_presentation : Text → FormatSpec → ℕ → Option (FormatSpec × ℕ)
parse_presentation text spec index =
    if ltb index (length text) && (char_at text index != close_brace)
    then with_presentation spec index (presentation_of (char_at text index))
    else some (spec, index)

-- The end of `parse_field_at`: the closing brace.
unfoldable pub close_field : Text → ℕ → FormatSpec × ℕ → FormatField
close_field text offset (spec, index) =
    if not (is_at text index close_brace)
    then invalid_format_field
    else record { valid = true; length = index - offset + 1; spec = spec }

-- The parts after a colon, where each may give the field up.
abbrev pub or_invalid : Option FormatField → FormatField
or_invalid none = invalid_format_field
or_invalid (some f) = f

unfoldable pub parse_spec : Text → ℕ → FormatSpec × ℕ → Option FormatField
parse_spec text offset (spec, index) = do
  (spec1, index1) ← parse_width text spec index
  (spec2, index2) ← parse_precision text spec1 index1
  last ← parse_presentation text spec2 index2
  some (close_field text offset last)

unfoldable pub parse_flags : Text → ℕ → FormatSpec × ℕ
parse_flags text index =
    let (spec1, index1) = parse_align text default_format_spec index in
    let (spec2, index2) = parse_sign text spec1 index1 in
    let (spec3, index3) = parse_alternate text spec2 index2 in parse_zero text spec3 index3

unfoldable pub parse_field_at : Text → ℕ → FormatField
parse_field_at text offset =
    if leb (length text) (offset + 1) || (char_at text offset != open_brace)
    then invalid_format_field
    else if char_at text (offset + 1) == close_brace
    then record { valid = true; length = 2; spec = default_format_spec }
    else if char_at text (offset + 1) != 58
    then invalid_format_field
    else if leb (length text) (offset + 2)
    then invalid_format_field
    else or_invalid (parse_spec text offset (parse_flags text (offset + 2)))

-- The loop of `parse_format`, on fuel; none stands for a loop that did not end.
unfoldable pub parse_from : Text → ℕ → ℕ → ℕ → Option FormatParseResult
parse_from text field_count index zero = none
parse_from text field_count index (suc fuel) =
    let c = char_at text index in
    let skip_two = parse_from text field_count (index + 2) fuel in
    let field = parse_field_at text index in
    let after_field = parse_from text (field_count + 1) (index + field.length) fuel in
    let skip_one = parse_from text field_count (index + 1) fuel in
    let bad = some (record { valid = false; field_count = field_count }) in
    if leb (length text) index
    then some (record { valid = true; field_count = field_count })
    else if c == open_brace
    then (if is_at text (index + 1) open_brace
        then skip_two
        else if field.valid
        then after_field
        else bad)
    else if c == close_brace
    then (if is_at text (index + 1) close_brace then skip_two else bad)
    else skip_one

unfoldable pub parse_format : Text → Option FormatParseResult
parse_format text = parse_from text 0 0 (length text + 1)

-- The loop of `literal_run_length`, with a round for each character that is left.
unfoldable pub run_end : Text → ℕ → ℕ → ℕ
run_end text index zero = index
run_end text index (suc rounds) =
    let rest = run_end text (index + 1) rounds in
    if (char_at text index == open_brace) || (char_at text index == close_brace)
    then index
    else rest

unfoldable pub literal_run_length : Text → ℕ → ℕ
literal_run_length text first = run_end text first (length text - first) - first
