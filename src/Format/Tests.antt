-- ===== src/Format/Tests.antt =====
-- Runs of the format parser.
use doom_os.Base.{◌≡◌, refl, true, ◌∷◌, []}
use doom_os.Format.{
  Text, parse_field_at, parse_format, parse_spec, parse_flags, parse_align, parse_sign,
  parse_alternate, parse_zero, parse_width, width_digits, parse_precision, precision_digits,
  parse_presentation, close_field,
}
use doom_os.Format.Fields.{IsField, parse_field_at-IsField}
use doom_os.Format.Strings.{Verdict, parse_format_lem}

-- `a{:#018X}`
abbrev address_text : Text
address_text = 97 ∷ 123 ∷ 58 ∷ 35 ∷ 48 ∷ 49 ∷ 56 ∷ 88 ∷ 125 ∷ []

address_valid : (parse_field_at address_text 1).valid ≡ true
unfolding parse_field_at parse_spec parse_flags parse_align parse_sign parse_alternate parse_zero
    parse_width width_digits parse_precision precision_digits parse_presentation close_field
address_valid = refl

parse_field_at_example : IsField address_text 1 (parse_field_at address_text 1)
parse_field_at_example = parse_field_at-IsField address_text 1 address_valid

parse_format_example : Verdict address_text 0 0 (parse_format address_text)
parse_format_example = parse_format_lem address_text

-- `{:18446744073709551617}`: the width wraps, and the field is accepted with a width of one.
abbrev wide_text : Text
wide_text =
    123 ∷ 58 ∷ 49 ∷ 56 ∷ 52 ∷ 52 ∷ 54 ∷ 55 ∷ 52 ∷ 52 ∷ 48 ∷ 55 ∷ 51 ∷ 55 ∷ 48 ∷ 57 ∷ 53 ∷ 53 ∷ 49
    ∷ 54 ∷ 49 ∷ 55 ∷ 125 ∷ []

wide_wraps : (parse_field_at wide_text 0).spec.width ≡ 1
unfolding parse_field_at parse_spec parse_flags parse_align parse_sign parse_alternate parse_zero
    parse_width width_digits parse_precision precision_digits parse_presentation close_field
wide_wraps = refl
