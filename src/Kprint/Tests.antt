-- ===== src/Kprint/Tests.antt =====
-- Runs of kernel/debug/kprint.hpp and kernel/debug/kprint.cpp, and the theorems at one input each.
use doom_os.Base.{◌≡◌, refl, arith, List, [], ◌∷◌, some, none, length}
use doom_os.Format.{
  Text, literal_run_length, run_end, parse_format, parse_from, parse_field_at, parse_spec,
  parse_width, width_digits, parse_flags, parse_zero, parse_alternate, parse_sign, parse_align,
  parse_precision, parse_presentation, close_field,
}
use doom_os.Format.Strings.{IsFormat}
use doom_os.Emit.{
  Output, Value, unsigned_value, emit_value, emit_unsigned, emit_unsigned_decimal,
  format_u64_decimal, decimal_reverse, emit_padded, emit_repeated,
}
use doom_os.Emit.Radix.{read}
use doom_os.Kprint.{
  emit_decimal_u64, emit_hex_u64, kprint_ct, kprintln_ct, emit_format, emit_nth_arg,
}
use doom_os.Kprint.Numbers.{emit_decimal_u64-format_u64_decimal, emit_hex_u64_lem}
use doom_os.Kprint.Rendering.{render, kprint_ct_lem}

-- `a{}{{{:#x}`
abbrev two_fields : Text
two_fields = 97 ∷ 123 ∷ 125 ∷ 123 ∷ 123 ∷ 123 ∷ 58 ∷ 35 ∷ 120 ∷ 125 ∷ []

abbrev two_values : List Value
two_values = unsigned_value 42 ∷ unsigned_value 255 ∷ []

kprint_ct_example :
    ((f : IsFormat two_fields 0 2)
      → kprint_ct two_fields two_values ≡ render two_fields f two_values)
    × (¬ IsFormat two_fields 0 2 → kprint_ct two_fields two_values ≡ none)
kprint_ct_example = kprint_ct_lem two_fields two_values

emit_decimal_u64_example : emit_decimal_u64 1024 ≡ format_u64_decimal 1024
emit_decimal_u64_example = emit_decimal_u64-format_u64_decimal 1024

emit_hex_u64_example :
    (cs : Output) × (emit_hex_u64 48879 ≡ 48 ∷ 120 ∷ cs) × (length cs ≡ 16) × (read 16 cs ≡ 48879)
emit_hex_u64_example = emit_hex_u64_lem 48879 (omega arith)

-- `{}{{`
abbrev one_field : Text
one_field = 123 ∷ 125 ∷ 123 ∷ 123 ∷ []

-- `42{` and a new line
prints_value : kprintln_ct one_field (unsigned_value 42 ∷ []) ≡ some (52 ∷ 50 ∷ 123 ∷ 10 ∷ [])
unfolding kprintln_ct kprint_ct emit_format emit_nth_arg literal_run_length run_end parse_format
    parse_from parse_field_at parse_spec parse_width width_digits parse_flags parse_zero
    parse_alternate parse_sign parse_align parse_precision parse_presentation close_field emit_value
    emit_unsigned emit_unsigned_decimal format_u64_decimal decimal_reverse emit_padded emit_repeated
prints_value = refl

-- An argument too few
refuses_one : kprint_ct two_fields (unsigned_value 42 ∷ []) ≡ none
unfolding kprint_ct parse_format parse_from parse_field_at parse_spec parse_width width_digits
    parse_flags parse_zero parse_alternate parse_sign parse_align parse_precision parse_presentation
    close_field
refuses_one = refl
