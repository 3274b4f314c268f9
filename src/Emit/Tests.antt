-- ===== src/Emit/Tests.antt =====
-- Runs of the printers of kernel/debug/emit.hpp and kernel/debug/formatter.hpp, and the theorems at
-- one input each.
use doom_os.Base.{◌≡◌, refl, arith, true, [], ◌∷◌, some, negsuc}
use doom_os.Format.{FormatSpec, default_format_spec, center, hex_lower}
use doom_os.Emit.{
  Output, format_u64_decimal, format_u64_hex, emit_padded, emit_value, unsigned_value, signed_value,
  boolean_value, reflectable_value, field, end, emit_unsigned, emit_unsigned_decimal,
  decimal_reverse, emit_repeated, emit_hex_integer, hex_reverse, emit_signed, emit_signed_decimal,
  signed_magnitude_i64, emit_boolean, emit_string_value,
}
use doom_os.Emit.Radix.{IsPrinted, format_u64_decimal_lem, format_u64_hex_lem}
use doom_os.Emit.Padding.{IsPadded, emit_padded-IsPadded}

abbrev wide_spec : FormatSpec
wide_spec = record default_format_spec { has_width = true; width = 7; align = center; fill = 42 }

abbrev zero_spec : FormatSpec
zero_spec = record default_format_spec {
  has_width = true;
  width = 6;
  zero_pad = true;
  alternate = true;
  presentation_value = hex_lower;
}

format_u64_decimal_example :
    (cs : Output) × (format_u64_decimal 18446744073709551615 ≡ some cs)
    × IsPrinted 10 20 18446744073709551615 cs
format_u64_decimal_example = format_u64_decimal_lem 18446744073709551615 (omega arith)

format_u64_hex_example :
    (cs : Output) × (format_u64_hex 48879 true ≡ some cs) × IsPrinted 16 16 48879 cs
format_u64_hex_example = format_u64_hex_lem 48879 true (omega arith)

emit_padded_example :
    IsPadded wide_spec [] (49 ∷ 50 ∷ []) true (emit_padded wide_spec [] (49 ∷ 50 ∷ []) true)
emit_padded_example = emit_padded-IsPadded wide_spec [] (49 ∷ 50 ∷ []) true

-- `**12***`
prints_centred :
    emit_value wide_spec (unsigned_value 12) ≡ some (42 ∷ 42 ∷ 49 ∷ 50 ∷ 42 ∷ 42 ∷ 42 ∷ [])
unfolding emit_value emit_unsigned emit_unsigned_decimal format_u64_decimal decimal_reverse
    emit_padded emit_repeated
prints_centred = refl

-- `0x00ff`
prints_zeros :
    emit_value zero_spec (unsigned_value 255) ≡ some (48 ∷ 120 ∷ 48 ∷ 48 ∷ 102 ∷ 102 ∷ [])
unfolding emit_value emit_unsigned emit_hex_integer format_u64_hex hex_reverse emit_padded
    emit_repeated
prints_zeros = refl

-- `{a=-3, b=true}`
prints_fields :
    emit_value default_format_spec (
      reflectable_value
        (field (97 ∷ []) (signed_value (negsuc 2)) (field (98 ∷ []) (boolean_value true) end)))
    ≡ some (123 ∷ 97 ∷ 61 ∷ 45 ∷ 51 ∷ 44 ∷ 32 ∷ 98 ∷ 61 ∷ 116 ∷ 114 ∷ 117 ∷ 101 ∷ 125 ∷ [])
unfolding emit_value emit_signed emit_signed_decimal format_u64_decimal decimal_reverse
    signed_magnitude_i64 emit_boolean emit_string_value emit_padded emit_repeated
prints_fields = refl
