-- ===== src/Format/Digits.antt =====
-- The parts of `parse_field_at` (kernel/debug/format_spec.hpp): each moves on inside the text, and
-- the numbers that it accepts are small.
use doom_os.Base.{
  ℕ, zero, suc, ◌+◌, ◌-◌, ◌*◌, ◌%◌, ◌^◌, ◌≤◌, ◌<◌, ◌≡◌, refl, true, false, Option, none, some,
  length, ltb, arith, Bool-cases, inl, inr,
}
use doom_os.Format.{
  Text, FormatSpec, default_format_spec, char_at, is_at, digit_at, parse_align, parse_sign,
  parse_alternate, parse_zero, parse_flags, width_digits, precision_digits, parse_width,
  parse_precision, parse_presentation, max_format_width, max_float_precision,
}

-- A part of the parse ends no earlier than it started, and inside the text.
abbrev pub Moves : Text → ℕ → ℕ → Type 0
Moves text from to = (from ≤ to) × (to ≤ length text)

-- The specification's numbers as `parse_field_at` starts with them.
abbrev pub IsFresh : FormatSpec → Type 0
IsFresh s = (s.width ≡ 0) × (s.precision ≡ 0) × (s.has_width ≡ false) × (s.has_precision ≡ false)

abbrev pub Flagged : Text → ℕ → FormatSpec × ℕ → Type 0
Flagged text from (s, to) = Moves text from to × IsFresh s

module _ (text : Text) (s : FormatSpec) (index : ℕ) (fresh : IsFresh s) where
  pub parse_align_lem : index < length text → Flagged text index (parse_align text s index)
  unfolding parse_align
  parse_align_lem h = ground arith

  pub parse_sign_lem : index ≤ length text → Flagged text index (parse_sign text s index)
  unfolding parse_sign
  parse_sign_lem h = ground arith

  pub parse_alternate_lem : index ≤ length text → Flagged text index (parse_alternate text s index)
  unfolding parse_alternate
  parse_alternate_lem h = ground arith

  pub parse_zero_lem : index ≤ length text → Flagged text index (parse_zero text s index)
  unfolding parse_zero
  parse_zero_lem h = ground arith

pub parse_flags_lem :
    (text : Text) (index : ℕ) → index < length text → Flagged text index (parse_flags text index)
unfolding parse_flags
parse_flags_lem text index h =
    let a = parse_align_lem text default_format_spec index (refl, refl, refl, refl) h in
    let (s1, i1) = parse_align text default_format_spec index in
    let b = parse_sign_lem text s1 i1 a.1 a.0.1 in
    let (s2, i2) = parse_sign text s1 i1 in
    let c = parse_alternate_lem text s2 i2 b.1 b.0.1 in
    let (s3, i3) = parse_alternate text s2 i2 in
    let d = parse_zero_lem text s3 i3 c.1 c.0.1 in ((omega arith, d.0.1), d.1)

-- The numbers of a field are within their limits.
abbrev pub Limits : FormatSpec → Type 0
Limits s = (s.width ≤ max_format_width) × (s.precision ≤ max_float_precision)

-- Digits move on inside the text; a loop on one of the two numbers keeps the other.
pub width_digits_lem :
    (text : Text) (s : FormatSpec) (index rounds : ℕ)
    → index + rounds ≡ length text
    → (s.has_width ≡ false → s.width ≡ 0)
    → let (s', to) = width_digits text s index rounds in
      Moves text index to × (s'.precision ≡ s.precision) × (s'.has_width ≡ false → s'.width ≡ 0)
unfolding width_digits
width_digits_lem text s index zero e z = (ground arith, refl, z)
width_digits_lem text s index (suc rounds) e z =
    let s1 : FormatSpec = record s {
      has_width = true;
      width = (s.width * 10 + (char_at text index - 48)) % 2 ^ 64;
    } in
    let rest = width_digits_lem text s1 (index + 1) rounds (omega arith) (λ x. ground arith) in
    elim (Bool-cases (digit_at text index)) [
      | inl digit ↦ rw digit (ground (arith, rest))
      | inr other ↦ rw other (ground arith)
    ]

pub precision_digits_lem :
    (text : Text) (s : FormatSpec) (index rounds : ℕ)
    → index + rounds ≡ length text
    → let (s', to) = precision_digits text s index rounds in
      Moves text index to × (s'.width ≡ s.width)
unfolding precision_digits
precision_digits_lem text s index zero e = (ground arith, refl)
precision_digits_lem text s index (suc rounds) e =
    let s1 : FormatSpec = record s {
      precision = (s.precision * 10 + (char_at text index - 48)) % 2 ^ 64;
    } in
    let rest = precision_digits_lem text s1 (index + 1) rounds (omega arith) in
    elim (Bool-cases (digit_at text index)) [
      | inl digit ↦ rw digit (ground (arith, rest))
      | inr other ↦ rw other (ground arith)
    ]

-- A part that may give the field up moves on inside the text and ends with numbers in their limits.
abbrev pub Bounded : Text → ℕ → Option (FormatSpec × ℕ) → Type 0
Bounded text from none = Unit
Bounded text from (some (s, to)) = Moves text from to × Limits s

module _ (text : Text) (s : FormatSpec) (index : ℕ) (inside : index ≤ length text) where
  pub parse_width_lem : IsFresh s → Bounded text index (parse_width text s index)
  unfolding parse_width
  parse_width_lem fresh =
      let d = width_digits_lem text s index (length text - index) (omega arith) (λ x. fresh.0) in
      let (s', to) = width_digits text s index (length text - index) in
      elim (Bool-cases s'.has_width) [
        | inl given ↦ elim (Bool-cases (ltb max_format_width s'.width)) [
          | inl wide ↦ rw (given, wide) tt
          | inr narrow ↦ rw (given, narrow) (d.0, (ground arith, ground (arith, d.1, fresh)))
        ]
        | inr absent ↦ rw absent (d.0, (ground (arith, d.2 absent), ground (arith, d.1, fresh)))
      ]

  pub parse_precision_lem : Limits s → Bounded text index (parse_precision text s index)
  unfolding parse_precision
  parse_precision_lem l =
      let s1 : FormatSpec = record s { has_precision = true } in
      let (s', to) = precision_digits text s1 (index + 1) (length text - (index + 1)) in
      elim (Bool-cases (is_at text index 46)) [
        | inr absent ↦ rw absent ((omega arith, inside), l)
        | inl dot ↦
            let d =
              precision_digits_lem text s1 (index + 1) (length text - (index + 1)) (ground arith) in
            elim (Bool-cases (digit_at text (index + 1))) [
              | inr other ↦ rw (dot, other) tt
              | inl digit ↦ elim (Bool-cases (ltb max_float_precision s'.precision)) [
                | inl long ↦ rw (dot, digit, long) tt
                | inr short ↦
                    rw (dot, digit, short) ((ground arith, d.0.1), (ground arith, ground arith))
              ]
            ]
      ]

  pub parse_presentation_lem : Limits s → Bounded text index (parse_presentation text s index)
  unfolding parse_presentation
  parse_presentation_lem l = ground arith
