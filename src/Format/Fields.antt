-- ===== src/Format/Fields.antt =====
-- `parse_field_at` of kernel/debug/format_spec.hpp.
use doom_os.Base.{
  ℕ, ◌+◌, ◌-◌, ◌≤◌, ◌<◌, ◌≡◌, true, ◌||◌, ◌>>=◌, Option, none, some, length, leb, ◌==◌, ◌!=◌, arith,
  Bool-cases, inl, inr,
}
use doom_os.Format.{
  Text, FormatSpec, FormatField, char_at, is_at, open_brace, close_brace, close_field, or_invalid,
  parse_flags, parse_width, parse_precision, parse_presentation, parse_spec, parse_field_at,
}
use doom_os.Format.Digits.{
  IsFresh, Limits, Bounded, parse_flags_lem, parse_width_lem, parse_precision_lem,
  parse_presentation_lem,
}

-- A field that is accepted stands inside the text between its braces, and its numbers are within
-- their limits.
pub record IsField (text : Text) (offset : ℕ) (f : FormatField) : Type 0 where
  pub some_length : 2 ≤ f.length
  pub inside : offset + f.length ≤ length text
  pub opens : char_at text offset ≡ open_brace
  pub closes : char_at text (offset + f.length - 1) ≡ close_brace
  pub limits : Limits f.spec

abbrev pub ValidField : Text → ℕ → FormatField → Type 0
ValidField text offset f = f.valid ≡ true → IsField text offset f

module _ (text : Text) (offset : ℕ) (opens : char_at text offset ≡ open_brace) where
  close_field-ValidField :
      (s : FormatSpec) (index : ℕ)
      → offset + 2 ≤ index
      → Limits s
      → ValidField text offset (close_field text offset (s, index))
  unfolding close_field
  close_field-ValidField s index low l = elim (Bool-cases (is_at text index close_brace)) [
    | inl closed ↦
        let e : offset + (index - offset + 1) - 1 ≡ index = omega arith in
        rw closed (λ v. record {
          some_length = omega arith;
          inside = ground arith;
          opens = opens;
          closes = rw e (ground arith);
          limits = l;
        })
    | inr other ↦ rw other (λ v. ground arith)
  ]

  parse_spec-ValidField :
      (s : FormatSpec) (index : ℕ)
      → offset + 2 ≤ index
      → index ≤ length text
      → IsFresh s
      → ValidField text offset (or_invalid (parse_spec text offset (s, index)))
  unfolding parse_spec
  parse_spec-ValidField s index low inside fresh =
      widened (parse_width text s index) (parse_width_lem text s index inside fresh)
    where
      presented :
          (from : ℕ)
          → offset + 2 ≤ from
          → (r : Option (FormatSpec × ℕ)) → Bounded text from r
          → ValidField text offset
              (or_invalid (r >>= (λ last. some (close_field text offset last))))
      presented from l none b = λ v. ground arith
      presented from l (some (s', to)) b = close_field-ValidField s' to (omega (arith, b)) b.1

      specified :
          (from : ℕ)
          → offset + 2 ≤ from
          → (r : Option (FormatSpec × ℕ)) → Bounded text from r
          → ValidField text offset (
              or_invalid (
                r >>= (λ (s2, index2).
                  parse_presentation text s2 index2
                  >>= (λ last. some (close_field text offset last)))))
      specified from l none b = λ v. ground arith
      specified from l (some (s', to)) b =
          presented to (omega (arith, b)) (parse_presentation text s' to)
            (parse_presentation_lem text s' to b.0.1 b.1)

      widened :
          (r : Option (FormatSpec × ℕ))
          → Bounded text index r
          → ValidField text offset (
              or_invalid (
                r >>= (λ (s1, index1). parse_precision text s1 index1 >>= (λ (s2, index2).
                  parse_presentation text s2 index2
                  >>= (λ last. some (close_field text offset last))))))
      widened none b = λ v. ground arith
      widened (some (s', to)) b =
          specified to (omega (arith, b)) (parse_precision text s' to)
            (parse_precision_lem text s' to b.0.1 b.1)

-- A field that `parse_field_at` accepts is at least two characters long, lies inside the text,
-- starts with an opening brace and ends with a closing one; its width is at most 128 and its
-- precision at most 18.
pub parse_field_at-IsField :
    (text : Text) (offset : ℕ)
    → (parse_field_at text offset).valid ≡ true
    → IsField text offset (parse_field_at text offset)
unfolding parse_field_at
parse_field_at-IsField text offset =
    elim (Bool-cases (leb (length text) (offset + 1) || (char_at text offset != open_brace))) [
      | inl bad ↦ rw bad (λ v. ground arith)
      | inr good ↦
          let opens : char_at text offset ≡ open_brace = ground arith in
          elim (Bool-cases (char_at text (offset + 1) == close_brace)) [
            | inl plain ↦
                let e : offset + 2 - 1 ≡ offset + 1 = omega arith in
                rw (good, plain)
                  (λ v. record {
                    some_length = omega arith;
                    inside = ground arith;
                    opens = opens;
                    closes = rw e (ground arith);
                    limits = (omega arith, omega arith);
                  })
            | inr more ↦ elim (Bool-cases (char_at text (offset + 1) != 58)) [
              | inl wrong ↦ rw (good, more, wrong) (λ v. ground arith)
              | inr colon ↦ elim (Bool-cases (leb (length text) (offset + 2))) [
                | inl short ↦ rw (good, more, colon, short) (λ v. ground arith)
                | inr long ↦
                    rw (good, more, colon, long)
                      (let inside : offset + 2 < length text = ground arith in
                        let f = parse_flags_lem text (offset + 2) inside in
                        let (s, index) = parse_flags text (offset + 2) in
                        parse_spec-ValidField text offset opens s index f.0.0 f.0.1 f.1)
              ]
            ]
          ]
    ]
