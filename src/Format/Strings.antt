-- ===== src/Format/Strings.antt =====
-- `parse_format` of kernel/debug/format_spec.hpp against a grammar of format strings.
use doom_os.Base.{
  ℕ, zero, suc, ◌+◌, ◌≤◌, ◌<◌, ◌≡◌, refl, sym, ◌∙◌, true, false, Option, some, length, leb, ◌==◌,
  arith, Bool-cases, inl, inr,
}
use doom_os.Format.{
  Text, FormatParseResult, char_at, is_at, open_brace, close_brace, parse_field_at, parse_from,
  parse_format,
}
use mathlib.Core.Bool.{true≢false}
use doom_os.Format.Fields.{parse_field_at-IsField}

-- From `index` on the text is made of plain characters, doubled braces and `n` fields.
pub data IsFormat (text : Text) : ℕ → ℕ → Type 0 where
  at_end : (index : ℕ) → length text ≤ index → IsFormat text index 0
  plain :
      (index n : ℕ)
      → index < length text
      → (char_at text index == open_brace) ≡ false
      → (char_at text index == close_brace) ≡ false
      → IsFormat text (index + 1) n
      → IsFormat text index n
  two_open :
      (index n : ℕ)
      → char_at text index ≡ open_brace
      → is_at text (index + 1) open_brace ≡ true
      → IsFormat text (index + 2) n
      → IsFormat text index n
  two_close :
      (index n : ℕ)
      → char_at text index ≡ close_brace
      → is_at text (index + 1) close_brace ≡ true
      → IsFormat text (index + 2) n
      → IsFormat text index n
  field :
      (index n : ℕ)
      → is_at text (index + 1) open_brace ≡ false
      → (parse_field_at text index).valid ≡ true
      → IsFormat text (index + (parse_field_at text index).length) n
      → IsFormat text index (suc n)

-- The loop ends, in a verdict on the rest of the text: it accepts the rest exactly when the rest is
-- a format, and has then counted its fields.
pub record Verdict (text : Text) (count index : ℕ) (r : Option FormatParseResult) : Type 0 where
  pub result : FormatParseResult
  pub ends : r ≡ some result
  pub sound :
      result.valid ≡ true → (n : ℕ) × IsFormat text index n × (result.field_count ≡ count + n)
  pub complete :
      (n : ℕ) → IsFormat text index n → (result.valid ≡ true) × (result.field_count ≡ count + n)

module _ (text : Text) where
  -- A format at `index` by the character there.
  past_end : (index n : ℕ) → length text ≤ index → IsFormat text index n → n ≡ 0
  past_end index n h (at_end _ _) = refl
  past_end index n h (plain _ _ l _ _ _) = absurd (omega arith)
  past_end index n h (two_open _ _ c l _) = absurd (ground arith)
  past_end index n h (two_close _ _ c l _) = absurd (ground arith)
  past_end index n h (field _ m _ v _) =
      let f = parse_field_at-IsField text index v in absurd (omega (arith, f.inside, f.some_length))

  module _ (index : ℕ) (inside : index < length text) where
    after_plain :
        (n : ℕ)
        → (char_at text index == open_brace) ≡ false
        → (char_at text index == close_brace) ≡ false
        → IsFormat text index n
        → IsFormat text (index + 1) n
    after_plain n o c (at_end _ l) = absurd (omega arith)
    after_plain n o c (plain _ _ _ _ _ rest) = rest
    after_plain n o c (two_open _ _ e _ _) = absurd (ground arith)
    after_plain n o c (two_close _ _ e _ _) = absurd (ground arith)
    after_plain n o c (field _ m _ v _) =
        let f = parse_field_at-IsField text index v in let e = f.opens in absurd (ground arith)

    after_two_open :
        (n : ℕ)
        → char_at text index ≡ open_brace
        → is_at text (index + 1) open_brace ≡ true
        → IsFormat text index n
        → IsFormat text (index + 2) n
    after_two_open n o d (at_end _ l) = absurd (omega arith)
    after_two_open n o d (plain _ _ _ e _ _) = absurd (ground arith)
    after_two_open n o d (two_open _ _ _ _ rest) = rest
    after_two_open n o d (two_close _ _ e _ _) = absurd (omega arith)
    after_two_open n o d (field _ m e _ _) = absurd (true≢false (sym d ∙ e))

    after_close :
        (n : ℕ)
        → char_at text index ≡ close_brace
        → IsFormat text index n
        → (is_at text (index + 1) close_brace ≡ true) × IsFormat text (index + 2) n
    after_close n c (at_end _ l) = absurd (omega arith)
    after_close n c (plain _ _ _ _ e _) = absurd (ground arith)
    after_close n c (two_open _ _ e _ _) = absurd (omega arith)
    after_close n c (two_close _ _ _ d rest) = (d, rest)
    after_close n c (field _ m _ v _) =
        let f = parse_field_at-IsField text index v in let e = f.opens in absurd (omega arith)

    after_field :
        (n : ℕ)
        → char_at text index ≡ open_brace
        → is_at text (index + 1) open_brace ≡ false
        → IsFormat text index n
        → ((parse_field_at text index).valid ≡ true)
          × ((m : ℕ) × (n ≡ suc m) × IsFormat text (index + (parse_field_at text index).length) m)
    after_field n o d (at_end _ l) = absurd (omega arith)
    after_field n o d (plain _ _ _ e _ _) = absurd (ground arith)
    after_field n o d (two_open _ _ _ e _) = absurd (true≢false (sym e ∙ d))
    after_field n o d (two_close _ _ e _ _) = absurd (omega arith)
    after_field n o d (field _ m _ v rest) = (v, (m, refl, rest))

  refused :
      (count index : ℕ)
      → ((n : ℕ) → ¬ IsFormat text index n)
      → Verdict text count index (some (record { valid = false; field_count = count }))
  refused count index f = record {
    result = record { valid = false; field_count = count };
    ends = refl;
    sound = λ e. absurd (true≢false (sym e));
    complete = λ n g. absurd (f n g);
  }

  -- The loop goes on at `next`, where the text is a format exactly when it is one at `index`.
  goes_on :
      (count index next : ℕ) (r : Option FormatParseResult)
      → ((n : ℕ) → IsFormat text next n → IsFormat text index n)
      → ((n : ℕ) → IsFormat text index n → IsFormat text next n)
      → Verdict text count next r
      → Verdict text count index r
  goes_on count index next r back on v = record {
    result = v.result;
    ends = v.ends;
    sound = λ e. let (n, f, c) = v.sound e in (n, back n f, c);
    complete = λ n f. v.complete n (on n f);
  }

  -- The loop goes on after a field.
  counts :
      (count index : ℕ) (r : Option FormatParseResult)
      → char_at text index ≡ open_brace
      → is_at text (index + 1) open_brace ≡ false
      → (parse_field_at text index).valid ≡ true
      → index < length text
      → Verdict text (count + 1) (index + (parse_field_at text index).length) r
      → Verdict text count index r
  counts count index r o d valid inside v = record {
    result = v.result;
    ends = v.ends;
    sound = λ e. let (n, f, c) = v.sound e in (suc n, field index n d valid f, omega (arith, c));
    complete = λ n f.
        let (_, (m, e, rest)) = after_field index inside n o d f in
        let (accepted, c) = v.complete m rest in (accepted, omega (arith, c, e));
  }

  parse_from-Verdict :
      (count index fuel : ℕ)
      → index ≤ length text
      → length text < index + fuel
      → Verdict text count index (parse_from text count index fuel)
  unfolding parse_from
  parse_from-Verdict count index zero inside h = absurd (omega arith)
  parse_from-Verdict count index (suc fuel) inside h = elim (Bool-cases (leb (length text) index)) [
    | inl over ↦
        let past : length text ≤ index = ground arith in
        rw over (record {
          result = record { valid = true; field_count = count };
          ends = refl;
          sound = λ e. (0, at_end index past, omega arith);
          complete = λ n f. (refl, omega (arith, past_end index n past f));
        })
    | inr more ↦
        let within : index < length text = ground arith in
        elim (Bool-cases (char_at text index == open_brace)) [
          | inl opened ↦
              let o : char_at text index ≡ open_brace = ground arith in
              elim (Bool-cases (is_at text (index + 1) open_brace)) [
                | inl double ↦
                    rw (more, opened, double)
                      (goes_on count index (index + 2) _ (λ n. two_open index n o double)
                        (λ n. after_two_open index within n o double)
                        (parse_from-Verdict count (index + 2) fuel (ground arith) (omega arith)))
                | inr single ↦ elim (Bool-cases (parse_field_at text index).valid) [
                  | inl valid ↦
                      let f = parse_field_at-IsField text index valid in
                      rw (more, opened, single, valid)
                        (counts count index _ o single valid within (
                          parse_from-Verdict (count + 1)
                            (index + (parse_field_at text index).length) fuel f.inside
                            (omega (arith, f.some_length))))
                  | inr bad ↦
                      rw (more, opened, single, bad)
                        (refused count index
                          (λ n f. true≢false (sym (after_field index within n o single f).0 ∙ bad)))
                ]
              ]
          | inr unopened ↦ elim (Bool-cases (char_at text index == close_brace)) [
            | inl close ↦
                let c : char_at text index ≡ close_brace = ground arith in
                elim (Bool-cases (is_at text (index + 1) close_brace)) [
                  | inl double ↦
                      rw (more, unopened, close, double)
                        (goes_on count index (index + 2) _ (λ n. two_close index n c double)
                          (λ n f. (after_close index within n c f).1)
                          (parse_from-Verdict count (index + 2) fuel (ground arith) (omega arith)))
                  | inr single ↦
                      rw (more, unopened, close, single)
                        (refused count index
                          (λ n f. true≢false (sym (after_close index within n c f).0 ∙ single)))
                ]
            | inr other ↦
                rw (more, unopened, other)
                  (goes_on count index (index + 1) _ (λ n. plain index n within unopened other)
                    (λ n. after_plain index within n unopened other)
                    (parse_from-Verdict count (index + 1) fuel (omega arith) (omega arith)))
          ]
        ]
  ]

-- `parse_format` ends on every text, and accepts it with `n` fields exactly when the text is made of
-- plain characters, doubled braces and `n` fields that `parse_field_at` accepts.
pub parse_format_lem : (text : Text) → Verdict text 0 0 (parse_format text)
unfolding parse_format
parse_format_lem text = parse_from-Verdict text 0 0 (length text + 1) (omega arith) (omega arith)
