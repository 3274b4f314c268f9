-- ===== src/Emit/Padding.antt =====
-- `emit_padded` of kernel/debug/emit.hpp: what it adds around a value to reach the width.
use doom_os.Base.{
  ℕ, zero, suc, ◌+◌, ◌-◌, ◌/◌, ◌≤◌, ◌<◌, ◌≡◌, refl, sym, ap, ◌∙◌, Bool, true, false, ◌&&◌, ◌++◌,
  length, length-append, ltb, if◌then◌else◌, arith, Bool-cases, inl, inr,
}
use mathlib.Core.Bool.{true≢false}
use mathlib.Core.List.{append-nil, append_assoc}
use doom_os.Format.{FormatAlign, default_align, left, right, center, FormatSpec}
use doom_os.Emit.{Output, emit_repeated, align_of, is_right, pad_by, emit_padded}

abbrev pub width_of : FormatSpec → ℕ
width_of spec = if spec.has_width then spec.width else 0

-- Where the fill goes: all before the value, all behind it, or half and half, the odd one behind.
abbrev pub IsPlaced : FormatAlign → ℕ → ℕ → Type 0
IsPlaced left before after = before ≡ 0
IsPlaced center before after = (before ≤ after) × (after ≤ before + 1)
IsPlaced right before after = after ≡ 0
IsPlaced default_align before after = after ≡ 0

-- Whether zeros fill the width: for a number that is to be padded with zeros and stands on the right.
abbrev pub takes_zeros : FormatSpec → Bool → Bool
takes_zeros spec numeric = numeric && (spec.zero_pad && is_right (align_of spec.align numeric))

pub record IsPadded (spec : FormatSpec) (prefix body : Output) (numeric : Bool) (out : Output)
    : Type 0 where
  pub before : ℕ
  pub zeros : ℕ
  pub after : ℕ
  pub shape :
      out
      ≡ emit_repeated spec.fill before
        ++ prefix
        ++ emit_repeated 48 zeros
        ++ body
        ++ emit_repeated spec.fill after
  pub fills : length prefix + length body < width_of spec → length out ≡ width_of spec
  pub adds_nothing : width_of spec ≤ length prefix + length body → before + zeros + after ≡ 0
  pub placed : IsPlaced (align_of spec.align numeric) before after
  pub by_zeros : takes_zeros spec numeric ≡ true → before + after ≡ 0
  pub by_fill : takes_zeros spec numeric ≡ false → zeros ≡ 0

emit_repeated-length : (value count : ℕ) → length (emit_repeated value count) ≡ count
unfolding emit_repeated
emit_repeated-length value zero = refl
emit_repeated-length value (suc count) = ap suc (emit_repeated-length value count)

-- A value with the fill before and behind it, and zeros after its prefix.
abbrev around : ℕ → Output → Output → ℕ → ℕ → ℕ → Output
around fill prefix body before zeros after =
    emit_repeated fill before
    ++ prefix
    ++ emit_repeated 48 zeros
    ++ body
    ++ emit_repeated fill after

around-length :
    (fill : ℕ) (prefix body : Output) (before zeros after : ℕ)
    → length (around fill prefix body before zeros after)
      ≡ before + zeros + after + length prefix + length body
around-length fill prefix body before zeros after =
    let f = emit_repeated fill before in
    let z = emit_repeated 48 zeros in
    omega (
      arith,
      length-append (f ++ prefix ++ z ++ body) (emit_repeated fill after),
      length-append (f ++ prefix ++ z) body,
      length-append (f ++ prefix) z,
      length-append f prefix,
      emit_repeated-length fill before,
      emit_repeated-length 48 zeros,
      emit_repeated-length fill after,
    )

module _ (fill : ℕ) (prefix body : Output) where
  -- Without zeros.
  around-prefix :
      (before after : ℕ)
      → around fill prefix body before 0 after
        ≡ emit_repeated fill before ++ (prefix ++ body) ++ emit_repeated fill after
  unfolding emit_repeated
  around-prefix before after =
      ap (λ t. t ++ emit_repeated fill after)
        (ap (λ t. t ++ body) (append-nil (emit_repeated fill before ++ prefix))
          ∙ append_assoc (emit_repeated fill before) prefix body)

  pad_by-around :
      (align : FormatAlign) (padding : ℕ)
      → (before : ℕ) × ((after : ℕ) × ((pad_by align fill padding (prefix ++ body)
              ≡ around fill prefix body before 0 after)
            × IsPlaced align before after
            × (before + after ≡ padding)))
  unfolding emit_repeated
  pad_by-around left padding = (0, (padding, (sym (around-prefix 0 padding), refl, omega arith)))
  pad_by-around center padding = (
    padding / 2,
    (
      padding - padding / 2,
      (
        sym (around-prefix (padding / 2) (padding - padding / 2)),
        (omega arith, omega arith),
        omega arith,
      ),
    ),
  )
  pad_by-around right padding = (
    padding,
    (
      0,
      (
        sym (append-nil (emit_repeated fill padding ++ (prefix ++ body)))
            ∙ sym (around-prefix padding 0),
        refl,
        omega arith,
      ),
    ),
  )
  pad_by-around default_align padding = (
    padding,
    (
      0,
      (
        sym (append-nil (emit_repeated fill padding ++ (prefix ++ body)))
            ∙ sym (around-prefix padding 0),
        refl,
        omega arith,
      ),
    ),
  )

right-IsPlaced : (align : FormatAlign) → is_right align ≡ true → IsPlaced align 0 0
right-IsPlaced left e = refl
right-IsPlaced center e = (omega arith, omega arith)
right-IsPlaced right e = refl
right-IsPlaced default_align e = refl

-- `emit_padded` writes the prefix and the body, unchanged and in this order. The text is as long as
-- the width asks, or as its content where that is no shorter. What is missing is filled with zeros
-- between the two, and nothing around them, exactly for a number that is to be padded with zeros and
-- stands on the right; in all other cases with the fill around the two and no zeros, where the
-- alignment says, in the middle with the odd character behind.
pub emit_padded-IsPadded :
    (spec : FormatSpec) (prefix body : Output) (numeric : Bool)
    → IsPadded spec prefix body numeric (emit_padded spec prefix body numeric)
unfolding emit_padded emit_repeated
emit_padded-IsPadded spec prefix body numeric =
    let content = length prefix + length body in
    let padding = if ltb content (width_of spec) then width_of spec - content else 0 in
    let align = align_of spec.align numeric in
    let full : content < width_of spec → padding + content ≡ width_of spec = λ h. ground arith in
    let none_left : width_of spec ≤ content → padding ≡ 0 = λ h. ground arith in
    elim (Bool-cases (numeric && (spec.zero_pad && is_right align))) [
      | inl zeros ↦
          let on_right : is_right align ≡ true = ground arith in
          rw zeros record {
            before = 0;
            zeros = padding;
            after = 0;
            shape = sym (append-nil (prefix ++ emit_repeated 48 padding ++ body));
            fills = λ h.
                ap (λ (t : Output). length t)
                  (sym (append-nil (prefix ++ emit_repeated 48 padding ++ body)))
                ∙ around-length spec.fill prefix body 0 padding 0
                ∙ omega (arith, full h);
            adds_nothing = λ h. omega (arith, none_left h);
            placed = right-IsPlaced align on_right;
            by_zeros = λ h. refl;
            by_fill = λ h. absurd (true≢false (sym zeros ∙ h));
          }
      | inr fills ↦
          let (before, (after, (e, placed, sum))) =
            pad_by-around spec.fill prefix body align padding in
          rw (fills, e)
            record {
              before = before;
              zeros = 0;
              after = after;
              shape = refl;
              fills =
                  λ h. around-length spec.fill prefix body before 0 after ∙ omega (arith, full h);
              adds_nothing = λ h. omega (arith, none_left h);
              placed = placed;
              by_zeros = λ h. absurd (true≢false (sym h ∙ fills));
              by_fill = λ h. refl;
            }
    ]
