-- ===== src/FixedString/Compare.antt =====
-- `compare` of kernel/core/utils/string.hpp.
use doom_os.Base.{
  ◌≡◌, refl, sym, ap, ◌∙◌, ◌↔◌, true, false, [], ◌∷◌, ◌==◌, ◌!=◌, if◌then◌else◌, ℤ, pos, negsuc,
  arith, Bool, Bool-cases, inl, inr,
}
use mathlib.Core.Bool.{true≢false}
use doom_os.FixedString.{
  Text, FixedString, char_less, less, same, greater, compare_from, compare, chars,
}

-- The characters of a C string.
abbrev pub c_string : Text → Text
c_string [] = []
c_string (c ∷ cs) = if c == 0 then [] else c ∷ c_string cs

abbrev is_same : ℤ → Bool
is_same (pos n) = n == 0
is_same (negsuc n) = false

less-greater : (b : Bool) → is_same (if b then less else greater) ≡ false
less-greater true = refl
less-greater false = refl

compare_from-same : (xs text : Text) → compare_from xs text ≡ same → xs ≡ c_string text
unfolding compare_from
compare_from-same [] [] e = refl
compare_from-same [] (t ∷ ts) e = elim (Bool-cases (t == 0)) [
  | inl stop ↦ rw stop refl
  | inr more ↦ absurd (true≢false (sym (ap is_same (rw more at e))))
]
compare_from-same (x ∷ xs) [] e = absurd (true≢false (sym (ap is_same e)))
compare_from-same (x ∷ xs) (t ∷ ts) e = elim (Bool-cases (t == 0)) [
  | inl stop ↦ absurd (true≢false (sym (ap is_same (rw stop at e))))
  | inr more ↦ elim (Bool-cases (x != t)) [
    | inl apart ↦
        absurd
          (true≢false (sym (ap is_same (rw (more, apart) at e)) ∙ less-greater (char_less x t)))
    | inr equal ↦
        let k : x ≡ t = ground arith in
        let r = compare_from-same xs ts (rw (more, equal) at e) in rw (more, k, r) refl
  ]
]

same-compare_from : (xs text : Text) → xs ≡ c_string text → compare_from xs text ≡ same
unfolding compare_from
same-compare_from xs text e = rw e (itself text)
  where
    itself : (text : Text) → compare_from (c_string text) text ≡ same
    itself [] = refl
    itself (t ∷ ts) = elim (Bool-cases (t == 0)) [
      | inl stop ↦ rw stop (rw stop refl)
      | inr more ↦ let k : (t != t) ≡ false = ground arith in rw more (rw (more, k) (itself ts))
    ]

-- `compare` gives 0 exactly when the string holds the characters of the text before its terminator.
pub compare_lem :
    (s : FixedString) (text : Text) → (compare s text ≡ same) ↔ (chars s ≡ c_string text)
unfolding compare
compare_lem s text = (compare_from-same (chars s) text, same-compare_from (chars s) text)
