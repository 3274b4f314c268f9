-- ===== src/FixedString/Append.antt =====
-- `append` and the operations that stand on it (kernel/core/utils/string.hpp).
use doom_os.Base.{
  ℕ, zero, suc, ◌+◌, ◌-◌, ◌≤◌, ◌<◌, ◌≡◌, refl, ap, ◌∙◌, true, false, ◌&&◌, ◌||◌, [], ◌∷◌, ◌++◌,
  length, length-set, get_or, get_or-set_self, set, take, take-set, ltb, ◌==◌, ◌!=◌, if◌then◌else◌,
  arith, Bool-cases, inl, inr,
}
use mathlib.Core.List.{append-nil, append_assoc}
use doom_os.FixedString.{Text, FixedString, put, terminate, append_from, append, chars}

-- The characters of a C string, n at most.
abbrev pub c_prefix : ℕ → Text → Text
c_prefix zero text = []
c_prefix (suc n) [] = []
c_prefix (suc n) (c ∷ cs) = if c == 0 then [] else c ∷ c_prefix n cs

abbrev pub least : ℕ → ℕ → ℕ
least a b = if ltb a b then a else b

-- The array holds the characters, within the capacity, up to the size.
record IsFilled (n : ℕ) (s : FixedString) (xs : Text) : Type 0 where
  within : s.size ≤ n
  array : length s.bytes ≡ n + 1
  holds : take s.size s.bytes ≡ xs

-- A string of capacity n holds the characters: a zero follows them.
pub record IsString (n : ℕ) (s : FixedString) (xs : Text) : Type 0 where
  pub within : s.size ≤ n
  pub array : length s.bytes ≡ n + 1
  pub holds : chars s ≡ xs
  pub ends : get_or s.bytes s.size 1 ≡ 0

take-set_end : (k : ℕ) (xs : Text) (a : ℕ) → take k (set xs k a) ≡ take k xs
take-set_end zero xs a = refl
take-set_end (suc k) [] a = refl
take-set_end (suc k) (x ∷ xs) a = ap (λ ys. x ∷ ys) (take-set_end k xs a)

terminate-IsString :
    (n : ℕ) (s : FixedString) (xs : Text) → IsFilled n s xs → IsString n (terminate s) xs
terminate-IsString n s xs f = record {
  within = f.within;
  array = length-set s.bytes s.size 0 ∙ f.array;
  holds = take-set_end s.size s.bytes 0 ∙ f.holds;
  ends = get_or-set_self s.bytes s.size 0 1 (omega (arith, f.within, f.array));
}

put-IsFilled :
    (n : ℕ) (s : FixedString) (xs : Text) (c : ℕ)
    → s.size < n
    → IsFilled n s xs
    → IsFilled n (put c s) (xs ++ c ∷ [])
put-IsFilled n s xs c h f =
    let e : s.size + 1 ≡ suc s.size = omega arith in
    record {
      within = omega arith;
      array = length-set s.bytes s.size c ∙ f.array;
      holds =
          rw e
            (take-set s.size s.bytes c (omega (arith, f.array)) ∙ ap (λ ys. ys ++ c ∷ []) f.holds);
    }

append_from-IsFilled :
    (n : ℕ) (text : Text) (count : ℕ) (s : FixedString) (xs : Text)
    → IsFilled n s xs
    → IsFilled n (append_from n text count s) (xs ++ c_prefix (least count (n - s.size)) text)
unfolding append_from
append_from-IsFilled n [] count s xs f = rw (nothing (least count (n - s.size)), append-nil xs) f
  where
    nothing : (k : ℕ) → c_prefix k [] ≡ []
    nothing zero = refl
    nothing (suc k) = refl
append_from-IsFilled n (c ∷ cs) count s xs f =
    elim (Bool-cases (ltb 0 count && (ltb s.size n && (c != 0)))) [
      | inl goes ↦
          let room : s.size < n = ground arith in
          let k : least count (n - s.size) ≡ suc (least (count - 1) (n - (s.size + 1))) =
            ground arith in
          let z : (c == 0) ≡ false = ground arith in
          let rest =
            append_from-IsFilled n cs (count - 1) (put c s) (xs ++ c ∷ [])
              (put-IsFilled n s xs c room f) in
          rw (goes, k, z)
            (rw (append_assoc xs (c ∷ []) (c_prefix (least (count - 1) (n - (s.size + 1))) cs)) at
              rest)
      | inr stops ↦
          let e : c_prefix (least count (n - s.size)) (c ∷ cs) ≡ [] =
            stopped (least count (n - s.size)) (ground (arith, f.within)) in
          rw (stops, e, append-nil xs) f
    ]
  where
    stopped : (k : ℕ) → (k == 0) || (c == 0) ≡ true → c_prefix k (c ∷ cs) ≡ []
    stopped zero e = refl
    stopped (suc k) e = let z : (c == 0) ≡ true = ground arith in rw z refl

-- `append` adds to a string the characters of the text before its terminator, `count` at most and as
-- many as the capacity has room for, and no others; the string stays within its array and ends with
-- a terminator.
pub append_lem :
    (n : ℕ) (s : FixedString) (xs text : Text) (count : ℕ)
    → IsString n s xs
    → IsString n (append n s text count) (xs ++ c_prefix (least count (n - s.size)) text)
unfolding append
append_lem n s xs text count i =
    terminate-IsString n (append_from n text count s)
      (xs ++ c_prefix (least count (n - s.size)) text)
      (append_from-IsFilled n text count s xs
        record { within = i.within; array = i.array; holds = i.holds })
