-- ===== src/Bits/Align.antt =====
-- Alignment by powers of two (kernel/core/utils/bits.hpp), as arithmetic.
use native.Mathlib.Nat.{
  mod-eq_of_lt, mod-lt, mod-add-mod, add-mod_left, div-add-mod, mul-mod_right, div-eq_of_lt,
  mod_self,
}
use doom_os.Base.{
  ℕ, zero, suc, ◌+◌, ◌-◌, ◌*◌, ◌/◌, ◌%◌, ◌^◌, ◌≤◌, ◌<◌, ◌≡◌, refl, ap, ◌∙◌, ◌↔◌, true, bit_and,
  ◌==◌, arith, Bool-cases, inl, inr,
}
use doom_os.Bits.{decrement, is_power_of_two, align_down, align_up, is_aligned}
use doom_os.Bits.Digits.{bit_and_digit}
use doom_os.Bits.Positions.{two_pow_suc}
use doom_os.Bits.Words.{two_pow_lt, decrement_of_pos, bit_and-low_mask, bit_and-high_mask}

decrement-pow : (k w : ℕ) → k < w → decrement w (2 ^ k) ≡ 2 ^ k - 1
decrement-pow k w h = decrement_of_pos w (2 ^ k) (two_pow_suc k).1 (omega (arith, two_pow_lt k w h))

-- `align_down` subtracts the remainder.
pub align_down_lem :
    (w k value : ℕ) → k < w → value < 2 ^ w → align_down w value (2 ^ k) + value % 2 ^ k ≡ value
unfolding align_down
align_down_lem w k value h l =
    rw (decrement-pow k w h) (bit_and-high_mask k w value (omega arith) l)

-- `align_down` rounds down to a multiple of the alignment.
pub align_down-mul :
    (w k value : ℕ) → k < w → value < 2 ^ w → align_down w value (2 ^ k) ≡ 2 ^ k * (value / 2 ^ k)
align_down-mul w k value h l =
    omega (arith, align_down_lem w k value h l, div-add-mod value (2 ^ k))

pub is_aligned_lem : (w k value : ℕ) → k < w → is_aligned w value (2 ^ k) ≡ (value % 2 ^ k == 0)
unfolding is_aligned
is_aligned_lem w k value h = rw (decrement-pow k w h, bit_and-low_mask k value)

-- `value + alignment - 1` in `w` bits.
bump_lem : (w value a : ℕ) → 0 < a → decrement w ((value + a) % 2 ^ w) ≡ (value + (a - 1)) % 2 ^ w
bump_lem w value a h =
    let e : value + a + (2 ^ w - 1) ≡ 2 ^ w + (value + (a - 1)) = omega (arith, two_pow_suc w) in
    rw (mod-add-mod (value + a) (2 ^ w) (2 ^ w - 1), e) (add-mod_left (2 ^ w) _)

-- `align_up` to a power of two below the word's size, when the sum inside does not leave the word,
-- is a multiple of the alignment, no less than the value, and less than one alignment above it.
pub align_up_lem :
    (w k value : ℕ)
    → k < w
    → value + (2 ^ k - 1) < 2 ^ w
    → (align_up w value (2 ^ k) % 2 ^ k ≡ 0)
      × (value ≤ align_up w value (2 ^ k))
      × (align_up w value (2 ^ k) < value + 2 ^ k)
unfolding align_up
align_up_lem w k value h fits =
    rw (bump_lem w value (2 ^ k) (two_pow_suc k).1, mod-eq_of_lt fits)
      (
        rw (align_down-mul w k (value + (2 ^ k - 1)) h fits) (mul-mod_right (2 ^ k) _),
        omega (arith, down, small),
        omega (arith, down, two_pow_suc k),
      )
  where
    down :
        align_down w (value + (2 ^ k - 1)) (2 ^ k) + (value + (2 ^ k - 1)) % 2 ^ k
        ≡ value + (2 ^ k - 1)
    down = align_down_lem w k (value + (2 ^ k - 1)) h fits

    small : (value + (2 ^ k - 1)) % 2 ^ k < 2 ^ k
    small = mod-lt _ (two_pow_suc k).1

-- `align_up` of a value whose next multiple does not fit the word wraps to zero.
pub align_up_wraps :
    (w k value : ℕ)
    → k < w
    → value < 2 ^ w
    → 2 ^ w ≤ value + (2 ^ k - 1)
    → align_up w value (2 ^ k) ≡ 0
unfolding align_up
align_up_wraps w k value h l wraps = rw (bump_lem w value (2 ^ k) (two_pow_suc k).1) (
    rw low (
      align_down-mul w k _ h (omega (arith, two_pow_lt k w h))
      ∙ ap (λ t. 2 ^ k * t) below
      ∙ omega arith))
  where
    below : (value + (2 ^ k - 1) - 2 ^ w) / 2 ^ k ≡ 0
    below = div-eq_of_lt (omega (arith, two_pow_lt k w h))

    low : (value + (2 ^ k - 1)) % 2 ^ w ≡ value + (2 ^ k - 1) - 2 ^ w
    low =
        let e : value + (2 ^ k - 1) ≡ 2 ^ w + (value + (2 ^ k - 1) - 2 ^ w) = omega arith in
        ap (λ t. t % 2 ^ w) e
        ∙ add-mod_left (2 ^ w) _
        ∙ mod-eq_of_lt (omega (arith, two_pow_lt k w h))

bit_and-self_below : (n a : ℕ) → a ≤ n → bit_and a a ≡ a
bit_and-self_below n zero h = refl
bit_and-self_below zero (suc a) h = absurd (omega arith)
bit_and-self_below (suc n) (suc a) h =
    omega (arith, bit_and_digit (suc a) (suc a), bit_and-self_below n (suc a / 2) (omega arith))

halve_even : (x : ℕ) → 0 < x → bit_and x (x - 1) ≡ 0 → x % 2 ≡ 0 → bit_and (x / 2) (x / 2 - 1) ≡ 0
halve_even x p e even =
    let half : (x - 1) / 2 ≡ x / 2 - 1 = omega arith in ground (arith, bit_and_digit x (x - 1))

halve_odd : (x : ℕ) → 0 < x → bit_and x (x - 1) ≡ 0 → x % 2 ≡ 1 → x ≡ 1
halve_odd x p e odd =
    let half : (x - 1) / 2 ≡ x / 2 = omega arith in
    ground (arith, bit_and_digit x (x - 1), bit_and-self_below (x / 2) (x / 2))

-- A nonzero `x` with `x & (x - 1) = 0` is a power of two.
pow_of_bit_and :
    (w x : ℕ) → x < 2 ^ w → 0 < x → bit_and x (x - 1) ≡ 0 → (k : ℕ) × (k < w) × (x ≡ 2 ^ k)
pow_of_bit_and zero x h p e = absurd (omega arith)
pow_of_bit_and (suc w) x h p e = elim (Bool-cases (x % 2 == 0)) [
  | inl even ↦
      let (k, below, eq) =
        pow_of_bit_and w (x / 2) (omega (arith, two_pow_suc w)) (ground arith)
          (halve_even x p e (ground arith)) in
      (suc k, omega arith, ground (arith, two_pow_suc k))
  | inr odd ↦ (0, omega arith, halve_odd x p e (ground arith))
]

-- `is_power_of_two` accepts exactly the powers of two of the word.
pub is_power_of_two_iff :
    (w value : ℕ)
    → value < 2 ^ w
    → (is_power_of_two w value ≡ true) ↔ ((k : ℕ) × (k < w) × (value ≡ 2 ^ k))
unfolding is_power_of_two
is_power_of_two_iff w value h = (λ t. forward t, λ (k, below, e). backward k below e)
  where
    forward : is_power_of_two w value ≡ true → (k : ℕ) × (k < w) × (value ≡ 2 ^ k)
    forward t =
        let p : 0 < value = ground arith in
        pow_of_bit_and w value h p (
          let d : decrement w value ≡ value - 1 = decrement_of_pos w value p (omega arith) in
          ground arith)

    backward : (k : ℕ) → k < w → value ≡ 2 ^ k → is_power_of_two w value ≡ true
    backward k below e =
        rw (e, decrement-pow k w below, bit_and-low_mask k (2 ^ k))
          (ground (arith, two_pow_suc k, mod_self (2 ^ k)))
