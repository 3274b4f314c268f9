-- ===== src/Bits/Words.antt =====
-- What the helpers of kernel/core/utils/bits.hpp compute, for every width.
use native.Mathlib.Nat.{
  mod-eq_of_lt, mod-lt, pow-le-pow_right, add-mod_left, div-add-mod, mul-add-mod_self_left,
}
use doom_os.Base.{
  ℕ, zero, suc, ◌+◌, ◌-◌, ◌*◌, ◌/◌, ◌%◌, ◌^◌, ◌≤◌, ◌<◌, ◌≡◌, ◌∙◌, not, ◌&&◌, ◌||◌, bit_and, bit_or,
  ltb, ltb_of_lt, leb_of_lt, ◌==◌, arith, ap,
}
use doom_os.Bits.{complement, decrement, test_bit, set_bit, clear_bit, mask}
use doom_os.Bits.Digits.{bit_and_digit, bit_and-zero}
use doom_os.Bits.Positions.{
  bit_at, two_pow_suc, bit_at-bit_and, bit_at-bit_or, bit_at-complement, bit_at-mask, bit_at-pow,
  bit_and-pow,
}

pub two_pow_lt : (k w : ℕ) → k < w → 2 ^ k < 2 ^ w
two_pow_lt k w h =
    omega (arith, two_pow_suc k, pow-le-pow_right {n = 2} (omega arith) {i = suc k} {j = w} h)

-- The bits of `mask`: exactly the positions below `count`.
pub bit_at-mask_lem : (w count i : ℕ) → i < w → bit_at (mask w count) i ≡ ltb i count
unfolding mask
bit_at-mask_lem w count i h = ground (arith, bit_at-mask i w, bit_at-mask i count)

pub test_bit_lem : (w value i : ℕ) → i < w → test_bit w value i ≡ bit_at value i
unfolding test_bit
test_bit_lem w value i h = rw (ltb_of_lt i w h, leb_of_lt w i h) (bit_and-pow i value)

-- Setting and clearing bit `index` changes that bit and no other.
pub test_bit-set_bit :
    (w value index i : ℕ)
    → index < w
    → i < w
    → (test_bit w (set_bit w value index) i ≡ (i == index || test_bit w value i))
unfolding set_bit
test_bit-set_bit w value index i h k =
    rw
      (test_bit_lem w value i k, leb_of_lt w index h, test_bit_lem w (bit_or value (2 ^ index)) i k)
      (ground (arith, bit_at-bit_or i value (2 ^ index), bit_at-pow i index))

pub test_bit-clear_bit :
    (w value index i : ℕ)
    → index < w
    → i < w
    → (test_bit w (clear_bit w value index) i ≡ (not (i == index) && test_bit w value i))
unfolding clear_bit
test_bit-clear_bit w value index i h k =
    rw
      (
        test_bit_lem w value i k,
        leb_of_lt w index h,
        test_bit_lem w (bit_and value (complement w (2 ^ index))) i k,
      )
      (ground (
        arith,
        bit_at-bit_and i value (complement w (2 ^ index)),
        bit_at-complement i w (2 ^ index) (two_pow_lt index w h) k,
        bit_at-pow i index,
      ))

pub decrement_of_pos : (w x : ℕ) → 0 < x → x ≤ 2 ^ w → decrement w x ≡ x - 1
decrement_of_pos w x p h =
    let e : x + (2 ^ w - 1) ≡ 2 ^ w + (x - 1) = omega (arith, two_pow_suc w) in
    rw (e, add-mod_left (2 ^ w) (x - 1)) (mod-eq_of_lt (omega arith))

-- The lowest digit of a remainder.
mod-two_mul : (m x : ℕ) → 0 < m → x % (2 * m) ≡ x / 2 % m * 2 + x % 2
mod-two_mul m x h =
    let e : x ≡ 2 * m * (x / 2 / m) + (x / 2 % m * 2 + x % 2) =
      omega (arith, div-add-mod (x / 2) m) in
    ap (λ t. t % (2 * m)) e
    ∙ mul-add-mod_self_left (2 * m) (x / 2 / m) (x / 2 % m * 2 + x % 2)
    ∙ mod-eq_of_lt (omega (arith, mod-lt (x / 2) h))

-- `x & (2^k - 1)` is a remainder.
pub bit_and-low_mask : (k x : ℕ) → bit_and x (2 ^ k - 1) ≡ x % 2 ^ k
bit_and-low_mask zero x = rw (bit_and-zero x) (omega arith)
bit_and-low_mask (suc k) x =
    rw ((two_pow_suc k).0, mod-two_mul (2 ^ k) x (two_pow_suc k).1)
      (ground (arith, bit_and_digit x (2 * 2 ^ k - 1), two_pow_suc k, bit_and-low_mask k (x / 2)))

-- `x & ~(2^k - 1)` drops that remainder.
pub bit_and-high_mask :
    (k w x : ℕ) → k ≤ w → x < 2 ^ w → bit_and x (2 ^ w - 1 - (2 ^ k - 1)) + x % 2 ^ k ≡ x
bit_and-high_mask zero w x h l =
    let e : 2 ^ w - 1 - (2 ^ 0 - 1) ≡ 2 ^ w - 1 = omega arith in
    rw (e, bit_and-low_mask w x, mod-eq_of_lt l) (omega arith)
bit_and-high_mask (suc k) zero x h l = absurd (omega arith)
bit_and-high_mask (suc k) (suc w) x h l =
    rw ((two_pow_suc k).0, (two_pow_suc w).0, mod-two_mul (2 ^ k) x (two_pow_suc k).1)
      (ground (
        arith,
        bit_and_digit x (2 * 2 ^ w - 1 - (2 * 2 ^ k - 1)),
        two_pow_suc k,
        two_pow_suc w,
        bit_and-high_mask k w (x / 2) (omega arith) (omega (arith, two_pow_suc w)),
      ))
