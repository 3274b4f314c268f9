-- ===== src/Bits/Positions.antt =====
-- The bit at a position, and how the bit operations act on it.
use native.Mathlib.Nat.{pow-suc, one-le-pow}
use doom_os.Base.{
  ℕ, zero, suc, ◌-◌, ◌*◌, ◌/◌, ◌%◌, ◌^◌, ◌≤◌, ◌<◌, ◌≡◌, refl, Bool, false, not, ◌&&◌, ◌||◌, bit_and,
  bit_or, ltb, ◌==◌, ◌!=◌, arith,
}
use doom_os.Bits.Digits.{bit_and_digit, bit_or_digit, zero-bit_and, zero-bit_or, bit_and-zero}

unfoldable pub bit_at : ℕ → ℕ → Bool
bit_at x zero = x % 2 == 1
bit_at x (suc i) = bit_at (x / 2) i

pub two_pow_suc : (k : ℕ) → (2 ^ suc k ≡ 2 * 2 ^ k) × (1 ≤ 2 ^ k)
two_pow_suc k = (omega (arith, pow-suc 2 k), one-le-pow k 2 (omega arith))

pub bit_at-bit_and : (i a b : ℕ) → bit_at (bit_and a b) i ≡ (bit_at a i && bit_at b i)
unfolding bit_at
bit_at-bit_and zero a b = ground (arith, bit_and_digit a b)
bit_at-bit_and (suc i) a b =
    let half : bit_and a b / 2 ≡ bit_and (a / 2) (b / 2) = omega (arith, bit_and_digit a b) in
    rw half (bit_at-bit_and i (a / 2) (b / 2))

pub bit_at-bit_or : (i a b : ℕ) → bit_at (bit_or a b) i ≡ (bit_at a i || bit_at b i)
unfolding bit_at
bit_at-bit_or zero a b = ground (arith, bit_or_digit a b)
bit_at-bit_or (suc i) a b =
    let half : bit_or a b / 2 ≡ bit_or (a / 2) (b / 2) = omega (arith, bit_or_digit a b) in
    rw half (bit_at-bit_or i (a / 2) (b / 2))

pub bit_at-zero : (i : ℕ) → bit_at 0 i ≡ false
unfolding bit_at
bit_at-zero zero = refl
bit_at-zero (suc i) = bit_at-zero i

-- The complement of a `w`-bit word flips each of its bits.
pub bit_at-complement :
    (i w x : ℕ) → x < 2 ^ w → i < w → bit_at (2 ^ w - 1 - x) i ≡ not (bit_at x i)
unfolding bit_at
bit_at-complement i zero x h k = absurd (omega arith)
bit_at-complement zero (suc w) x h k = ground (arith, two_pow_suc w)
bit_at-complement (suc i) (suc w) x h k =
    let half : (2 ^ suc w - 1 - x) / 2 ≡ 2 ^ w - 1 - x / 2 = omega (arith, two_pow_suc w) in
    rw half (bit_at-complement i w (x / 2) (omega (arith, two_pow_suc w)) (omega arith))

-- The bits of a low mask.
pub bit_at-mask : (i k : ℕ) → bit_at (2 ^ k - 1) i ≡ ltb i k
unfolding bit_at
bit_at-mask i zero = ground (arith, bit_at-zero i)
bit_at-mask zero (suc k) = ground (arith, two_pow_suc k)
bit_at-mask (suc i) (suc k) =
    let half : (2 ^ suc k - 1) / 2 ≡ 2 ^ k - 1 = omega (arith, two_pow_suc k) in
    rw half (ground (arith, bit_at-mask i k))

-- The bits of a power of two.
pub bit_at-pow : (i k : ℕ) → bit_at (2 ^ k) i ≡ (i == k)
unfolding bit_at
bit_at-pow zero zero = refl
bit_at-pow (suc i) zero = ground (arith, bit_at-zero i)
bit_at-pow zero (suc k) = ground (arith, two_pow_suc k)
bit_at-pow (suc i) (suc k) =
    let half : 2 ^ suc k / 2 ≡ 2 ^ k = omega (arith, two_pow_suc k) in
    rw half (ground (arith, bit_at-pow i k))

-- A word is zero when none of its bits is set.
pub eq-zero_of_bits : (w x : ℕ) → x < 2 ^ w → ((i : ℕ) → i < w → bit_at x i ≡ false) → x ≡ 0
unfolding bit_at
eq-zero_of_bits zero x h clear = omega arith
eq-zero_of_bits (suc w) x h clear =
    let high : x / 2 ≡ 0 =
      eq-zero_of_bits w (x / 2) (omega (arith, two_pow_suc w))
        (λ i p. clear (suc i) (omega arith)) in
    ground (arith, high, clear 0)

pub bit_at_ge : (i w x : ℕ) → x < 2 ^ w → w ≤ i → bit_at x i ≡ false
unfolding bit_at
bit_at_ge zero w x h k = ground arith
bit_at_ge (suc i) zero x h k = ground (arith, bit_at-zero i)
bit_at_ge (suc i) (suc w) x h k = bit_at_ge i w (x / 2) (omega (arith, two_pow_suc w)) (omega arith)

-- `x & (1 << i)` is nonzero exactly when bit `i` of `x` is set.
pub bit_and-pow : (i x : ℕ) → (bit_and x (2 ^ i) != 0) ≡ bit_at x i
unfolding bit_at
bit_and-pow zero x = ground (arith, bit_and_digit x 1, bit_and-zero (x / 2))
bit_and-pow (suc i) x =
    ground (arith, bit_and_digit x (2 ^ suc i), two_pow_suc i, bit_and-pow i (x / 2))

pub bit_and-lt : (w a b : ℕ) → a < 2 ^ w → bit_and a b < 2 ^ w
bit_and-lt zero a b h = let e : a ≡ 0 = omega arith in rw (e, zero-bit_and b) (omega arith)
bit_and-lt (suc w) a b h =
    omega (arith, bit_and_digit a b, two_pow_suc w, bit_and-lt w (a / 2) (b / 2))

pub bit_or-lt : (w a b : ℕ) → a < 2 ^ w → b < 2 ^ w → bit_or a b < 2 ^ w
bit_or-lt zero a b h k = let e : a ≡ 0 = omega arith in rw (e, zero-bit_or b) (omega arith)
bit_or-lt (suc w) a b h k =
    omega (arith, bit_or_digit a b, two_pow_suc w, bit_or-lt w (a / 2) (b / 2))
