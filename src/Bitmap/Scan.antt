-- ===== src/Bitmap/Scan.antt =====
-- The bit at an index of a bitmap, and the bits of the masks that select part of a word.
use doom_os.Base.{ℕ, ◌+◌, ◌-◌, ◌/◌, ◌%◌, ◌^◌, ◌≤◌, ◌<◌, ◌≡◌, ◌∙◌, Bool, leb, get_or, arith}
use doom_os.Bits.{mask}
use doom_os.Bits.Positions.{bit_at, bit_and-pow, bit_at-complement, two_pow_suc}
use doom_os.Bits.Words.{bit_at-mask_lem, two_pow_lt}
use doom_os.Bitmap.{Bitmap, test, mask_from, mask_upto, last_of}

-- Every word fits its 64 bits.
abbrev pub Fits : Bitmap → Type 0
Fits words = (j : ℕ) → get_or words j 0 < 2 ^ 64

unfoldable pub bit_in : Bitmap → ℕ → ℕ → Bool
bit_in words word offset = bit_at (get_or words word 0) offset

pub test_lem : (words : Bitmap) (i : ℕ) → test words i ≡ bit_in words (i / 64) (i % 64)
unfolding test bit_in
test_lem words i = bit_and-pow (i % 64) (get_or words (i / 64) 0)

mask-lt : (w count : ℕ) → mask w count < 2 ^ w
unfolding mask
mask-lt w count = ground (arith, two_pow_suc w, two_pow_lt count w)

pub bit_at-mask_from : (first o : ℕ) → o < 64 → bit_at (mask_from first) o ≡ leb (first % 64) o
unfolding mask_from
bit_at-mask_from first o h =
    bit_at-complement o 64 (mask 64 (first % 64)) (mask-lt 64 (first % 64)) h
    ∙ ground (arith, bit_at-mask_lem 64 (first % 64) o h)

pub bit_at-mask_upto : (last o : ℕ) → o < 64 → bit_at (mask_upto last) o ≡ leb o (last % 64)
unfolding mask_upto
bit_at-mask_upto last o h = ground (arith, bit_at-mask_lem 64 (last % 64 + 1) o h)

pub last_of_lem :
    (first count : ℕ) → 0 < count → first + count ≤ 2 ^ 64 → last_of first count ≡ first + count - 1
last_of_lem first count h k = omega arith

pub mask_from-lt : (first : ℕ) → mask_from first < 2 ^ 64
unfolding mask_from
mask_from-lt first = omega arith

pub mask_upto-lt : (last : ℕ) → mask_upto last < 2 ^ 64
unfolding mask_upto
mask_upto-lt last = mask-lt 64 (last % 64 + 1)
