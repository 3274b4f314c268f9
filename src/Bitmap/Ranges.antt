-- ===== src/Bitmap/Ranges.antt =====
-- Writing a range of a bitmap: which bits change, and that every word still fits.
use doom_os.Base.{
  ℕ, zero, suc, ◌+◌, ◌-◌, ◌*◌, ◌/◌, ◌%◌, ◌^◌, ◌≤◌, ◌<◌, ◌≡◌, ◌≢◌, refl, ◌∙◌, Bool, true, false,
  ◌&&◌, bit_and, bit_or, ltb, leb, ◌==◌, get_or, set, length, if◌then◌else◌, arith, length-set,
  get_or-set_self, get_or-set_ne, Bool-cases, inl, inr,
}
use doom_os.Bits.{complement}
use doom_os.Bits.Words.{two_pow_lt}
use doom_os.Bits.Positions.{
  bit_at, bit_at-bit_and, bit_at-bit_or, bit_at-complement, bit_at-mask, bit_at-pow, bit_at-zero,
  bit_and-lt, bit_or-lt,
}
use doom_os.Bitmap.{
  Bitmap, test, apply, apply_word, assign_words, mask_from, mask_upto, last_of, word_max,
  apply_through, set_bit, clear_bit, assign, set_range, clear_range,
}
use doom_os.Bitmap.Scan.{
  Fits, bit_in, test_lem, bit_at-mask_from, bit_at-mask_upto, mask_from-lt, mask_upto-lt,
  last_of_lem,
}

-- A write of one word, read back at any word.
get_or-set :
    (words : Bitmap) (word j v : ℕ)
    → word < length words
    → get_or (set words word v) j 0 ≡ (if word == j then v else get_or words j 0)
get_or-set words word j v h = elim (Bool-cases (word == j)) [
  | inl same ↦
      let e : word ≡ j = ground arith in rw same (ground (arith, get_or-set_self words word v 0 h))
  | inr other ↦ let ne : word ≢ j = ground arith in rw other (get_or-set_ne words word j v 0 ne)
]

pub length-apply_word :
    (words : Bitmap) (word selected : ℕ) (value : Bool)
    → length (apply_word words word selected value) ≡ length words
unfolding apply_word
length-apply_word words word selected value = length-set words word _

-- `apply_word` gives the selected bits of one word the value, and keeps all others.
pub bit_in-apply_word :
    (words : Bitmap) (word selected : ℕ) (value : Bool) (j o : ℕ)
    → Fits words
    → selected < 2 ^ 64
    → word < length words
    → o < 64
    → bit_in (apply_word words word selected value) j o
      ≡ (if (word == j) && bit_at selected o then value else bit_in words j o)
unfolding apply_word bit_in
bit_in-apply_word words word selected value j o fits s h k = ground (
  arith,
  get_or-set words word j
      (if value
        then bit_or (get_or words word 0) selected
        else bit_and (get_or words word 0) (complement 64 selected))
      h,
  bit_at-bit_or o (get_or words word 0) selected,
  bit_at-bit_and o (get_or words word 0) (complement 64 selected),
  bit_at-complement o 64 selected s k,
)

pub apply_word-Fits :
    (words : Bitmap) (word selected : ℕ) (value : Bool)
    → Fits words
    → selected < 2 ^ 64
    → word < length words
    → Fits (apply_word words word selected value)
unfolding apply_word
apply_word-Fits words word selected value fits s h j = ground (
  arith,
  get_or-set words word j
      (if value
        then bit_or (get_or words word 0) selected
        else bit_and (get_or words word 0) (complement 64 selected))
      h,
  bit_or-lt 64 (get_or words word 0) selected (fits word) s,
  bit_and-lt 64 (get_or words word 0) (complement 64 selected) (fits word),
  fits j,
)

pub length-assign_words :
    (words : Bitmap) (word n : ℕ) (value : Bool)
    → length (assign_words words word n value) ≡ length words
unfolding assign_words
length-assign_words words word zero value = refl
length-assign_words words word (suc n) value =
    length-assign_words (set words word _) (word + 1) n value ∙ length-set words word _

get_or-assign_words :
    (words : Bitmap) (word n : ℕ) (value : Bool) (j : ℕ)
    → word + n ≤ length words
    → get_or (assign_words words word n value) j 0 ≡ (
        if leb word j && ltb j (word + n)
        then (if value then word_max else 0)
        else get_or words j 0)
unfolding assign_words
get_or-assign_words words word zero value j h = ground arith
get_or-assign_words words word (suc n) value j h =
    let v : ℕ = if value then word_max else 0 in
    ground (
      arith,
      get_or-assign_words (set words word v) (word + 1) n value j
          (omega (arith, length-set words word v)),
      get_or-set words word j v (omega arith),
    )

bit_in-assign_words :
    (words : Bitmap) (word n : ℕ) (value : Bool) (j o : ℕ)
    → word + n ≤ length words
    → o < 64
    → bit_in (assign_words words word n value) j o
      ≡ (if leb word j && ltb j (word + n) then value else bit_in words j o)
unfolding bit_in
bit_in-assign_words words word n value j o h k =
    ground (arith, get_or-assign_words words word n value j h, bit_at-mask o 64, bit_at-zero o)

assign_words-Fits :
    (words : Bitmap) (word n : ℕ) (value : Bool)
    → Fits words
    → word + n ≤ length words
    → Fits (assign_words words word n value)
assign_words-Fits words word n value fits h j =
    ground (arith, get_or-assign_words words word n value j h, fits j)

-- `apply_through` in one word.
one_word :
    (words : Bitmap) (first last : ℕ) (value : Bool) (j o : ℕ)
    → Fits words
    → first ≤ last
    → last < 64 * length words
    → o < 64
    → first / 64 ≡ last / 64
    → bit_in (apply_word words (first / 64) (bit_and (mask_from first) (mask_upto last)) value) j o
      ≡ (if leb first (j * 64 + o) && leb (j * 64 + o) last then value else bit_in words j o)
one_word words first last value j o fits h k l e = ground (
  arith,
  bit_in-apply_word words (first / 64) (bit_and (mask_from first) (mask_upto last)) value j o fits
      (bit_and-lt 64 (mask_from first) (mask_upto last) (mask_from-lt first)) (omega arith) l,
  bit_at-bit_and o (mask_from first) (mask_upto last),
  bit_at-mask_from first o l,
  bit_at-mask_upto last o l,
)

module _ (words : Bitmap) (first last : ℕ) (value : Bool) where
  low_words : Bitmap
  low_words = apply_word words (first / 64) (mask_from first) value

  middle_words : Bitmap
  middle_words = assign_words low_words (first / 64 + 1) (last / 64 - (first / 64 + 1)) value

  length-middle_words : length middle_words ≡ length words
  unfolding middle_words low_words
  length-middle_words =
      length-assign_words (apply_word words (first / 64) (mask_from first) value) _ _ value
      ∙ length-apply_word words (first / 64) (mask_from first) value

  length-apply_through : length (apply_through words first last value) ≡ length words
  unfolding apply_through middle_words low_words
  length-apply_through = elim (Bool-cases (first / 64 == last / 64)) [
    | inl same ↦ rw same (length-apply_word words (first / 64) _ value)
    | inr other ↦
        rw other (length-apply_word middle_words (last / 64) _ value ∙ length-middle_words)
  ]

  module _ (fits : Fits words) (order : first ≤ last) (inside : last < 64 * length words) where
    low_words-Fits : Fits low_words
    unfolding low_words
    low_words-Fits =
        apply_word-Fits words (first / 64) (mask_from first) value fits (mask_from-lt first)
          (omega arith)

    bit_in-low_words :
        (j o : ℕ)
        → o < 64
        → bit_in low_words j o
          ≡ (if (first / 64 == j) && leb (first % 64) o then value else bit_in words j o)
    unfolding low_words
    bit_in-low_words j o l = ground (
      arith,
      bit_in-apply_word words (first / 64) (mask_from first) value j o fits (mask_from-lt first)
          (omega arith) l,
      bit_at-mask_from first o l,
    )

    module _ (apart : first / 64 < last / 64) where
      room : first / 64 + 1 + (last / 64 - (first / 64 + 1)) ≤ length low_words
      unfolding low_words
      room = omega (arith, length-apply_word words (first / 64) (mask_from first) value)

      middle_words-Fits : Fits middle_words
      unfolding middle_words
      middle_words-Fits = assign_words-Fits low_words (first / 64 + 1) _ value low_words-Fits room

      several_words :
          (j o : ℕ)
          → o < 64
          → bit_in (apply_word middle_words (last / 64) (mask_upto last) value) j o
            ≡ (if leb first (j * 64 + o) && leb (j * 64 + o) last then value else bit_in words j o)
      unfolding middle_words
      several_words j o l = ground (
        arith,
        bit_in-apply_word middle_words (last / 64) (mask_upto last) value j o middle_words-Fits
            (mask_upto-lt last) (omega (arith, length-middle_words)) l,
        bit_at-mask_upto last o l,
        bit_in-assign_words low_words (first / 64 + 1) (last / 64 - (first / 64 + 1)) value j o room
            l,
        bit_in-low_words j o l,
      )

    bit_in-apply_through :
        (j o : ℕ)
        → o < 64
        → bit_in (apply_through words first last value) j o
          ≡ (if leb first (j * 64 + o) && leb (j * 64 + o) last then value else bit_in words j o)
    unfolding apply_through middle_words low_words
    bit_in-apply_through j o l = elim (Bool-cases (first / 64 == last / 64)) [
      | inl same ↦ rw same (one_word words first last value j o fits order inside l (ground arith))
      | inr other ↦ rw other (several_words (ground arith) j o l)
    ]

    apply_through-Fits : Fits (apply_through words first last value)
    unfolding apply_through middle_words low_words
    apply_through-Fits = elim (Bool-cases (first / 64 == last / 64)) [
      | inl same ↦ rw same (
          apply_word-Fits words (first / 64) (bit_and (mask_from first) (mask_upto last)) value fits
            (bit_and-lt 64 (mask_from first) (mask_upto last) (mask_from-lt first)) (omega arith))
      | inr other ↦ rw other (
          apply_word-Fits middle_words (last / 64) (mask_upto last) value
            (middle_words-Fits (ground arith)) (mask_upto-lt last)
            (omega (arith, length-middle_words)))
    ]

-- `set(first, count)` and `clear(first, count)` through `apply`.
module _ (words : Bitmap) (first count : ℕ) (value : Bool) where
  pub length-apply : length (apply words first count value) ≡ length words
  unfolding apply
  length-apply = elim (Bool-cases (count == 0)) [
    | inl nothing ↦ rw nothing
    | inr some_bits ↦ rw some_bits (length-apply_through words first _ value)
  ]

  module _ (fits : Fits words) (inside : first + count ≤ 64 * length words)
      (small : 64 * length words < 2 ^ 64) where
    -- In a bitmap of words that fit 64 bits, with fewer than 2 ^ 64 bits, `set` and `clear` of a
    -- range inside it give exactly the bits of the range the value and keep every other bit.
    pub test-apply :
        (i : ℕ)
        → test (apply words first count value) i
          ≡ (if leb first i && ltb i (first + count) then value else test words i)
    unfolding apply
    test-apply i = elim (Bool-cases (count == 0)) [
      | inl nothing ↦ rw nothing (ground arith)
      | inr some_bits ↦
          let last : ℕ = last_of first count in
          let e : last ≡ first + count - 1 = last_of_lem first count (ground arith) (omega arith) in
          let i' : i / 64 * 64 + i % 64 ≡ i = omega arith in
          rw
            (
              some_bits,
              test_lem (apply_through words first last value) i,
              bit_in-apply_through words first last value fits (ground arith) (ground arith)
                  (i / 64) (i % 64) (omega arith),
              i',
              ← test_lem words i,
            )
            (ground arith)
    ]

    pub apply-Fits : Fits (apply words first count value)
    unfolding apply
    apply-Fits = elim (Bool-cases (count == 0)) [
      | inl nothing ↦ rw nothing fits
      | inr some_bits ↦
          let e : last_of first count ≡ first + count - 1 =
            last_of_lem first count (ground arith) (omega arith) in
          rw some_bits (apply_through-Fits words first _ value fits (ground arith) (ground arith))
    ]

-- `assign(index, value)`, `set(index)` and `clear(index)` write that bit alone.
assign-apply_word :
    (words : Bitmap) (index : ℕ) (value : Bool)
    → assign words index value ≡ apply_word words (index / 64) (2 ^ (index % 64)) value
unfolding assign set_bit clear_bit apply_word
assign-apply_word words index true = refl
assign-apply_word words index false = refl

module _ (words : Bitmap) (index : ℕ) (value : Bool) (fits : Fits words)
    (inside : index < 64 * length words) where
  power : 2 ^ (index % 64) < 2 ^ 64
  power = two_pow_lt (index % 64) 64 (omega arith)

  pub test-assign :
      (i : ℕ) → test (assign words index value) i ≡ (if index == i then value else test words i)
  test-assign i =
      rw
        (
          assign-apply_word words index value,
          test_lem (apply_word words (index / 64) (2 ^ (index % 64)) value) i,
          bit_in-apply_word words (index / 64) (2 ^ (index % 64)) value (i / 64) (i % 64) fits power
              (omega arith) (omega arith),
          bit_at-pow (i % 64) (index % 64),
          test_lem words i,
        )
        (ground arith)

  pub assign-Fits : Fits (assign words index value)
  assign-Fits =
      rw (assign-apply_word words index value)
        (apply_word-Fits words (index / 64) (2 ^ (index % 64)) value fits power (omega arith))

  pub length-assign : length (assign words index value) ≡ length words
  length-assign =
      rw (assign-apply_word words index value)
        (length-apply_word words (index / 64) (2 ^ (index % 64)) value)

pub clear_bit-assign :
    (words : Bitmap) (index : ℕ) → clear_bit words index ≡ assign words index false
unfolding assign
clear_bit-assign words index = refl

-- The two public range operations.
pub set_range-apply :
    (words : Bitmap) (first count : ℕ) → set_range words first count ≡ apply words first count true
unfolding set_range
set_range-apply words first count = refl

pub clear_range-apply :
    (words : Bitmap) (first count : ℕ)
    → clear_range words first count ≡ apply words first count false
unfolding clear_range
clear_range-apply words first count = refl
