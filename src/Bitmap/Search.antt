-- ===== src/Bitmap/Search.antt =====
-- Searching a bitmap for its first set bit.
use mathlib.Core.Option
use mathlib.Core.Path.{subst, subst₂}
use doom_os.Base.{
  ℕ, zero, suc, ◌+◌, ◌-◌, ◌*◌, ◌/◌, ◌%◌, ◌^◌, ◌≤◌, ◌<◌, ◌≡◌, ◌≢◌, refl, ◌∙◌, ◌⊎◌, inl, inr, Bool,
  true, false, ◌&&◌, Option, none, some, bit_and, ltb, leb, ◌==◌, ◌!=◌, get_or, arith, Bool-cases,
}
use doom_os.Bits.Positions.{bit_at, bit_at-bit_and, bit_at-zero, bit_and-lt, two_pow_suc}
use doom_os.Bitmap.{
  Bitmap, test, countr_zero, first_in, or_else, first_in_words, find_set, search_through,
  search_range, find_set_in, npos, last_of, mask_from, mask_upto,
}
use doom_os.Bitmap.Scan.{Fits, bit_in, test_lem, bit_at-mask_from, bit_at-mask_upto, last_of_lem}

-- The outcome of looking for the first index of a half-open range at which `p` holds.
abbrev pub Finds : (ℕ → Bool) → ℕ → ℕ → Option ℕ → Type 0
Finds p from to none = (i : ℕ) → from ≤ i → i < to → p i ≡ false
Finds p from to (some r) =
    (from ≤ r) × (r < to) × (p r ≡ true) × ((i : ℕ) → from ≤ i → i < r → p i ≡ false)

-- Searches of adjacent ranges, one after the other.
or_else-Finds :
    (p : ℕ → Bool) (from mid to : ℕ) (o o' : Option ℕ)
    → from ≤ mid
    → mid ≤ to
    → Finds p from mid o
    → Finds p mid to o'
    → Finds p from to (or_else o o')
or_else-Finds p from mid to none none h k f g = λ i a b. elim (Bool-cases (ltb i mid)) [
  | inl low ↦ f i a (ground arith)
  | inr high ↦ g i (ground arith) b
]
or_else-Finds p from mid to none (some r) h k f g = (
  omega arith,
  g.1,
  g.2,
  λ i a b. elim (Bool-cases (ltb i mid)) [
    | inl low ↦ f i a (ground arith)
    | inr high ↦ g.3 i (ground arith) b
  ],
)
or_else-Finds p from mid to (some r) o' h k f g = (f.0, omega arith, f.2, f.3)

-- `countr_zero` of a nonzero word is the position of its lowest set bit.
countr_zero-Finds : (w x : ℕ) → x < 2 ^ w → x ≢ 0 → Finds (bit_at x) 0 w (some (countr_zero w x))
unfolding countr_zero bit_at
countr_zero-Finds zero x h ne = absurd (ne (omega arith))
countr_zero-Finds (suc w) x h ne = elim (Bool-cases (x % 2 == 1)) [
  | inl odd ↦ rw (odd, countr_zero) (omega arith, omega arith, odd, λ i a b. absurd (omega arith))
  | inr even ↦
      let ih =
        countr_zero-Finds w (x / 2) (omega (arith, two_pow_suc w)) (λ e. ne (ground arith)) in
      rw (even, countr_zero) (omega arith, omega (arith, ih.1), ih.2, below even ih)
]
  where
    below :
        (x % 2 == 1) ≡ false
        → Finds (bit_at (x / 2)) 0 w (some (countr_zero w (x / 2)))
        → (i : ℕ) → 0 ≤ i
        → i < suc (countr_zero w (x / 2))
        → bit_at x i ≡ false
    below even ih zero a b = even
    below even ih (suc i) a b = ih.3 i (omega arith) (omega arith)

test_in_word :
    (words : Bitmap) (word i : ℕ)
    → word * 64 ≤ i
    → i < word * 64 + 64
    → test words i ≡ bit_in words word (i - word * 64)
test_in_word words word i h k =
    let high : i / 64 ≡ word = omega arith in
    let low : i % 64 ≡ i - word * 64 = omega arith in rw (test_lem words i, high, low)

-- A word of which only the bits at offsets from `a` on, below `b`, are selected.
module _ (words : Bitmap) (word selected a b : ℕ) (fits : selected < 2 ^ 64) (hb : b ≤ 64)
    (sel : (o : ℕ)
      → o < 64
      → bit_at selected o ≡ (bit_in words word o && (leb a o && ltb o b))) where
  none_selected : selected ≡ 0 → Finds (test words) (word * 64 + a) (word * 64 + b) none
  none_selected e i h k =
      let o : ℕ = i - word * 64 in
      let s : bit_at selected o ≡ (bit_in words word o && (leb a o && ltb o b)) =
        sel o (omega arith) in
      let z : bit_at selected o ≡ false = rw e (bit_at-zero o) in
      test_in_word words word i (omega arith) (omega arith) ∙ ground arith

  some_selected :
      selected ≢ 0
      → Finds
          (test words)
          (word * 64 + a)
          (word * 64 + b)
          (some (word * 64 + countr_zero 64 selected))
  some_selected ne =
      let c : ℕ = countr_zero 64 selected in
      let (low, high, hit, first) = countr_zero-Finds 64 selected fits ne in
      let s : bit_at selected c ≡ (bit_in words word c && (leb a c && ltb c b)) = sel c high in
      let e : word * 64 + c - word * 64 ≡ c = omega arith in
      (
        ground arith,
        ground arith,
        test_in_word words word (word * 64 + c) (omega arith) (omega arith) ∙ rw e (ground arith),
        λ i h k.
            let o : ℕ = i - word * 64 in
            let so : bit_at selected o ≡ (bit_in words word o && (leb a o && ltb o b)) =
              sel o (omega arith) in
            let z : bit_at selected o ≡ false = first o (omega arith) (omega arith) in
            let in_range : c < b = ground arith in
            test_in_word words word i (omega arith) (omega arith) ∙ ground arith,
      )

  first_in-Finds : Finds (test words) (word * 64 + a) (word * 64 + b) (first_in word selected)
  unfolding first_in
  first_in-Finds = elim (Bool-cases (selected != 0)) [
    | inl nonzero ↦ rw nonzero (some_selected (λ e. ground arith))
    | inr zeros ↦ rw zeros (none_selected (ground arith))
  ]

full_word :
    (words : Bitmap) (word o : ℕ)
    → o < 64
    → bit_at (get_or words word 0) o ≡ (bit_in words word o && (leb 0 o && ltb o 64))
unfolding bit_in
full_word words word o h = ground arith

full_word-Finds :
    (words : Bitmap) (word : ℕ)
    → Fits words
    → Finds (test words) (word * 64) (word * 64 + 64) (first_in word (get_or words word 0))
full_word-Finds words word fits =
    subst (λ from. Finds (test words) from (word * 64 + 64) (first_in word (get_or words word 0)))
      {x = word * 64 + 0} {y = word * 64} (omega arith)
      (first_in-Finds words word _ 0 64 (fits word) (omega arith) (full_word words word))

first_in_words-Finds :
    (words : Bitmap) (word n : ℕ)
    → Fits words
    → Finds (test words) (word * 64) ((word + n) * 64) (first_in_words words word n)
unfolding first_in_words
first_in_words-Finds words word zero fits = λ i h k. absurd (omega arith)
first_in_words-Finds words word (suc n) fits =
    or_else-Finds (test words) (word * 64) (word * 64 + 64) ((word + suc n) * 64)
      (first_in word (get_or words word 0)) (first_in_words words (word + 1) n) (omega arith)
      (omega arith) (full_word-Finds words word fits)
      (let e : (word + suc n) * 64 ≡ (word + 1 + n) * 64 = omega arith in
        let m : word * 64 + 64 ≡ (word + 1) * 64 = omega arith in
        rw (e, m) (first_in_words-Finds words (word + 1) n fits))

-- The words that `find_set_in` looks at, each by the offsets that its mask selects.
module _ (words : Bitmap) (first last : ℕ) (fits : Fits words) (order : first ≤ last) where
  low_bits :
      (o : ℕ)
      → o < 64
      → bit_at (bit_and (get_or words (first / 64) 0) (mask_from first)) o
        ≡ (bit_in words (first / 64) o && (leb (first % 64) o && ltb o 64))
  low_bits o l = ground (
    arith,
    bit_at-bit_and o (get_or words (first / 64) 0) (mask_from first),
    bit_at-mask_from first o l,
    full_word words (first / 64) o l,
  )

  high_bits :
      (o : ℕ)
      → o < 64
      → bit_at (bit_and (get_or words (last / 64) 0) (mask_upto last)) o
        ≡ (bit_in words (last / 64) o && (leb 0 o && ltb o (suc (last % 64))))
  high_bits o l = ground (
    arith,
    bit_at-bit_and o (get_or words (last / 64) 0) (mask_upto last),
    bit_at-mask_upto last o l,
    full_word words (last / 64) o l,
  )

  both_bits :
      (o : ℕ)
      → o < 64
      → bit_at
          (bit_and (bit_and (get_or words (first / 64) 0) (mask_from first)) (mask_upto last))
          o
        ≡ (bit_in words (first / 64) o && (leb (first % 64) o && ltb o (suc (last % 64))))
  both_bits o l = ground (
    arith,
    bit_at-bit_and o (bit_and (get_or words (first / 64) 0) (mask_from first)) (mask_upto last),
    bit_at-mask_upto last o l,
    low_bits o l,
  )

  low_lt : bit_and (get_or words (first / 64) 0) (mask_from first) < 2 ^ 64
  low_lt = bit_and-lt 64 _ _ (fits (first / 64))

  low_start : first / 64 * 64 + first % 64 ≡ first
  low_start = omega arith

  high_end : last / 64 * 64 + suc (last % 64) ≡ suc last
  high_end = omega arith

  search_one_word :
      first / 64 ≡ last / 64
      → Finds (test words) first (suc last) (
          first_in
            (first / 64)
            (bit_and (bit_and (get_or words (first / 64) 0) (mask_from first)) (mask_upto last)))
  search_one_word e =
      let up : first / 64 * 64 + suc (last % 64) ≡ suc last = omega arith in
      subst₂
        (λ from to. Finds (test words) from to (
          first_in (first / 64)
            (bit_and (bit_and (get_or words (first / 64) 0) (mask_from first)) (mask_upto last))))
        low_start up
        (first_in-Finds words (first / 64) _ (first % 64) (suc (last % 64))
          (bit_and-lt 64 _ _ low_lt) (omega arith) both_bits)

  search_low :
      Finds
        (test words)
        first
        (first / 64 * 64 + 64)
        (first_in (first / 64) (bit_and (get_or words (first / 64) 0) (mask_from first)))
  search_low =
      subst
        (λ from.
          Finds (test words) from (first / 64 * 64 + 64)
            (first_in (first / 64) (bit_and (get_or words (first / 64) 0) (mask_from first))))
        low_start
        (first_in-Finds words (first / 64) _ (first % 64) 64 low_lt (omega arith) low_bits)

  search_high :
      Finds
        (test words)
        (last / 64 * 64)
        (suc last)
        (first_in (last / 64) (bit_and (get_or words (last / 64) 0) (mask_upto last)))
  search_high =
      let start : last / 64 * 64 + 0 ≡ last / 64 * 64 = omega arith in
      subst₂
        (λ from to.
          Finds (test words) from to
            (first_in (last / 64) (bit_and (get_or words (last / 64) 0) (mask_upto last))))
        start high_end
        (first_in-Finds words (last / 64) _ 0 (suc (last % 64))
          (bit_and-lt 64 _ _ (fits (last / 64))) (omega arith) high_bits)

  search_middle :
      first / 64 < last / 64
      → Finds
          (test words)
          (first / 64 * 64 + 64)
          (last / 64 * 64)
          (first_in_words words (first / 64 + 1) (last / 64 - (first / 64 + 1)))
  search_middle apart =
      let from : (first / 64 + 1) * 64 ≡ first / 64 * 64 + 64 = omega arith in
      let to : (first / 64 + 1 + (last / 64 - (first / 64 + 1))) * 64 ≡ last / 64 * 64 =
        omega arith in
      subst₂
        (λ a b.
          Finds (test words) a b
            (first_in_words words (first / 64 + 1) (last / 64 - (first / 64 + 1))))
        from to (first_in_words-Finds words (first / 64 + 1) (last / 64 - (first / 64 + 1)) fits)

  search_through-Finds : Finds (test words) first (suc last) (search_through words first last)
  unfolding search_through
  search_through-Finds = elim (Bool-cases (first / 64 == last / 64)) [
    | inl same ↦ rw same (search_one_word (ground arith))
    | inr other ↦
        let apart : first / 64 < last / 64 = ground arith in
        rw other (
          or_else-Finds (test words) first (first / 64 * 64 + 64) (suc last) _ _ (omega arith)
            (omega arith) search_low
            (or_else-Finds (test words) (first / 64 * 64 + 64) (last / 64 * 64) (suc last) _ _
              (omega arith) (omega arith) (search_middle apart) search_high))
  ]

search_range-Finds :
    (words : Bitmap) (first count : ℕ)
    → Fits words
    → first + count < 2 ^ 64
    → Finds (test words) first (first + count) (search_range words first count)
unfolding search_range
search_range-Finds words first count fits small = elim (Bool-cases (count == 0)) [
  | inl nothing ↦ rw nothing (λ i h k. absurd (ground arith))
  | inr some_bits ↦
      let e : last_of first count ≡ first + count - 1 =
        last_of_lem first count (ground arith) (omega arith) in
      let e' : suc (first + count - 1) ≡ first + count = ground arith in
      rw (some_bits, e)
        (subst (λ to. Finds (test words) first to (search_through words first (first + count - 1)))
          e' (search_through-Finds words first (first + count - 1) fits (ground arith)))
]

-- What `find_set_in` and `find_set` answer: the first set index of the range, or `NPOS` if there
-- is none.
abbrev pub FindsSet : Bitmap → ℕ → ℕ → ℕ → Type 0
FindsSet words from to r =
    ((r ≡ npos) × ((i : ℕ) → from ≤ i → i < to → test words i ≡ false))
    ⊎ ((from ≤ r)
        × (r < to)
        × (test words r ≡ true)
        × ((i : ℕ) → from ≤ i → i < r → test words i ≡ false))

FindsSet-of :
    (words : Bitmap) (from to : ℕ) (o : Option ℕ)
    → Finds (test words) from to o
    → FindsSet words from to (Option.get_or o npos)
FindsSet-of words from to none f = inl (refl, f)
FindsSet-of words from to (some r) f = inr f

-- In a bitmap of words that fit 64 bits, for a range that ends below 2 ^ 64, `find_set_in` returns
-- the lowest set index of the range, or `NPOS`, when none is set.
pub find_set_in-FindsSet :
    (words : Bitmap) (first count : ℕ)
    → Fits words
    → first + count < 2 ^ 64
    → FindsSet words first (first + count) (find_set_in words first count)
unfolding find_set_in
find_set_in-FindsSet words first count fits small =
    FindsSet-of words first (first + count) _ (search_range-Finds words first count fits small)

-- `find_set` does so for a range of whole words.
pub find_set-FindsSet :
    (words : Bitmap) (first_word n : ℕ)
    → Fits words
    → FindsSet words (first_word * 64) ((first_word + n) * 64) (find_set words first_word n)
unfolding find_set
find_set-FindsSet words first_word n fits =
    FindsSet-of words _ _ _ (first_in_words-Finds words first_word n fits)
