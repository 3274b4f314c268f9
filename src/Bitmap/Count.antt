-- ===== src/Bitmap/Count.antt =====
-- Counting the set bits of a bitmap.
use doom_os.Base.{
  ℕ, zero, suc, ◌+◌, ◌*◌, ◌/◌, ◌%◌, ◌≤◌, ◌<◌, ◌≡◌, refl, sym, Bool, true, false, ◌&&◌, ◌==◌, get_or,
  not, if◌then◌else◌, arith, Bool-cases, inl, inr,
}
use doom_os.Bits.Positions.{bit_at}
use doom_os.Bitmap.{Bitmap, test, popcount, count_set}
use doom_os.Bitmap.Scan.{bit_in, test_lem}

-- The number of indices at which `p` holds, among the `n` from `from` on.
unfoldable pub count_where : (ℕ → Bool) → ℕ → ℕ → ℕ
count_where p from zero = 0
count_where p from (suc n) = (if p from then 1 else 0) + count_where p (from + 1) n

pub count_where_none : (p : ℕ → Bool) (from : ℕ) → count_where p from 0 ≡ 0
unfolding count_where
count_where_none p from = refl

pub count_where-append :
    (p : ℕ → Bool) (from n m : ℕ)
    → count_where p from (n + m) ≡ count_where p from n + count_where p (from + n) m
unfolding count_where
count_where-append p from zero m =
    let e : 0 + m ≡ m = omega arith in
    let z : from + 0 ≡ from = omega arith in rw (e, z) (omega arith)
count_where-append p from (suc n) m =
    let e : suc n + m ≡ suc (n + m) = omega arith in
    let z : from + suc n ≡ from + 1 + n = omega arith in
    rw (e, z) (omega (arith, count_where-append p (from + 1) n m))

pub count_where_ext :
    (p q : ℕ → Bool) (a b n : ℕ)
    → ((o : ℕ) → o < n → p (a + o) ≡ q (b + o))
    → count_where p a n ≡ count_where q b n
unfolding count_where
count_where_ext p q a b zero h = refl
count_where_ext p q a b (suc n) h =
    let e : a + 0 ≡ a = omega arith in
    let e' : b + 0 ≡ b = omega arith in
    let first : p a ≡ q b = rw (e, e') at (h 0 (omega arith)) in
    let rest = count_where_ext p q (a + 1) (b + 1) n (λ o l.
      let f : a + 1 + o ≡ a + suc o = omega arith in
      let f' : b + 1 + o ≡ b + suc o = omega arith in rw (f, f') (h (suc o) (omega arith))) in
    ground (arith, first, rest)

popcount_lem : (w x : ℕ) → popcount w x ≡ count_where (bit_at x) 0 w
unfolding popcount count_where bit_at
popcount_lem zero x = refl
popcount_lem (suc w) x =
    let rest : count_where (bit_at (x / 2)) 0 w ≡ count_where (bit_at x) 1 w =
      count_where_ext (bit_at (x / 2)) (bit_at x) 0 1 w (λ o l.
        let e : 0 + o ≡ o = omega arith in let e' : 1 + o ≡ suc o = omega arith in rw (e, e')) in
    ground (arith, rest, popcount_lem w (x / 2))

-- `count_set` over a range of whole words is the number of their indices that test as set.
pub count_set_lem :
    (words : Bitmap) (word n : ℕ)
    → count_set words word n ≡ count_where (test words) (word * 64) (n * 64)
unfolding count_set bit_in
count_set_lem words word zero = sym (count_where_none (test words) (word * 64))
count_set_lem words word (suc n) =
    let one : count_where (bit_at (get_or words word 0)) 0 64
        ≡ count_where (test words) (word * 64) 64 =
      count_where_ext (bit_at (get_or words word 0)) (test words) 0 (word * 64) 64 (λ o l.
        let high : (word * 64 + o) / 64 ≡ word = omega arith in
        let low : (word * 64 + o) % 64 ≡ 0 + o = omega arith in
        rw (test_lem words (word * 64 + o), high, low)) in
    let next : (word + 1) * 64 ≡ word * 64 + 64 = omega arith in
    let rounds : suc n * 64 ≡ 64 + n * 64 = omega arith in
    rw (rounds, count_where-append (test words) (word * 64) 64 (n * 64), ← next)
      (omega (arith, one, popcount_lem 64 (get_or words word 0), count_set_lem words (word + 1) n))

-- Counts of a range that is clear, or all set.
pub count_where-false :
    (p : ℕ → Bool) (from n : ℕ)
    → ((i : ℕ) → from ≤ i → i < from + n → p i ≡ false)
    → count_where p from n ≡ 0
unfolding count_where
count_where-false p from zero h = refl
count_where-false p from (suc n) h =
    ground
      (arith, h from, count_where-false p (from + 1) n (λ i a b. h i (omega arith) (omega arith)))

pub count_where-true :
    (p : ℕ → Bool) (from n : ℕ)
    → ((i : ℕ) → from ≤ i → i < from + n → p i ≡ true)
    → count_where p from n ≡ n
unfolding count_where
count_where-true p from zero h = refl
count_where-true p from (suc n) h =
    ground
      (arith, h from, count_where-true p (from + 1) n (λ i a b. h i (omega arith) (omega arith)))

pub count_where_le : (p : ℕ → Bool) (from n : ℕ) → count_where p from n ≤ n
unfolding count_where
count_where_le p from zero = omega arith
count_where_le p from (suc n) = ground (arith, count_where_le p (from + 1) n)

-- A count of zero, and a full count, say what each index holds.
pub all_false :
    (p : ℕ → Bool) (from n i : ℕ) → count_where p from n ≡ 0 → from ≤ i → i < from + n → p i ≡ false
unfolding count_where
all_false p from zero i e a b = absurd (omega arith)
all_false p from (suc n) i e a b = elim (Bool-cases (from == i)) [
  | inl here ↦ let at : from ≡ i = ground arith in rw (← at) (ground arith)
  | inr later ↦ all_false p (from + 1) n i (ground arith) (ground arith) (omega arith)
]

pub all_true :
    (p : ℕ → Bool) (from n i : ℕ) → count_where p from n ≡ n → from ≤ i → i < from + n → p i ≡ true
unfolding count_where
all_true p from zero i e a b = absurd (omega arith)
all_true p from (suc n) i e a b = elim (Bool-cases (from == i)) [
  | inl here ↦
      let at : from ≡ i = ground arith in rw (← at) (ground (arith, count_where_le p (from + 1) n))
  | inr later ↦
      all_true p (from + 1) n i (ground (arith, count_where_le p (from + 1) n)) (ground arith)
        (omega arith)
]

-- One index of the range changes.
pub count_where_drop :
    (p q : ℕ → Bool) (from n r : ℕ)
    → from ≤ r
    → r < from + n
    → p r ≡ true
    → ((i : ℕ) → q i ≡ (not (r == i) && p i))
    → count_where p from n ≡ suc (count_where q from n)
unfolding count_where
count_where_drop p q from zero r a b held same = absurd (omega arith)
count_where_drop p q from (suc n) r a b held same = elim (Bool-cases (r == from)) [
  | inl here ↦
      let at : r ≡ from = ground arith in
      let first : p from ≡ true = rw (← at) held in
      ground (
        arith,
        first,
        same from,
        count_where_ext p q (from + 1) (from + 1) n (λ o l. ground (arith, same (from + 1 + o))),
      )
  | inr later ↦
      ground (
        arith,
        same from,
        count_where_drop p q (from + 1) n r (ground arith) (omega arith) held same,
      )
]

pub count_where_same :
    (p q : ℕ → Bool) (from n : ℕ)
    → ((i : ℕ) → from ≤ i → i < from + n → p i ≡ q i)
    → count_where p from n ≡ count_where q from n
count_where_same p q from n h =
    count_where_ext p q from from n (λ o l. h (from + o) (omega arith) (omega arith))
