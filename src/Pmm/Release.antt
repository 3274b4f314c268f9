-- ===== src/Pmm/Release.antt =====
-- `pmm::free`: what it gives back, and when it panics.
use doom_os.Base.{
  ℕ, ◌+◌, ◌-◌, ◌*◌, ◌/◌, ◌%◌, ◌^◌, ◌≤◌, ◌<◌, ◌≡◌, inl, inr, refl, ◌∙◌, Bool, true, false, not, ◌&&◌,
  ◌||◌, ltb, leb, ◌==◌, ◌!=◌, if◌then◌else◌, arith, Bool-cases, length,
}
use doom_os.Bits.{is_aligned}
use doom_os.Bits.Align.{is_aligned_lem}
use doom_os.Bitmap.{test, set_range, find_set_in, npos}
use doom_os.Bitmap.Ranges.{test-apply, apply-Fits, length-apply, set_range-apply}
use doom_os.Bitmap.Search.{find_set_in-FindsSet}
use doom_os.Bitmap.Count.{count_where, count_where-true, count_where_drop, count_where_same}
use doom_os.Page.{PageSize, size_4k, size_2m, size_1g, frames_in, bytes_in}
use doom_os.Pmm.{
  Pmm, block, block_count, max_frames, set_free, set_free_all, address_of, Outcome, ok, err, panic,
  alloc, free,
}
use doom_os.Pmm.Moves.{IsLinked, SetsFree, set_free-SetsFree}
use doom_os.Pmm.Valid.{IsValid, SetsFreeAll, set_free_all-SetsFreeAll, frames-IsLinked, revalid}
use doom_os.Pmm.Take.{free-le}
use doom_os.Pmm.TakeBlocks.{alloc-Allocates}

-- A release that the allocator accepts: an aligned run of managed frames, none of them free.
pub record CanRelease (p : Pmm) (size : PageSize) (base : ℕ) : Type 0 where
  pub aligned : base % bytes_in size ≡ 0
  pub inside : base / 2 ^ 12 + frames_in size ≤ max_frames p
  pub taken :
      (i : ℕ) → base / 2 ^ 12 ≤ i → i < base / 2 ^ 12 + frames_in size → test p.frames i ≡ false

-- How a release ends: with exactly that run freed, or in a panic if it is not acceptable.
abbrev pub Releases : Pmm → PageSize → ℕ → Outcome (Unit {0}) → Type 0
Releases p size base (ok _ q) =
    CanRelease p size base
    × ((i : ℕ)
        → test q.frames i ≡ (
            if leb (base / 2 ^ 12) i && ltb i (base / 2 ^ 12 + frames_in size)
            then true
            else test p.frames i))
    × (block_count q ≡ block_count p)
    × IsValid q
Releases p size base (err e q) = ⊥
Releases p size base panic = ¬ CanRelease p size base

-- The bitmap with the run set, under either way to set the blocks' numbers.
module _ (p : Pmm) (v : IsValid p) (first count : ℕ) (inside : first + count ≤ max_frames p) where
  marked : Pmm
  marked = record p { frames = set_range p.frames first count }

  room : first + count ≤ 64 * length p.frames
  room = omega (arith, v.sized)

  words : 64 * length p.frames < 2 ^ 64
  words = omega (arith, v.sized, v.linked.small)

  test-marked :
      (i : ℕ)
      → test marked.frames i
        ≡ (if leb first i && ltb i (first + count) then true else test p.frames i)
  unfolding marked
  test-marked i =
      rw (set_range-apply p.frames first count)
        (test-apply p.frames first count true v.fits room words i)

  marked-IsValid :
      (q : Pmm)
      → IsLinked q
      → block_count q ≡ block_count p
      → q.frames ≡ marked.frames
      → ((i : ℕ) → i < block_count p → (block q i).free ≡ count_where (test q.frames) (i * 512) 512)
      → IsValid q
  unfolding marked
  marked-IsValid q l c f n =
      revalid q l
        (rw (f, c, set_range-apply p.frames first count)
          (length-apply p.frames first count true ∙ v.sized))
        (rw (f, set_range-apply p.frames first count)
          (apply-Fits p.frames first count true v.fits room words))
        (λ i h. n i (rw (← c) h))

-- One frame.
module _ (p : Pmm) (v : IsValid p) (first : ℕ) (inside : first + 1 ≤ max_frames p)
    (taken : test p.frames first ≡ false) where
  one : Pmm
  one = set_free (marked p v first 1 inside) (first / 512) ((block p (first / 512)).free + 1)

  one-SetsFree :
      SetsFree (marked p v first 1 inside) (first / 512) ((block p (first / 512)).free + 1) one
  unfolding one marked
  one-SetsFree =
      set_free-SetsFree (marked p v first 1 inside) (first / 512) ((block p (first / 512)).free + 1)
        (frames-IsLinked p (set_range p.frames first 1) v.linked) (omega arith)
        (omega (arith, free-le p v (first / 512) (omega arith)))

  test-one :
      (i : ℕ)
      → test one.frames i ≡ (if leb first i && ltb i (first + 1) then true else test p.frames i)
  test-one i = rw one-SetsFree.frames (test-marked p v first 1 inside i)

  one-IsValid : IsValid one
  unfolding marked
  one-IsValid =
      marked-IsValid p v first 1 inside one one-SetsFree.linked one-SetsFree.count
        one-SetsFree.frames
        (λ i h. elim (Bool-cases (first / 512 == i)) [
          | inl here ↦
              let at : first / 512 ≡ i = ground arith in
              ground (
                arith,
                one-SetsFree.free_of i,
                v.counted i h,
                count_where_drop (test one.frames) (test p.frames) (i * 512) 512 first (omega arith)
                    (omega arith) (ground (arith, test-one first))
                    (λ j. ground (arith, test-one j)),
              )
          | inr elsewhere ↦ ground (
            arith,
            one-SetsFree.free_of i,
            v.counted i h,
            count_where_same (test p.frames) (test one.frames) (i * 512) 512
                (λ j a b. ground (arith, test-one j)),
          )
        ])

-- Whole blocks.
module _ (p : Pmm) (v : IsValid p) (index run : ℕ)
    (inside : index * 512 + run * 512 ≤ max_frames p) where
  many : Pmm
  many = set_free_all (marked p v (index * 512) (run * 512) inside) index run 512

  many-SetsFreeAll : SetsFreeAll (marked p v (index * 512) (run * 512) inside) index run 512 many
  unfolding many marked
  many-SetsFreeAll =
      set_free_all-SetsFreeAll (marked p v (index * 512) (run * 512) inside) index run 512
        (frames-IsLinked p (set_range p.frames (index * 512) (run * 512)) v.linked) (omega arith)
        (omega arith)

  test-many :
      (i : ℕ)
      → test many.frames i
        ≡ (if leb (index * 512) i && ltb i (index * 512 + run * 512) then true else test p.frames i)
  test-many i = rw many-SetsFreeAll.frames (test-marked p v (index * 512) (run * 512) inside i)

  many-IsValid : IsValid many
  unfolding marked
  many-IsValid =
      marked-IsValid p v (index * 512) (run * 512) inside many many-SetsFreeAll.linked
        many-SetsFreeAll.count many-SetsFreeAll.frames
        (λ i h. elim (Bool-cases (leb index i && ltb i (index + run))) [
          | inl here ↦ ground (
            arith,
            many-SetsFreeAll.free_of i,
            count_where-true (test many.frames) (i * 512) 512
                (λ j a b. ground (arith, test-many j)),
          )
          | inr elsewhere ↦ ground (
            arith,
            many-SetsFreeAll.free_of i,
            v.counted i h,
            count_where_same (test p.frames) (test many.frames) (i * 512) 512
                (λ j a b. ground (arith, test-many j)),
          )
        ])

-- The guards of `free`.
abbrev guarded : Pmm → PageSize → ℕ → Bool
guarded p size base =
    not (is_aligned 64 base (bytes_in size))
    || (leb (max_frames p) (base / 2 ^ 12) || ltb (max_frames p - base / 2 ^ 12) (frames_in size))

is_aligned-size :
    (size : PageSize) (base : ℕ) → is_aligned 64 base (bytes_in size) ≡ (base % bytes_in size == 0)
is_aligned-size size_4k base = is_aligned_lem 64 12 base (omega arith)
is_aligned-size size_2m base = is_aligned_lem 64 21 base (omega arith)
is_aligned-size size_1g base = is_aligned_lem 64 30 base (omega arith)

frames-pos : (size : PageSize) → 0 < frames_in size
frames-pos size_4k = omega arith
frames-pos size_2m = omega arith
frames-pos size_1g = omega arith

guarded-false :
    (p : Pmm) (size : PageSize) (base : ℕ)
    → guarded p size base ≡ false
    → (base % bytes_in size ≡ 0) × (base / 2 ^ 12 + frames_in size ≤ max_frames p)
guarded-false p size base e = ground (arith, is_aligned-size size base)

guarded-true :
    (p : Pmm) (size : PageSize) (base : ℕ) → guarded p size base ≡ true → ¬ CanRelease p size base
guarded-true p size base e c =
    ground (arith, is_aligned-size size base, frames-pos size, c.aligned, c.inside)

abbrev search : Pmm → PageSize → ℕ → Bool
search p size base = find_set_in p.frames (base / 2 ^ 12) (frames_in size) != npos

free_guarded :
    (p : Pmm) (size : PageSize) (base : ℕ) → guarded p size base ≡ true → free p size base ≡ panic
unfolding free
free_guarded p size base e = rw e

free_double :
    (p : Pmm) (size : PageSize) (base : ℕ)
    → guarded p size base ≡ false
    → search p size base ≡ true
    → free p size base ≡ panic
unfolding free
free_double p size base e d = rw (e, d)

free_accepted :
    (p : Pmm) (size : PageSize) (base : ℕ)
    → guarded p size base ≡ false
    → search p size base ≡ false
    → free p size base ≡ (
        let first = base / 2 ^ 12 in
        let q = record p { frames = set_range p.frames first (frames_in size) } in
        if ltb (frames_in size) 512
        then ok tt (set_free q (first / 512) ((block p (first / 512)).free + frames_in size))
        else ok tt (set_free_all q (first / 512) (frames_in size / 512) 512))
unfolding free
free_accepted p size base e d = rw (e, d)

-- An accepted release.
module _ (p : Pmm) (v : IsValid p) (base : ℕ) where
  accept :
      (size : PageSize)
      → CanRelease p size base
      → guarded p size base ≡ false
      → search p size base ≡ false
      → Releases p size base (free p size base)
  unfolding marked one many
  accept size_4k c e d = rw (free_accepted p size_4k base e d) (
    c,
    test-one p v (base / 2 ^ 12) c.inside (c.taken (base / 2 ^ 12) (omega arith) (omega arith)),
    (one-SetsFree p v (base / 2 ^ 12) c.inside
        (c.taken (base / 2 ^ 12) (omega arith) (omega arith))).count,
    one-IsValid p v (base / 2 ^ 12) c.inside (c.taken (base / 2 ^ 12) (omega arith) (omega arith)),
  )
  accept size_2m c e d =
      let index : ℕ = base / 2 ^ 21 in
      let start : base / 2 ^ 12 ≡ index * 512 = omega (arith, c.aligned) in
      let block_of : index * 512 / 512 ≡ index = omega arith in
      let fits : index * 512 + 1 * 512 ≤ max_frames p = omega (arith, c.inside) in
      rw (free_accepted p size_2m base e d, start, block_of)
        (
          c,
          test-many p v index 1 fits,
          (many-SetsFreeAll p v index 1 fits).count,
          many-IsValid p v index 1 fits,
        )
  accept size_1g c e d =
      let index : ℕ = base / 2 ^ 21 in
      let start : base / 2 ^ 12 ≡ index * 512 = omega (arith, c.aligned) in
      let block_of : index * 512 / 512 ≡ index = omega arith in
      let fits : index * 512 + 512 * 512 ≤ max_frames p = omega (arith, c.inside) in
      rw (free_accepted p size_1g base e d, start, block_of)
        (
          c,
          test-many p v index 512 fits,
          (many-SetsFreeAll p v index 512 fits).count,
          many-IsValid p v index 512 fits,
        )

-- On a valid allocator `free` gives back exactly the run that it names and leaves the allocator
-- valid, when that is an aligned run of taken frames that the allocator manages, and panics on any
-- other, so on a double free.
pub free-Releases :
    (p : Pmm) (size : PageSize) (base : ℕ) → IsValid p → Releases p size base (free p size base)
free-Releases p size base v = elim (Bool-cases (guarded p size base)) [
  | inl bad ↦ rw (free_guarded p size base bad) (guarded-true p size base bad)
  | inr good ↦ unguarded good
]
  where
    unguarded : guarded p size base ≡ false → Releases p size base (free p size base)
    unguarded good =
        let (aligned, inside) = guarded-false p size base good in
        elim (find_set_in-FindsSet p.frames (base / 2 ^ 12) (frames_in size) v.fits
          (omega (arith, v.linked.small))) [
            | inl (nothing, clear) ↦
                accept p v base size (record { aligned = aligned; inside = inside; taken = clear })
                  good (rw nothing)
            | inr (low, high, hit, _) ↦
                rw (free_double p size base good (ground (arith, v.linked.small, inside))) (λ c.
                  ground (
                    arith,
                    c.taken (find_set_in p.frames (base / 2 ^ 12) (frames_in size)) low high,
                  ))
          ]

aligned_address :
    (size : PageSize) (first : ℕ)
    → first % frames_in size ≡ 0
    → address_of first % bytes_in size ≡ 0
aligned_address size_4k first h = omega arith
aligned_address size_2m first h = omega arith
aligned_address size_1g first h = omega arith

-- What `alloc` hands out of a valid allocator (for a GiB page: whose memory is whole GiB) can be
-- given back, and then the allocator is valid and the free frames are what they were before.
pub free-alloc :
    (p q : Pmm) (size : PageSize) (base : ℕ)
    → IsValid p
    → (size ≡ size_1g → block_count p % 512 ≡ 0)
    → alloc p size ≡ ok base q
    → (r : Pmm) × (free q size base ≡ ok tt r)
      × ((i : ℕ) → test r.frames i ≡ test p.frames i)
      × IsValid r
free-alloc p q size base v gib e =
    let (first, at, aligned, inside, was_free, after, count, vq) =
      rw e at (alloc-Allocates p size v gib) in
    let start : base / 2 ^ 12 ≡ first = omega arith in
    let acceptable : CanRelease q size base = record {
      aligned = rw at (aligned_address size first aligned);
      inside = rw (start, count) inside;
      taken = λ i a b. ground (arith, after i);
    } in
    finish vq acceptable (λ i. ground (arith, after i, was_free i)) (free q size base) refl
      (free-Releases q size base vq)
  where
    finish :
        IsValid q
        → CanRelease q size base
        → ((i : ℕ)
            → (if leb (base / 2 ^ 12) i && ltb i (base / 2 ^ 12 + frames_in size)
                then true
                else test q.frames i)
              ≡ test p.frames i)
        → (o : Outcome (Unit {0})) → free q size base ≡ o
        → Releases q size base o
        → (r : Pmm) × (free q size base ≡ ok tt r)
          × ((i : ℕ) → test r.frames i ≡ test p.frames i)
          × IsValid r
    finish vq c same (ok tt r) here (_, set, _, vr) = (r, here, λ i. set i ∙ same i, vr)
    finish vq c same (err _ _) here no_error = absurd no_error
    finish vq c same panic here refused = absurd (refused c)
