-- ===== src/Pmm/TakeBlocks.antt =====
-- `pmm::alloc` of large pages: whole blocks, alone or in aligned runs of 512.
use doom_os.Base.{
  ℕ, zero, suc, ◌+◌, ◌*◌, ◌/◌, ◌%◌, ◌^◌, ◌≤◌, ◌<◌, ◌≡◌, ◌≢◌, ◌⊎◌, inl, inr, refl, ◌∙◌, true, false,
  ◌&&◌, ltb, leb, ◌==◌, if◌then◌else◌, arith, Bool-cases, length,
}
use doom_os.Bitmap.{test, clear_range}
use doom_os.Bitmap.Ranges.{test-apply, apply-Fits, length-apply, clear_range-apply}
use doom_os.Bitmap.Count.{
  count_where, count_where-false, count_where-true, count_where_same, all_true,
}
use doom_os.Page.{PageSize, size_4k, size_2m, size_1g, out_of_memory, frames_in}
use doom_os.Pmm.{
  Pmm, whole_list, block, block_count, set_free_all, nil, list_of, address_of, ok, err, take_blocks,
  take_whole, whole_run, find_run, find_whole_run, alloc,
}
use doom_os.Pmm.Valid.{IsValid, SetsFreeAll, set_free_all-SetsFreeAll, frames-IsLinked, revalid}
use doom_os.Pmm.Take.{Allocates, AllFree, listed_head, empty_list, take_frame-Allocates}

-- `take_whole` of a run of whole blocks.
module _ (p : Pmm) (v : IsValid p) (first run : ℕ) (fits : first + run ≤ block_count p) where
  cleared : Pmm
  cleared = record p { frames = clear_range p.frames (first * 512) (run * 512) }

  emptied : Pmm
  emptied = set_free_all cleared first run 0

  room : first * 512 + run * 512 ≤ 64 * length p.frames
  room = omega (arith, v.sized)

  words : 64 * length p.frames < 2 ^ 64
  words = omega (arith, v.sized, v.linked.small)

  emptied-SetsFreeAll : SetsFreeAll cleared first run 0 emptied
  unfolding emptied cleared
  emptied-SetsFreeAll =
      set_free_all-SetsFreeAll cleared first run 0
        (frames-IsLinked p (clear_range p.frames (first * 512) (run * 512)) v.linked) fits
        (omega arith)

  test-emptied :
      (i : ℕ)
      → test emptied.frames i ≡ (
          if leb (first * 512) i && ltb i (first * 512 + run * 512) then false else test p.frames i)
  unfolding cleared
  test-emptied i =
      rw (emptied-SetsFreeAll.frames, clear_range-apply p.frames (first * 512) (run * 512))
        (test-apply p.frames (first * 512) (run * 512) false v.fits room words i)

  counted-emptied :
      (i : ℕ)
      → i < block_count p
      → (block emptied i).free ≡ count_where (test emptied.frames) (i * 512) 512
  unfolding cleared
  counted-emptied i h = elim (Bool-cases (leb first i && ltb i (first + run))) [
    | inl here ↦ ground (
      arith,
      emptied-SetsFreeAll.free_of i,
      count_where-false (test emptied.frames) (i * 512) 512
          (λ j a b. ground (arith, test-emptied j)),
    )
    | inr elsewhere ↦ ground (
      arith,
      emptied-SetsFreeAll.free_of i,
      v.counted i h,
      count_where_same (test p.frames) (test emptied.frames) (i * 512) 512
          (λ j a b. ground (arith, test-emptied j)),
    )
  ]

  emptied-IsValid : IsValid emptied
  unfolding cleared
  emptied-IsValid =
      revalid emptied emptied-SetsFreeAll.linked
        (rw
          (
            emptied-SetsFreeAll.frames,
            emptied-SetsFreeAll.count,
            clear_range-apply p.frames (first * 512) (run * 512),
          )
          (length-apply p.frames (first * 512) (run * 512) false ∙ v.sized))
        (rw (emptied-SetsFreeAll.frames, clear_range-apply p.frames (first * 512) (run * 512))
          (apply-Fits p.frames (first * 512) (run * 512) false v.fits room words))
        (λ i h. counted-emptied i (rw (← emptied-SetsFreeAll.count) h))

  take_whole-eq : take_whole p first run ≡ (address_of (first * 512), emptied)
  unfolding take_whole emptied cleared
  take_whole-eq = refl

-- Runs of whole blocks.
module _ (p : Pmm) (v : IsValid p) where
  -- A block is whole exactly when its 512 frames are free.
  whole_iff_free :
      (i : ℕ)
      → i < block_count p
      → ((block p i).free ≡ 512 → AllFree p (i * 512) 512)
        × (AllFree p (i * 512) 512 → (block p i).free ≡ 512)
  whole_iff_free i h = (
    λ e j a b. all_true (test p.frames) (i * 512) 512 j (omega (arith, v.counted i h)) a b,
    λ all. v.counted i h ∙ count_where-true (test p.frames) (i * 512) 512 all,
  )

  whole_run-true :
      (i n : ℕ)
      → i + n ≤ block_count p
      → whole_run p i n ≡ true
      → (f : ℕ) → i * 512 ≤ f
      → f < (i + n) * 512
      → test p.frames f ≡ true
  unfolding whole_run
  whole_run-true i zero h e f a b = absurd (omega arith)
  whole_run-true i (suc n) h e f a b = elim (Bool-cases (ltb f (i * 512 + 512))) [
    | inl here ↦ (whole_iff_free i (omega arith)).0 (ground arith) f a (ground arith)
    | inr later ↦
        whole_run-true (i + 1) n (omega arith) (ground arith) f (ground arith) (omega arith)
  ]

  whole_run-false :
      (i n : ℕ)
      → i + n ≤ block_count p
      → whole_run p i n ≡ false
      → ((f : ℕ) → i * 512 ≤ f → f < (i + n) * 512 → test p.frames f ≡ true)
      → ⊥
  unfolding whole_run
  whole_run-false i zero h e all = cc
  whole_run-false i (suc n) h e all = elim (Bool-cases ((block p i).free == 512)) [
    | inl whole ↦
        whole_run-false (i + 1) n (omega arith) (ground arith)
          (λ f a b. all f (omega arith) (omega arith))
    | inr broken ↦
        let w : (block p i).free ≡ 512 =
          (whole_iff_free i (omega arith)).1 (λ f a b. all f (omega arith) (omega arith)) in
        ground arith
  ]

  -- What `find_whole_run` may answer.
  abbrev FindsRun : ℕ → ℕ → ℕ → Type 0
  FindsRun run from r =
      ((r ≡ nil)
        × ((f : ℕ) → from ≤ f → f % run ≡ 0 → f + run ≤ block_count p → whole_run p f run ≡ false))
      ⊎ ((r % run ≡ 0) × (r + run ≤ block_count p) × (whole_run p r run ≡ true))

  find_run-FindsRun :
      (from rounds : ℕ)
      → from % 512 ≡ 0
      → from + rounds * 512 ≡ block_count p
      → FindsRun 512 from (find_run p 512 from rounds)
  unfolding find_run
  find_run-FindsRun from zero a e = inl (refl, λ f h k l. absurd (omega arith))
  find_run-FindsRun from (suc rounds) a e = elim (Bool-cases (whole_run p from 512)) [
    | inl whole ↦ rw (whole, find_run) (inr (a, omega arith, whole))
    | inr no_run ↦
        rw (no_run, find_run)
          (later no_run (find_run-FindsRun (from + 512) rounds (omega arith) (omega arith)))
  ]
    where
      later :
          whole_run p from 512 ≡ false → {r : ℕ} → FindsRun 512 (from + 512) r → FindsRun 512 from r
      later no_run (inr found) = inr found
      later no_run (inl (n, none_later)) = inl (
        n,
        λ f h k l. elim (Bool-cases (f == from)) [
          | inl here ↦ (let at : f ≡ from = ground arith in rw at no_run)
          | inr after ↦ none_later f (ground arith) k l
        ],
      )

  find_whole_run-512 : block_count p % 512 ≡ 0 → FindsRun 512 0 (find_whole_run p 512)
  unfolding find_whole_run
  find_whole_run-512 a = find_run-FindsRun 0 _ refl (omega arith)

  find_whole_run_one : FindsRun 1 0 (find_whole_run p 1)
  unfolding find_whole_run whole_run list_of
  find_whole_run_one = elim (Bool-cases (p.whole == nil)) [
    | inl out ↦
        let e : p.whole ≡ nil = ground arith in
        inl (e, λ f h k l. ground (arith, empty_list p v whole_list f e))
    | inr more ↦
        let ne : p.whole ≢ nil = ground arith in
        inr (
          omega arith,
          ground (arith, listed_head p v whole_list ne),
          ground (arith, listed_head p v whole_list ne),
        )
  ]

  module _ (size : PageSize) (run : ℕ) (frames : frames_in size ≡ run * 512)
      (run_of : frames_in size / 512 ≡ run) (some_run : 0 < run)
      (found : FindsRun run 0 (find_whole_run p run))
      (scale : (r : ℕ) → r % run ≡ 0 → r * 512 % frames_in size ≡ 0)
      (unscale : (first : ℕ)
        → first % frames_in size ≡ 0
        → (first / 512 * 512 ≡ first) × (first / 512 % run ≡ 0)) where
    take_blocks_out : find_whole_run p run ≡ nil → take_blocks p size ≡ err out_of_memory p
    unfolding take_blocks
    take_blocks_out e = rw (run_of, e)

    module _ (fits : find_whole_run p run + run ≤ block_count p) where
      after : Pmm
      after = emptied p v (find_whole_run p run) run fits

      take_blocks_ok : take_blocks p size ≡ ok (address_of (find_whole_run p run * 512)) after
      unfolding take_blocks after emptied cleared take_whole
      take_blocks_ok =
          let listed : (find_whole_run p run == nil) ≡ false = ground (arith, v.linked.small) in
          rw (run_of, listed)

      given :
          find_whole_run p run % run ≡ 0
          → whole_run p (find_whole_run p run) run ≡ true
          → Allocates p size (take_blocks p size)
      unfolding after cleared
      given aligned whole =
          let first : ℕ = find_whole_run p run in
          rw take_blocks_ok (
            first * 512,
            refl,
            scale first aligned,
            omega arith,
            λ i a b. whole_run-true first run fits whole i a (omega arith),
            λ i. rw frames (test-emptied p v first run fits i),
            (emptied-SetsFreeAll p v first run fits).count,
            emptied-IsValid p v first run fits,
          )

    refused :
        find_whole_run p run ≡ nil
        → ((f : ℕ) → f % run ≡ 0 → f + run ≤ block_count p → whole_run p f run ≡ false)
        → Allocates p size (take_blocks p size)
    refused e no_run = rw (take_blocks_out e) (
      refl,
      refl,
      λ first aligned fits all.
          let start : first / 512 * 512 ≡ first = (unscale first aligned).0 in
          let room : first / 512 + run ≤ block_count p = omega arith in
          whole_run-false (first / 512) run room
            (no_run (first / 512) (unscale first aligned).1 room)
            (λ f a b. all f (omega arith) (omega arith)),
    )

    take_blocks-Allocates : Allocates p size (take_blocks p size)
    take_blocks-Allocates = elim found [
      | inl (e, no_run) ↦ refused e (λ f k l. no_run f (omega arith) k l)
      | inr (aligned, fits, whole) ↦ given fits aligned whole
    ]

-- On a valid allocator (for a GiB page: whose memory is whole GiB), `alloc` does not panic: it
-- hands out an aligned run of free frames of the size that is asked for, takes exactly those and
-- leaves the allocator valid, or it reports that memory is out, when no such run is free.
pub alloc-Allocates :
    (p : Pmm) (size : PageSize)
    → IsValid p
    → (size ≡ size_1g → block_count p % 512 ≡ 0)
    → Allocates p size (alloc p size)
unfolding alloc
alloc-Allocates p size_4k v gib = take_frame-Allocates p v
alloc-Allocates p size_2m v gib =
    take_blocks-Allocates p v size_2m 1 refl refl (omega arith) (find_whole_run_one p v)
      (λ r h. omega arith) (λ f h. (omega arith, omega arith))
alloc-Allocates p size_1g v gib =
    take_blocks-Allocates p v size_1g 512 refl refl (omega arith)
      (find_whole_run-512 p v (gib refl)) (λ r h. omega arith) (λ f h. (omega arith, omega arith))
