-- ===== src/Pmm/Take.antt =====
-- `pmm::alloc`: what it hands out was free, and it refuses only when no such run of frames is free.
use doom_os.Base.{
  ℕ, ◌+◌, ◌-◌, ◌*◌, ◌/◌, ◌%◌, ◌≤◌, ◌<◌, ◌≡◌, ◌≢◌, inl, inr, refl, ◌∙◌, true, false, ◌&&◌, ltb, leb,
  ◌==◌, ◌!=◌, if◌then◌else◌, arith, Bool-cases, length,
}
use doom_os.Bits.{decrement}
use doom_os.Bits.Words.{decrement_of_pos}
use doom_os.Bitmap.{test, npos, find_set, clear_bit}
use doom_os.Bitmap.Ranges.{test-assign, assign-Fits, length-assign, clear_bit-assign}
use doom_os.Bitmap.Search.{find_set-FindsSet}
use doom_os.Bitmap.Count.{
  count_where, count_where-false, count_where_drop, count_where_same, all_false, count_where_le,
}
use doom_os.Page.{PageSize, size_4k, out_of_memory, frames_in}
use doom_os.Pmm.{
  Pmm, Head, whole_list, broken_list, head_of, block, block_count, max_frames, set_free, nil,
  list_of, address_of, Outcome, ok, err, panic, take_frame,
}
use doom_os.Pmm.Chain.{head-ne-nil}
use doom_os.Pmm.Moves.{on_list, SetsFree, set_free-SetsFree}
use doom_os.Pmm.Valid.{IsValid, frames-IsLinked, revalid}

-- The `n` frames from `first` on are all free.
abbrev pub AllFree : Pmm → ℕ → ℕ → Type 0
AllFree p first n = (i : ℕ) → first ≤ i → i < first + n → test p.frames i ≡ true

-- What an allocation of `size` may do: hand out an aligned run of free frames and mark exactly
-- these as taken, or report that memory is out, leave the state alone, and then no aligned run of
-- that size is free. It does not panic.
abbrev pub Allocates : Pmm → PageSize → Outcome ℕ → Type 0
Allocates p size (ok base q) =
    (first : ℕ) × (base ≡ address_of first)
    × (first % frames_in size ≡ 0)
    × (first + frames_in size ≤ max_frames p)
    × AllFree p first (frames_in size)
    × ((i : ℕ)
        → test q.frames i
          ≡ (if leb first i && ltb i (first + frames_in size) then false else test p.frames i))
    × (block_count q ≡ block_count p)
    × IsValid q
Allocates p size (err e q) =
    (e ≡ out_of_memory)
    × (q ≡ p)
    × ((first : ℕ)
        → first % frames_in size ≡ 0
        → first + frames_in size ≤ max_frames p
        → ¬ AllFree p first (frames_in size))
Allocates p size panic = ⊥

-- What stands on a list.
module _ (p : Pmm) (v : IsValid p) where
  pub listed_head : (h : Head) → head_of p h ≢ nil → on_list p h (head_of p h) ≡ true
  listed_head h ne = ((v.linked.listed h).chain.start ne).0

  pub empty_list : (h : Head) (i : ℕ) → head_of p h ≡ nil → on_list p h i ≡ false
  empty_list h i e = elim (Bool-cases (on_list p h i)) [
    | inl held ↦
        let l = v.linked.listed h in
        absurd (
          head-ne-nil _ _ (head_of p h) (on_list p h) l.rank l.bound l.chain l.below l.bound i
            (omega arith) held e)
    | inr off ↦ off
  ]

  pub free-le : (i : ℕ) → i < block_count p → (block p i).free ≤ 512
  free-le i h = omega (arith, v.counted i h, count_where_le (test p.frames) (i * 512) 512)

  -- With both lists empty no frame is free.
  pub none_free :
      p.whole ≡ nil → p.broken ≡ nil → (i : ℕ) → i < max_frames p → test p.frames i ≡ false
  unfolding list_of
  none_free w b i h =
      let j : ℕ = i / 512 in
      let z : (block p j).free ≡ 0 =
        ground (arith, empty_list whole_list j w, empty_list broken_list j b) in
      all_false (test p.frames) (j * 512) 512 i (omega (arith, v.counted j (omega arith)))
        (omega arith) (omega arith)

  -- With no frame free both lists are empty.
  pub no_heads :
      ((i : ℕ) → i < max_frames p → test p.frames i ≡ false) → (h : Head) → head_of p h ≡ nil
  unfolding list_of
  no_heads clear h = elim (Bool-cases (head_of p h == nil)) [
    | inl e ↦ ground arith
    | inr more ↦
        let index : ℕ = head_of p h in
        let there : on_list p h index ≡ true = listed_head h (ground arith) in
        let within : index < block_count p = ground arith in
        let z : (block p index).free ≡ 0 =
          v.counted index within
          ∙ count_where-false (test p.frames) (index * 512) 512 (λ i a b. clear i (omega arith)) in
        absurd (held_zero h index there z)
  ]
    where
      held_zero : (h : Head) (i : ℕ) → on_list p h i ≡ true → (block p i).free ≡ 0 → ⊥
      held_zero whole_list i t z = ground arith
      held_zero broken_list i t z = ground arith

  -- The block that `take<SIZE_4K>` looks into.
  chosen : ℕ
  chosen = if p.broken != nil then p.broken else p.whole

  chosen-block : chosen ≢ nil → (chosen < block_count p) × ((block p chosen).free ≢ 0)
  unfolding chosen list_of
  chosen-block ne = ground (arith, listed_head whole_list, listed_head broken_list)

  -- The frame that it finds there.
  chosen_frame : ℕ
  chosen_frame = find_set p.frames (chosen * 8) 8

  chosen_frame_lem :
      chosen ≢ nil
      → (chosen * 512 ≤ chosen_frame)
        × (chosen_frame < chosen * 512 + 512)
        × (test p.frames chosen_frame ≡ true)
  unfolding chosen_frame
  chosen_frame_lem ne = elim (find_set-FindsSet p.frames (chosen * 8) 8 v.fits) [
    | inl (_, clear) ↦
        let z : count_where (test p.frames) (chosen * 512) 512 ≡ 0 =
          count_where-false (test p.frames) (chosen * 512) 512
            (λ i a b. clear i (omega arith) (omega arith)) in
        absurd ((chosen-block ne).1 (omega (arith, v.counted chosen (chosen-block ne).0)))
    | inr (low, high, hit, _) ↦ (omega arith, omega arith, hit)
  ]

  -- The state after one frame is taken.
  module _ (ne : chosen ≢ nil) where
    inside : chosen_frame < 64 * length p.frames
    inside = omega (arith, (chosen_frame_lem ne).1, (chosen-block ne).0, v.sized)

    remaining : Pmm
    remaining = record p { frames = clear_bit p.frames chosen_frame }

    taken : Pmm
    taken = set_free remaining chosen (decrement 64 (block p chosen).free)

    taken-SetsFree : SetsFree remaining chosen ((block p chosen).free - 1) taken
    unfolding taken remaining
    taken-SetsFree =
        let positive : 0 < (block p chosen).free = omega (arith, (chosen-block ne).1) in
        let bound : (block p chosen).free ≤ 512 = free-le chosen (chosen-block ne).0 in
        rw (decrement_of_pos 64 (block p chosen).free positive (omega arith)) (
          set_free-SetsFree remaining chosen ((block p chosen).free - 1)
            (frames-IsLinked p (clear_bit p.frames chosen_frame) v.linked) (chosen-block ne).0
            (omega arith))

    test-taken :
        (i : ℕ) → test taken.frames i ≡ (if chosen_frame == i then false else test p.frames i)
    unfolding remaining
    test-taken i =
        rw (taken-SetsFree.frames, clear_bit-assign p.frames chosen_frame)
          (test-assign p.frames chosen_frame false v.fits inside i)

    counted-taken :
        (i : ℕ)
        → i < block_count p
        → (block taken i).free ≡ count_where (test taken.frames) (i * 512) 512
    unfolding remaining
    counted-taken i h = elim (Bool-cases (chosen == i)) [
      | inl here ↦
          let at : chosen ≡ i = ground arith in
          ground (
            arith,
            taken-SetsFree.free_of i,
            v.counted i h,
            count_where_drop (test p.frames) (test taken.frames) (i * 512) 512 chosen_frame
                (omega (arith, (chosen_frame_lem ne).0)) (omega (arith, (chosen_frame_lem ne).1))
                (chosen_frame_lem ne).2 (λ j. ground (arith, test-taken j)),
          )
      | inr elsewhere ↦ ground (
        arith,
        taken-SetsFree.free_of i,
        v.counted i h,
        count_where_same (test p.frames) (test taken.frames) (i * 512) 512
            (λ j a b. ground (arith, test-taken j, chosen_frame_lem ne)),
      )
    ]

    taken-IsValid : IsValid taken
    unfolding remaining
    taken-IsValid =
        revalid taken taken-SetsFree.linked
          (rw (taken-SetsFree.frames, taken-SetsFree.count, clear_bit-assign p.frames chosen_frame)
            (length-assign p.frames chosen_frame false v.fits inside ∙ v.sized))
          (rw (taken-SetsFree.frames, clear_bit-assign p.frames chosen_frame)
            (assign-Fits p.frames chosen_frame false v.fits inside))
          (λ i h. counted-taken i (rw (← taken-SetsFree.count) h))

  take_frame_out : chosen ≡ nil → take_frame p ≡ err out_of_memory p
  unfolding take_frame chosen
  take_frame_out e = rw e

  take_frame_ok : (ne : chosen ≢ nil) → take_frame p ≡ ok (address_of chosen_frame) (taken ne)
  unfolding take_frame taken remaining chosen_frame chosen
  take_frame_ok ne =
      let found : (chosen_frame == npos) ≡ false =
        ground (arith, chosen_frame_lem ne, chosen-block ne, v.linked.small) in
      let listed : (chosen == nil) ≡ false = ground arith in rw (listed, found)

  both_empty : chosen ≡ nil → (p.whole ≡ nil) × (p.broken ≡ nil)
  unfolding chosen
  both_empty e = ground arith

  pub take_frame-Allocates : Allocates p size_4k (take_frame p)
  unfolding remaining
  take_frame-Allocates = elim (Bool-cases (chosen == nil)) [
    | inl out ↦
        let e : chosen ≡ nil = ground arith in
        rw (take_frame_out e) (
          refl,
          refl,
          λ first aligned fits all. ground (
            arith,
            none_free (both_empty e).0 (both_empty e).1 first (omega arith),
            all first (omega arith),
          ),
        )
    | inr more ↦
        let ne : chosen ≢ nil = ground arith in
        rw (take_frame_ok ne) (
          chosen_frame,
          refl,
          omega arith,
          omega (arith, (chosen_frame_lem ne).1, (chosen-block ne).0),
          λ i a b. let e : i ≡ chosen_frame = omega arith in rw e (chosen_frame_lem ne).2,
          λ i. ground (arith, test-taken ne i),
          (taken-SetsFree ne).count,
          taken-IsValid ne,
        )
  ]
