-- ===== src/Vmm/Search.antt =====
-- `find_gap` of kernel/mm/vmm.cpp.
use doom_os.Base.{
  ℕ, zero, suc, ◌+◌, ◌-◌, ◌%◌, ◌^◌, ◌≤◌, ◌<◌, ◌≡◌, ◌≢◌, refl, leb, ◌==◌, arith, Option, none, some,
  Bool-cases, inl, inr,
}
use doom_os.Vmm.{
  Table, entry, max_allocations, sub64, gap_start, gap_end, first_gap, find_gap, vmalloc_base,
  vmalloc_size,
}
use doom_os.Vmm.Entries.{IsOrdered}
use doom_os.Page.{frame_size}

-- The gap before `index` has room for `bytes` and a guard page.
abbrev pub HasRoom : Table → ℕ → ℕ → Type 0
HasRoom t bytes index = gap_start t index + (bytes + frame_size) ≤ gap_end t index

module _ (t : Table) (o : IsOrdered t) where
  -- The bounds of a gap do not wrap and are in order.
  pub start_lem :
      (i : ℕ)
      → i < t.count
      → gap_start t (i + 1) ≡ (entry t i).base + (entry t i).bytes + frame_size
  unfolding gap_start
  start_lem i h =
      let e : i + 1 - 1 ≡ i = omega arith in let below = o.below i h in ground (arith, e, below)

  pub start_zero : gap_start t 0 ≡ vmalloc_base
  unfolding gap_start
  start_zero = refl

  pub end_lem : (i : ℕ) → i < t.count → gap_end t i ≡ (entry t i).base
  unfolding gap_end
  end_lem i h = ground arith

  pub end_last : gap_end t t.count ≡ vmalloc_base + vmalloc_size
  unfolding gap_end
  end_last = ground arith

  pub gap_lem :
      (i : ℕ)
      → i ≤ t.count
      → (vmalloc_base ≤ gap_start t i)
        × (gap_start t i ≤ gap_end t i)
        × (gap_end t i ≤ vmalloc_base + vmalloc_size)
  gap_lem zero h = elim (Bool-cases (t.count == 0)) [
    | inl e ↦
        let z : t.count ≡ 0 = ground arith in
        let last = end_last in ground (arith, start_zero, z, last)
    | inr e ↦
        let p : 0 < t.count = ground arith in
        ground (arith, start_zero, end_lem 0 p, o.above 0 p, o.below 0 p)
  ]
  gap_lem (suc i) h = elim (Bool-cases (t.count == suc i)) [
    | inl e ↦
        let z : t.count ≡ suc i = ground arith in
        let last = end_last in ground (arith, start_lem i h, z, last, o.above i h, o.below i h)
    | inr e ↦
        let p : suc i < t.count = ground arith in
        ground (
          arith,
          start_lem i h,
          end_lem (suc i) p,
          o.above i h,
          o.below (suc i) p,
          o.apart i (suc i) (omega arith) p,
        )
  ]

  room_test :
      (bytes i : ℕ)
      → bytes ≤ vmalloc_size
      → i ≤ t.count
      → leb ((bytes + frame_size) % 2 ^ 64) (sub64 (gap_end t i) (gap_start t i))
        ≡ leb (gap_start t i + (bytes + frame_size)) (gap_end t i)
  room_test bytes i small h = let (a, b, c) = gap_lem i h in ground arith

  -- What `find_gap` finds: the first gap with room, unless none has any.
  abbrev FindsGap : ℕ → ℕ → Option ℕ → Type 0
  FindsGap bytes from none = (i : ℕ) → from ≤ i → i ≤ t.count → ¬ HasRoom t bytes i
  FindsGap bytes from (some index) =
      (index ≤ t.count)
      × HasRoom t bytes index
      × ((i : ℕ) → from ≤ i → i < index → ¬ HasRoom t bytes i)

  further :
      (bytes index : ℕ) (r : Option ℕ)
      → ¬ HasRoom t bytes index
      → FindsGap bytes (index + 1) r
      → FindsGap bytes index r
  further bytes index none tight f = λ i a b room. elim (Bool-cases (index == i)) [
    | inl e ↦ let e' : index ≡ i = ground arith in tight (rw e' room)
    | inr e ↦ f i (ground arith) b room
  ]
  further bytes index (some r) tight (a, b, f) = (
    a,
    b,
    λ i low high room. elim (Bool-cases (index == i)) [
      | inl e ↦ let e' : index ≡ i = ground arith in tight (rw e' room)
      | inr e ↦ f i (ground arith) high room
    ],
  )

  first_gap-FindsGap :
      (bytes index rounds : ℕ)
      → bytes ≤ vmalloc_size
      → index + rounds ≡ t.count + 1
      → FindsGap bytes index (first_gap t bytes index rounds)
  unfolding first_gap
  first_gap-FindsGap bytes index zero small e = λ i a b room. omega arith
  first_gap-FindsGap bytes index (suc rounds) small e =
      let test = room_test bytes index small (omega arith) in
      elim (Bool-cases (leb (gap_start t index + (bytes + frame_size)) (gap_end t index))) [
        | inl wide ↦ rw (test, wide) ((omega arith, ground arith, λ i a b room. omega arith))
        | inr tight ↦
            rw (test, tight)
              (further bytes index (first_gap t bytes (index + 1) rounds) (λ room. ground arith)
                (first_gap-FindsGap bytes (index + 1) rounds small (omega arith)))
      ]

  -- A gap that is found in a table in order has room; none is found only in a full table or
  -- one without such a gap.
  abbrev pub FoundGap : ℕ → Option ℕ → Type 0
  FoundGap bytes none = (t.count ≢ max_allocations) → (i : ℕ) → i ≤ t.count → ¬ HasRoom t bytes i
  FoundGap bytes (some index) =
      (t.count < max_allocations)
      × (index ≤ t.count)
      × HasRoom t bytes index
      × ((i : ℕ) → i < index → ¬ HasRoom t bytes i)

  found_from_zero :
      (bytes : ℕ) (r : Option ℕ) → t.count < max_allocations → FindsGap bytes 0 r → FoundGap bytes r
  found_from_zero bytes none c f = λ d i h. f i (omega arith) h
  found_from_zero bytes (some r) c (a, b, f) = (c, a, b, λ i h. f i (omega arith) h)

  pub find_gap-FoundGap : (bytes : ℕ) → bytes ≤ vmalloc_size → FoundGap bytes (find_gap t bytes)
  unfolding find_gap
  find_gap-FoundGap bytes small = elim (Bool-cases (t.count == max_allocations)) [
    | inl full ↦ rw full (λ d. absurd (d (ground arith)))
    | inr room ↦ rw room (
        let c : t.count < max_allocations = let s = o.small in ground arith in
        found_from_zero bytes (first_gap t bytes 0 (t.count + 1)) c
          (first_gap-FindsGap bytes 0 (t.count + 1) small (omega arith)))
  ]
