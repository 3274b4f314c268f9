-- ===== src/Vmm/Insert.antt =====
-- `insert` of kernel/mm/vmm.cpp at a gap with room: the table stays in order and gains the entry.
use doom_os.Base.{
  ℕ, ◌+◌, ◌-◌, ◌%◌, ◌≤◌, ◌<◌, ◌≡◌, refl, sym, ap, ◌∙◌, ltb, ◌==◌, if◌then◌else◌, arith, ◌⊎◌,
  Bool-cases, inl, inr,
}
use doom_os.Vmm.{Allocation, Table, entry, insert, max_allocations, gap_start, gap_end}
use doom_os.Vmm.Entries.{IsOrdered, entry-insert, length-insert, count-insert}
use doom_os.Vmm.Search.{HasRoom, start_lem, start_zero, end_lem, gap_lem}
use doom_os.Page.{frame_size}

-- The allocation stands in the table.
abbrev pub Holds : Table → Allocation → Type 0
Holds t e = (i : ℕ) × (i < t.count) × (entry t i ≡ e)

module _ (t : Table) (o : IsOrdered t) (index size : ℕ) (full : t.count < max_allocations)
    (inside : index ≤ t.count) (room : HasRoom t size index) (some_size : 0 < size)
    (whole : size % frame_size ≡ 0) where
  abbrev pub new_entry : Allocation
  new_entry = record { base = gap_start t index; bytes = size }

  at :
      (j : ℕ)
      → j ≤ t.count
      → entry (insert t index new_entry) j
        ≡ (if j == index then new_entry else if ltb index j then entry t (j - 1) else entry t j)
  at j h = let s = o.sized in entry-insert t index j new_entry inside (omega arith) h

  -- Entries before the gap end before it, those after it start after it.
  pub before_gap :
      (i : ℕ) → i < index → (entry t i).base + (entry t i).bytes + frame_size ≤ gap_start t index
  before_gap i h =
      let e : index - 1 + 1 ≡ index = omega arith in
      let s = start_lem t o (index - 1) (omega arith) in
      elim (Bool-cases (i + 1 == index)) [
        | inl last ↦ let e' : index - 1 ≡ i = ground arith in ground (arith, e, e', s)
        | inr other ↦
            let a = o.apart i (index - 1) (ground arith) (omega arith) in ground (arith, e, s, a)
      ]

  pub after_gap : (i : ℕ) → index ≤ i → i < t.count → gap_end t index ≤ (entry t i).base
  after_gap i low high =
      let s = end_lem t o index (omega arith) in
      elim (Bool-cases (i == index)) [
        | inl first ↦ let e' : index ≡ i = ground arith in ground (arith, e', s)
        | inr other ↦ let a = o.apart index i (ground arith) high in ground (arith, s, a)
      ]

  pub whole_start : gap_start t index % frame_size ≡ 0
  whole_start = elim (Bool-cases (index == 0)) [
    | inl first ↦
        let e : index ≡ 0 = ground arith in let z = start_zero t o in rw (e, z) (omega arith)
    | inr later ↦
        let p : 0 < index = ground arith in
        let e : index - 1 + 1 ≡ index = omega arith in
        let s = start_lem t o (index - 1) (omega arith) in
        let a = o.whole_base (index - 1) (omega arith) in
        let b = o.whole_bytes (index - 1) (omega arith) in
        let s' : gap_start t index
            ≡ (entry t (index - 1)).base + (entry t (index - 1)).bytes + frame_size =
          ap (gap_start t) (sym e) ∙ s in
        omega arith
  ]

  pub insert-IsOrdered : IsOrdered (insert t index new_entry)
  insert-IsOrdered =
      let (low, _, high) = gap_lem t o index inside in
      let start = whole_start in
      record {
        sized = length-insert t index new_entry ∙ o.sized;
        small = omega (arith, count-insert t index new_entry);
        above = λ i h.
            let b : i ≤ t.count = omega (arith, count-insert t index new_entry) in
            ground (arith, at i b, o.above i, o.above (i - 1));
        below = λ i h.
            let b : i ≤ t.count = omega (arith, count-insert t index new_entry) in
            ground (arith, at i b, o.below i, o.below (i - 1));
        some_bytes = λ i h.
            let b : i ≤ t.count = omega (arith, count-insert t index new_entry) in
            ground (arith, at i b, o.some_bytes i, o.some_bytes (i - 1));
        whole_base = λ i h.
            let b : i ≤ t.count = omega (arith, count-insert t index new_entry) in
            ground (arith, at i b, o.whole_base i, o.whole_base (i - 1));
        whole_bytes = λ i h.
            let b : i ≤ t.count = omega (arith, count-insert t index new_entry) in
            ground (arith, at i b, o.whole_bytes i, o.whole_bytes (i - 1));
        apart = λ i j l h.
            let b : j ≤ t.count = omega (arith, count-insert t index new_entry) in
            let b' : i ≤ t.count = omega arith in
            ground (
              arith,
              at i b',
              at j b,
              o.apart i j,
              o.apart i (j - 1),
              o.apart (i - 1) (j - 1),
              before_gap i,
              after_gap (j - 1),
            );
      }

  -- The table holds what it held and the new entry.
  pub Holds-new : Holds (insert t index new_entry) new_entry
  Holds-new = (
    index,
    omega (arith, count-insert t index new_entry),
    let e = at index inside in ground (arith, e),
  )

  pub Holds-old : (e : Allocation) → Holds t e → Holds (insert t index new_entry) e
  Holds-old e (i, h, q) = elim (Bool-cases (ltb i index)) [
    | inl low ↦ (
      i,
      omega (arith, count-insert t index new_entry),
      let a = at i (omega arith) in ground (arith, a, q),
    )
    | inr high ↦ (
      i + 1,
      omega (arith, count-insert t index new_entry),
      let a = at (i + 1) (omega arith) in
          let b : i + 1 - 1 ≡ i = omega arith in ground (arith, a, b, q),
    )
  ]

  pub Holds-only :
      (e : Allocation) → Holds (insert t index new_entry) e → Holds t e ⊎ (e ≡ new_entry)
  Holds-only e (i, h, q) =
      let b : i ≤ t.count = omega (arith, count-insert t index new_entry) in
      let a = at i b in
      elim (Bool-cases (i == index)) [
        | inl here ↦ inr (sym q ∙ a ∙ rw here refl)
        | inr other ↦ elim (Bool-cases (ltb index i)) [
          | inl high ↦ inl (
            i - 1,
            ground arith,
            (let c : entry (insert t index new_entry) i ≡ entry t (i - 1) =
                  a ∙ rw (other, high) refl in
                sym c ∙ q),
          )
          | inr low ↦ inl (
            i,
            ground arith,
            (let c : entry (insert t index new_entry) i ≡ entry t i = a ∙ rw (other, low) refl in
                sym c ∙ q),
          )
        ]
      ]
