-- ===== src/Vmm/Release.antt =====
-- `vmm::free` of kernel/mm/vmm.cpp, and the table that the kernel starts with.
use doom_os.Base.{
  ℕ, zero, suc, ◌+◌, ◌-◌, ◌<◌, ◌≡◌, ◌≢◌, refl, sym, ap, ◌∙◌, false, ltb, ◌==◌, ◌!=◌, if◌then◌else◌,
  arith, ◌⊎◌, Bool-cases, inl, inr, length-replicate,
}
use doom_os.Vmm.{
  Allocation, no_allocation, Table, no_allocations, entry, erase, max_allocations, KernelSpace,
  Ended, done, failed, panicked, free, free_from, release, removed_at,
}
use doom_os.Vmm.Entries.{IsOrdered, entry-erase, length-erase, count-erase}
use doom_os.Vmm.Insert.{Holds}
use doom_os.Vmm.Allocate.{size_for}
use doom_os.Page.{invalid_address}

Allocation-ext :
    (e : Allocation) (base bytes : ℕ)
    → e.base ≡ base
    → e.bytes ≡ bytes
    → e ≡ record { base = base; bytes = bytes }
Allocation-ext e base bytes p q = rw (sym p, sym q) refl

-- A table without allocations is in order.
pub no_allocations-IsOrdered : IsOrdered no_allocations
no_allocations-IsOrdered = record {
  sized = length-replicate max_allocations no_allocation;
  small = omega arith;
  above = λ i h. absurd (omega arith);
  below = λ i h. absurd (omega arith);
  some_bytes = λ i h. absurd (omega arith);
  whole_base = λ i h. absurd (omega arith);
  whole_bytes = λ i h. absurd (omega arith);
  apart = λ i j l h. absurd (omega arith);
}

module _ (t : Table) (o : IsOrdered t) (index : ℕ) (inside : index < t.count) where
  at :
      (j : ℕ)
      → j < t.count - 1
      → entry (erase t index) j ≡ (if ltb j index then entry t j else entry t (j + 1))
  at j h = let s = o.sized in let c = o.small in entry-erase t index j inside (omega arith) h

  shrunk : (erase t index).count ≡ t.count - 1
  shrunk = count-erase t index

  erase-IsOrdered : IsOrdered (erase t index)
  erase-IsOrdered = record {
    sized = length-erase t index ∙ o.sized;
    small = omega (arith, shrunk, o.small);
    above = λ i h. ground (arith, at i (omega (arith, shrunk)), o.above i, o.above (i + 1), shrunk);
    below = λ i h. ground (arith, at i (omega (arith, shrunk)), o.below i, o.below (i + 1), shrunk);
    some_bytes = λ i h.
        ground (arith, at i (omega (arith, shrunk)), o.some_bytes i, o.some_bytes (i + 1), shrunk);
    whole_base = λ i h.
        ground (arith, at i (omega (arith, shrunk)), o.whole_base i, o.whole_base (i + 1), shrunk);
    whole_bytes = λ i h.
        ground
          (arith, at i (omega (arith, shrunk)), o.whole_bytes i, o.whole_bytes (i + 1), shrunk);
    apart = λ i j l h. ground (
      arith,
      at i (omega (arith, shrunk)),
      at j (omega (arith, shrunk)),
      o.apart i j,
      o.apart i (j + 1),
      o.apart (i + 1) (j + 1),
      shrunk,
    );
  }

  -- Two entries of a table in order have different bases.
  base_apart : (i : ℕ) → i < t.count → (entry t i).base ≡ (entry t index).base → i ≡ index
  base_apart i h e = elim (Bool-cases (ltb i index)) [
    | inl low ↦ let a = o.apart i index (ground arith) inside in absurd (omega arith)
    | inr high ↦ elim (Bool-cases (i == index)) [
      | inl same ↦ ground arith
      | inr other ↦ let a = o.apart index i (ground arith) h in absurd (omega arith)
    ]
  ]

  erase_kept :
      (e : Allocation) → Holds t e → e.base ≢ (entry t index).base → Holds (erase t index) e
  erase_kept e (i, h, q) d =
      let i≢index : i ≢ index =
        λ same. d (ap (λ x. x.base) (sym q) ∙ ap (λ k. (entry t k).base) same) in
      elim (Bool-cases (ltb i index)) [
        | inl low ↦ (i, ground (arith, shrunk), at i (ground arith) ∙ rw low q)
        | inr high ↦
            let b : i - 1 + 1 ≡ i = ground arith in
            let above : ltb (i - 1) index ≡ false = ground arith in
            (i - 1, ground (arith, shrunk), at (i - 1) (ground arith) ∙ rw (above, b) q)
      ]

  erase_only :
      (e : Allocation) → Holds (erase t index) e → Holds t e × (e.base ≢ (entry t index).base)
  erase_only e (i, h, q) =
      let a = at i (omega (arith, shrunk)) in
      elim (Bool-cases (ltb i index)) [
        | inl low ↦
            let c : entry (erase t index) i ≡ entry t i = a ∙ rw low refl in
            let old : entry t i ≡ e = sym c ∙ q in
            (
              (i, omega (arith, shrunk), old),
              λ same.
                  let k = base_apart i (omega (arith, shrunk)) (ap (λ x. x.base) old ∙ same) in
                  ground arith,
            )
        | inr high ↦
            let c : entry (erase t index) i ≡ entry t (i + 1) = a ∙ rw high refl in
            let old : entry t (i + 1) ≡ e = sym c ∙ q in
            (
              (i + 1, omega (arith, shrunk), old),
              λ same.
                  let k =
                    base_apart (i + 1) (omega (arith, shrunk)) (ap (λ x. x.base) old ∙ same) in
                  ground arith,
            )
      ]

-- The table t' is t without the allocation at `base`.
pub record Removes (t : Table) (base : ℕ) (t' : Table) : Type 0 where
  pub ordered : IsOrdered t'
  pub kept : (e : Allocation) → Holds t e → e.base ≢ base → Holds t' e
  pub only : (e : Allocation) → Holds t' e → Holds t e × (e.base ≢ base)

module _ {S : Type 0} (space : KernelSpace S) where
  -- What `free` may do, from a table t and a state s of the address space and the frames.
  abbrev pub Frees : Table → S → ℕ → ℕ → Ended (Table × S) (Unit {0}) → Type 0
  Frees t s base bytes (done _ (t', s')) =
      Holds t (record { base = base; bytes = size_for bytes })
      × (release space s base (size_for bytes) ≡ done tt s')
      × Removes t base t'
  Frees t s base bytes (failed e (t', s')) =
      (t' ≡ t)
      × (((e ≡ invalid_address)
            × (s' ≡ s)
            × ¬ Holds t (record { base = base; bytes = size_for bytes }))
          ⊎ (release space s base (size_for bytes) ≡ failed e s'))
  Frees t s base bytes panicked =
      Holds t (record { base = base; bytes = size_for bytes })
      × (release space s base (size_for bytes) ≡ panicked)

  module _ (t : Table) (s : S) (o : IsOrdered t) (base bytes : ℕ) where
    removed-Frees :
        (index : ℕ)
        → index < t.count
        → entry t index ≡ record { base = base; bytes = size_for bytes }
        → (r : Ended S (Unit {0})) → release space s base (size_for bytes) ≡ r
        → Frees t s base bytes (removed_at space t index r)
    removed-Frees index h q (done _ s') e =
        let b : (entry t index).base ≡ base = ap (λ x. x.base) q in
        (
          (index, h, q),
          e,
          record {
            ordered = erase-IsOrdered t o index h;
            kept = λ x held d. erase_kept t o index h x held (λ same. d (same ∙ b));
            only = λ x held.
                let (old, d) = erase_only t o index h x held in (old, λ same. d (same ∙ sym b));
          },
        )
    removed-Frees index h q (failed m s') e = (refl, inr e)
    removed-Frees index h q panicked e = ((index, h, q), e)

    free_from-Frees :
        (index rounds : ℕ)
        → index + rounds ≡ t.count
        → ((i : ℕ) → i < index → (entry t i).base ≢ base)
        → Frees t s base bytes (free_from space t s base bytes index rounds)
    unfolding free_from
    free_from-Frees index zero e passed =
        (refl, inl (refl, refl, λ (i, h, q). passed i (omega arith) (ap (λ x. x.base) q)))
    free_from-Frees index (suc rounds) e passed = elim (Bool-cases ((entry t index).base != base)) [
      | inl other ↦ rw other (
          free_from-Frees (index + 1) rounds (omega arith) (λ i h. elim (Bool-cases (i == index)) [
            | inl here ↦ let k : i ≡ index = ground arith in rw k (ground arith)
            | inr before ↦ passed i (ground arith)
          ]))
      | inr found ↦
          let b : (entry t index).base ≡ base = ground arith in
          elim (Bool-cases ((entry t index).bytes != size_for bytes)) [
            | inl wrong ↦
                rw (found, wrong)
                  ((
                    refl,
                    inl (
                      refl,
                      refl,
                      λ (i, h, q).
                          let k : i ≡ index =
                            base_apart t o index (omega arith) i h (ap (λ x. x.base) q ∙ sym b) in
                          let n : (entry t index).bytes ≡ size_for bytes =
                            rw (sym k) (ap (λ x. x.bytes) q) in
                          ground arith,
                    ),
                  ))
            | inr right ↦
                let n : (entry t index).bytes ≡ size_for bytes = ground arith in
                rw (found, right, b, n)
                  (removed-Frees index (omega arith)
                    (Allocation-ext (entry t index) base (size_for bytes) b n)
                    (release space s base (size_for bytes)) refl)
          ]
    ]

  -- From a table in order, `free` of an address and a size that stand in the table as one
  -- allocation, rounded to whole pages, releases its pages and leaves a table in order with every
  -- other allocation and no other; for any address and size that do not, it changes nothing and
  -- reports an invalid address. It fails otherwise, or panics, only if `release` does.
  pub free_lem :
      (t : Table) (s : S) (base bytes : ℕ)
      → IsOrdered t
      → Frees t s base bytes (free space (t, s) base bytes)
  unfolding free
  free_lem t s base bytes o =
      free_from-Frees t s o base bytes 0 t.count (omega arith) (λ i h. absurd (omega arith))
