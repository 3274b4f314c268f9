-- ===== src/Vmm/Allocate.antt =====
-- `vmm::alloc` of kernel/mm/vmm.cpp.
use doom_os.Base.{
  ℕ, ◌+◌, ◌%◌, ◌≤◌, ◌<◌, ◌≡◌, ◌≢◌, refl, ◌||◌, ltb, ◌==◌, arith, Option, none, some, ◌⊎◌,
  Bool-cases, inl, inr,
}
use doom_os.Bits.{align_up}
use doom_os.Bits.Align.{align_up_lem}
use doom_os.Vmm.{
  Allocation, Table, entry, insert, max_allocations, KernelSpace, Ended, done, failed, panicked,
  gap_start, find_gap, alloc, back, placed, in_gap, vmalloc_base, vmalloc_size,
}
use doom_os.Vmm.Entries.{IsOrdered}
use doom_os.Vmm.Search.{HasRoom, FoundGap, find_gap-FoundGap, gap_lem}
use doom_os.Vmm.Insert.{
  Holds, insert-IsOrdered, Holds-new, Holds-old, Holds-only, before_gap, after_gap, whole_start,
}
use doom_os.Page.{frame_size, PageProt, out_of_memory, invalid_address}

abbrev pub IsRequest : ℕ → Type 0
IsRequest bytes = (0 < bytes) × (bytes ≤ vmalloc_size)

-- The size of an allocation: whole pages.
abbrev pub size_for : ℕ → ℕ
size_for bytes = align_up 64 bytes frame_size

pub size_for_lem :
    (bytes : ℕ)
    → IsRequest bytes
    → (size_for bytes % frame_size ≡ 0)
      × (bytes ≤ size_for bytes)
      × (size_for bytes < bytes + frame_size)
size_for_lem bytes (a, b) = align_up_lem 64 12 bytes (omega arith) (omega arith)

-- The table t' is t with a new allocation at `base`, of whole pages, in the window, and at least a
-- guard page from every other.
pub record Places (t : Table) (bytes base : ℕ) (t' : Table) : Type 0 where
  pub ordered : IsOrdered t'
  pub whole : base % frame_size ≡ 0
  pub above : vmalloc_base ≤ base
  pub below : base + size_for bytes + frame_size ≤ vmalloc_base + vmalloc_size
  pub enough : bytes ≤ size_for bytes
  pub apart :
      (i : ℕ)
      → i < t.count
      → ((entry t i).base + (entry t i).bytes + frame_size ≤ base)
        ⊎ (base + size_for bytes + frame_size ≤ (entry t i).base)
  pub new : Holds t' (record { base = base; bytes = size_for bytes })
  pub kept : (e : Allocation) → Holds t e → Holds t' e
  pub only :
      (e : Allocation)
      → Holds t' e
      → Holds t e ⊎ (e ≡ record { base = base; bytes = size_for bytes })

module _ (t : Table) (o : IsOrdered t) (bytes index : ℕ) (asked : IsRequest bytes)
    (full : t.count < max_allocations) (inside : index ≤ t.count)
    (room : HasRoom t (size_for bytes) index) where
  gap-Places :
      Places t bytes
        (gap_start t index)
        (insert t index (record { base = gap_start t index; bytes = size_for bytes }))
  gap-Places =
      let (whole, enough, _) = size_for_lem bytes asked in
      let some_size : 0 < size_for bytes = omega arith in
      let (low, _, high) = gap_lem t o index inside in
      record {
        ordered = insert-IsOrdered t o index (size_for bytes) full inside room some_size whole;
        whole = whole_start t o index (size_for bytes) full inside room some_size whole;
        above = low;
        below = omega arith;
        enough = enough;
        apart = λ i h. elim (Bool-cases (ltb i index)) [
          | inl before ↦ inl (
              before_gap t o index (size_for bytes) full inside room some_size whole i
                (ground arith))
          | inr later ↦ inr (
              let a =
                after_gap t o index (size_for bytes) full inside room some_size whole i
                  (ground arith) h in
              omega arith)
        ];
        new = Holds-new t o index (size_for bytes) full inside room some_size whole;
        kept = Holds-old t o index (size_for bytes) full inside room some_size whole;
        only = Holds-only t o index (size_for bytes) full inside room some_size whole;
      }

module _ {S : Type 0} (space : KernelSpace S) where
  -- What `alloc` may do, from a table t and a state s of the address space and the frames.
  abbrev pub Allocates : Table → S → ℕ → PageProt → Ended (Table × S) ℕ → Type 0
  Allocates t s bytes prot (done base (t', s')) =
      IsRequest bytes
      × (back space s base (size_for bytes) prot ≡ done tt s')
      × Places t bytes base t'
  Allocates t s bytes prot (failed e (t', s')) =
      (t' ≡ t)
      × (((e ≡ invalid_address) × (s' ≡ s) × ¬ IsRequest bytes)
          ⊎ ((e ≡ out_of_memory)
              × (s' ≡ s)
              × ((t.count ≢ max_allocations)
                  → (i : ℕ) → i ≤ t.count
                  → ¬ HasRoom t (size_for bytes) i))
          ⊎ ((base : ℕ) × (back space s base (size_for bytes) prot ≡ failed e s')))
  Allocates t s bytes prot panicked =
      (base : ℕ) × (back space s base (size_for bytes) prot ≡ panicked)

  module _ (t : Table) (s : S) (o : IsOrdered t) (bytes : ℕ) (prot : PageProt)
      (asked : IsRequest bytes) where
    placed-Allocates :
        (index : ℕ)
        → t.count < max_allocations
        → index ≤ t.count
        → HasRoom t (size_for bytes) index
        → (r : Ended S (Unit {0})) → back space s (gap_start t index) (size_for bytes) prot ≡ r
        → Allocates t s bytes prot (placed space t index (gap_start t index) (size_for bytes) r)
    placed-Allocates index full inside room (done _ s') e =
        (asked, e, gap-Places t o bytes index asked full inside room)
    placed-Allocates index full inside room (failed m s') e =
        (refl, inr (inr (gap_start t index, e)))
    placed-Allocates index full inside room panicked e = (gap_start t index, e)

    in_gap-Allocates :
        (r : Option ℕ)
        → FoundGap t o (size_for bytes) r
        → Allocates t s bytes prot (in_gap space t s (size_for bytes) prot r)
    in_gap-Allocates none f = (refl, inr (inl (refl, refl, f)))
    in_gap-Allocates (some index) (full, inside, room, _) =
        placed-Allocates index full inside room
          (back space s (gap_start t index) (size_for bytes) prot) refl

  -- From a table in order, `alloc` either returns the address of a new allocation of whole pages
  -- that `back` has backed, in the window, with at least a guard page to every other, and the table
  -- is in order and holds exactly what it held and the new one; or it leaves the table as it was
  -- and reports an invalid address, for a size of zero or above the window's, that memory is out,
  -- when the table is full or has no gap with room, or the error of `back`. It panics only if `back`
  -- does.
  pub alloc_lem :
      (t : Table) (s : S) (bytes : ℕ) (prot : PageProt)
      → IsOrdered t
      → Allocates t s bytes prot (alloc space (t, s) bytes prot)
  unfolding alloc
  alloc_lem t s bytes prot o = elim (Bool-cases ((bytes == 0) || ltb vmalloc_size bytes)) [
    | inl bad ↦ rw bad ((refl, inl (refl, refl, λ (a, b). ground arith)))
    | inr good ↦ rw good (
        let asked : IsRequest bytes = ground arith in
        let (whole, enough, small) = size_for_lem bytes asked in
        in_gap-Allocates t s o bytes prot asked (find_gap t (size_for bytes))
          (find_gap-FoundGap t o (size_for bytes) (omega arith)))
  ]
