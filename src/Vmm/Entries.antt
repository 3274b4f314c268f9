-- ===== src/Vmm/Entries.antt =====
-- The table of allocations (kernel/mm/vmm.cpp): `insert` and `erase` by entry, and the order of a
-- table.
use doom_os.Base.{
  ℕ, zero, suc, ◌+◌, ◌-◌, ◌%◌, ◌≤◌, ◌<◌, ◌≡◌, ◌≢◌, refl, sym, ◌∙◌, List, ◌&&◌, ltb, leb, ◌==◌,
  if◌then◌else◌, arith, length, get_or, set, length-set, get_or-set_self, get_or-set_ne, Bool-cases,
  inl, inr,
}
use doom_os.Vmm.{
  Allocation, no_allocation, Table, entry, shift_up, shift_down, insert, erase, max_allocations,
  vmalloc_base, vmalloc_size,
}
use doom_os.Page.{frame_size}

abbrev at : List Allocation → ℕ → Allocation
at xs i = get_or xs i no_allocation

length-shift_up : (xs : List Allocation) (index n : ℕ) → length (shift_up xs index n) ≡ length xs
unfolding shift_up
length-shift_up xs index zero = refl
length-shift_up xs index (suc n) = length-shift_up (set xs _ _) index n ∙ length-set xs _ _

length-shift_down :
    (xs : List Allocation) (index n : ℕ) → length (shift_down xs index n) ≡ length xs
unfolding shift_down
length-shift_down xs index zero = refl
length-shift_down xs index (suc n) =
    length-shift_down (set xs _ _) (index + 1) n ∙ length-set xs _ _

-- A write by entry.
at-set :
    (xs : List Allocation) (i j : ℕ) (v : Allocation)
    → i < length xs
    → at (set xs i v) j ≡ (if i == j then v else at xs j)
at-set xs i j v h = elim (Bool-cases (i == j)) [
  | inl same ↦ let e : i ≡ j = ground arith in rw same (rw (sym e) (get_or-set_self xs i v _ h))
  | inr other ↦ let d : i ≢ j = ground arith in rw other (get_or-set_ne xs i j v _ d)
]

at-shift_up :
    (xs : List Allocation) (index n j : ℕ)
    → index + n < length xs
    → at (shift_up xs index n) j
      ≡ (if ltb index j && leb j (index + n) then at xs (j - 1) else at xs j)
unfolding shift_up
at-shift_up xs index zero j h = ground arith
at-shift_up xs index (suc n) j h =
    let i : ℕ = index + n + 1 in
    let ys : List Allocation = set xs i (at xs (index + n)) in
    let rest = at-shift_up ys index n j (rw (length-set xs _ _) (omega arith)) in
    let here = at-set xs (index + n + 1) j (at xs (index + n)) (omega arith) in
    let before = at-set xs (index + n + 1) (j - 1) (at xs (index + n)) (omega arith) in
    rest ∙ rw (here, before) (ground arith)

at-shift_down :
    (xs : List Allocation) (index n j : ℕ)
    → index + n < length xs
    → at (shift_down xs index n) j
      ≡ (if leb index j && ltb j (index + n) then at xs (j + 1) else at xs j)
unfolding shift_down
at-shift_down xs index zero j h = ground arith
at-shift_down xs index (suc n) j h =
    let rest =
      at-shift_down (set xs index (at xs (index + 1))) (index + 1) n j
        (rw (length-set xs _ _) (omega arith)) in
    let here = at-set xs index j (at xs (index + 1)) (omega arith) in
    let after = at-set xs index (j + 1) (at xs (index + 1)) (omega arith) in
    rest ∙ rw (here, after) (ground arith)

-- `insert` moves the entries from `index` on up by one and writes the new one.
pub entry-insert :
    (t : Table) (index j : ℕ) (e : Allocation)
    → index ≤ t.count
    → t.count < length t.allocations
    → j ≤ t.count
    → entry (insert t index e) j
      ≡ (if j == index then e else if ltb index j then entry t (j - 1) else entry t j)
unfolding insert
entry-insert t index j e low room inside =
    let written =
      at-set (shift_up t.allocations index (t.count - index)) index j e
        (rw (length-shift_up t.allocations index (t.count - index)) (omega arith)) in
    let moved = at-shift_up t.allocations index (t.count - index) j (omega arith) in
    ground (arith, written, moved)

pub length-insert :
    (t : Table) (index : ℕ) (e : Allocation)
    → length (insert t index e).allocations ≡ length t.allocations
unfolding insert
length-insert t index e =
    length-set (shift_up t.allocations index (t.count - index)) index e
    ∙ length-shift_up t.allocations index (t.count - index)

pub count-insert : (t : Table) (index : ℕ) (e : Allocation) → (insert t index e).count ≡ t.count + 1
unfolding insert
count-insert t index e = refl

-- `erase` moves the entries after `index` down by one.
pub entry-erase :
    (t : Table) (index j : ℕ)
    → index < t.count
    → t.count ≤ length t.allocations
    → j < t.count - 1
    → entry (erase t index) j ≡ (if ltb j index then entry t j else entry t (j + 1))
unfolding erase
entry-erase t index j inside room below =
    ground (arith, at-shift_down t.allocations index (t.count - (index + 1)) j (omega arith))

pub length-erase :
    (t : Table) (index : ℕ) → length (erase t index).allocations ≡ length t.allocations
unfolding erase
length-erase t index = length-shift_down t.allocations index (t.count - (index + 1))

pub count-erase : (t : Table) (index : ℕ) → (erase t index).count ≡ t.count - 1
unfolding erase
count-erase t index = refl

-- A table in order: the entries stand in the window of the allocator by address, each a whole
-- number of pages, and a guard page is left after each of them.
pub record IsOrdered (t : Table) : Type 0 where
  pub sized : length t.allocations ≡ max_allocations
  pub small : t.count ≤ max_allocations
  pub above : (i : ℕ) → i < t.count → vmalloc_base ≤ (entry t i).base
  pub below :
      (i : ℕ)
      → i < t.count
      → (entry t i).base + (entry t i).bytes + frame_size ≤ vmalloc_base + vmalloc_size
  pub some_bytes : (i : ℕ) → i < t.count → 0 < (entry t i).bytes
  pub whole_base : (i : ℕ) → i < t.count → (entry t i).base % frame_size ≡ 0
  pub whole_bytes : (i : ℕ) → i < t.count → (entry t i).bytes % frame_size ≡ 0
  pub apart :
      (i j : ℕ)
      → i < j
      → j < t.count
      → (entry t i).base + (entry t i).bytes + frame_size ≤ (entry t j).base
