-- ===== src/Vmm.antt =====
-- kernel/mm/vmm.cpp: allocation of kernel address space. A table holds the allocations in the order
-- of their addresses; each is followed by a guard page that is never mapped.
-- The address space (arch/common/mmu/radix_tree.hpp over the kernel's page tables) and the frame
-- allocator are reached through the interface KernelSpace, on a state that both share. Every entry
-- runs under the one lock, so a call is a function on the state.
pub mod Entries
pub mod Search
pub mod Insert
pub mod Allocate
pub mod Release
mod Tests
use doom_os.Base.{
  ℕ, zero, suc, ◌+◌, ◌-◌, ◌*◌, ◌/◌, ◌%◌, ◌^◌, Bool, not, ◌&&◌, ◌||◌, List, Option, none, some,
  get_or, set, replicate, bit_and, ltb, leb, ◌==◌, ◌!=◌, if◌then◌else◌,
}
use doom_os.Bits.{align_up, align_down}
use doom_os.Page.{
  PageSize, size_4k, MmError, out_of_memory, invalid_address, frame_size, Mapping, PageProt, mmio,
}

-- config/layout.h
abbrev pub vmalloc_base : ℕ
vmalloc_base = 0xffffc00000000000

abbrev pub vmalloc_size : ℕ
vmalloc_size = 0x8000000000

abbrev pub mmio_map_base : ℕ
mmio_map_base = 0xffff808000000000

abbrev pub mmio_map_size : ℕ
mmio_map_size = 0x8000000000

abbrev pub max_allocations : ℕ
max_allocations = 1024

pub record Allocation : Type 0 where
  pub base : ℕ
  pub bytes : ℕ

abbrev pub no_allocation : Allocation
no_allocation = record { base = 0; bytes = 0 }

pub record Table : Type 0 where
  pub allocations : List Allocation
  pub count : ℕ

abbrev pub no_allocations : Table
no_allocations = record { allocations = replicate max_allocations no_allocation; count = 0 }

abbrev pub entry : Table → ℕ → Allocation
entry t index = get_or t.allocations index no_allocation

-- `a - b` of two 64-bit words.
abbrev pub sub64 : ℕ → ℕ → ℕ
sub64 a b = (a + (2 ^ 64 - b)) % 2 ^ 64

unfoldable pub gap_start : Table → ℕ → ℕ
gap_start t index =
    if index == 0
    then vmalloc_base
    else ((entry t (index - 1)).base + (entry t (index - 1)).bytes + frame_size) % 2 ^ 64

unfoldable pub gap_end : Table → ℕ → ℕ
gap_end t index = if index == t.count then vmalloc_base + vmalloc_size else (entry t index).base

-- The `for` loop of `find_gap`, with a round for each index from `index` on.
unfoldable pub first_gap : Table → ℕ → ℕ → ℕ → Option ℕ
first_gap t bytes index zero = none
first_gap t bytes index (suc rounds) =
    let rest = first_gap t bytes (index + 1) rounds in
    if leb ((bytes + frame_size) % 2 ^ 64) (sub64 (gap_end t index) (gap_start t index))
    then some index
    else rest

unfoldable pub find_gap : Table → ℕ → Option ℕ
find_gap t bytes = if t.count == max_allocations then none else first_gap t bytes 0 (t.count + 1)

-- The loop of `insert`: `n` rounds from `index + n` down to above `index`.
unfoldable pub shift_up : List Allocation → ℕ → ℕ → List Allocation
shift_up xs index zero = xs
shift_up xs index (suc n) =
    shift_up (set xs (index + n + 1) (get_or xs (index + n) no_allocation)) index n

unfoldable pub insert : Table → ℕ → Allocation → Table
insert t index e = record {
  allocations = set (shift_up t.allocations index (t.count - index)) index e;
  count = t.count + 1;
}

-- The loop of `erase`: `n` rounds, each of which moves the entry after `index` onto it.
unfoldable pub shift_down : List Allocation → ℕ → ℕ → List Allocation
shift_down xs index zero = xs
shift_down xs index (suc n) =
    shift_down (set xs index (get_or xs (index + 1) no_allocation)) (index + 1) n

unfoldable pub erase : Table → ℕ → Table
erase t index = record {
  allocations = shift_down t.allocations index (t.count - (index + 1));
  count = t.count - 1;
}

-- How a call ends, with the state that it leaves: with a value, with an error, or in the kernel's
-- panic, which does not return.
pub data Ended {ℓ} (S : Type ℓ) (A : Type 0) : Type ℓ where
  done : A → S → Ended S A
  failed : MmError → S → Ended S A
  panicked : Ended S A

-- `kernel_space()` and the frame allocator. `unmap_range` runs its last argument on each mapping
-- that it removes.
pub record KernelSpace (S : Type 0) : Type 0 where
  pub alloc_frame : S → Ended S ℕ
  pub free_frame : S → PageSize → ℕ → Ended S (Unit {0})
  pub map_range : S → ℕ → ℕ → ℕ → PageSize → PageProt → Ended S (Unit {0})
  pub unmap_range : S → ℕ → ℕ → PageSize → (S → Mapping → Ended S (Unit {0})) → Ended S (Unit {0})
  pub protect_range : S → ℕ → ℕ → PageSize → PageProt → Ended S (Unit {0})
  pub translate : S → ℕ → Ended S Mapping

module _ {S : Type 0} (space : KernelSpace S) where
  abbrev pub fully_unmapped : Ended S (Unit {0}) → Ended S (Unit {0})
  fully_unmapped (done _ s) = done tt s
  fully_unmapped (failed e s) = panicked
  fully_unmapped panicked = panicked

  unfoldable pub release : S → ℕ → ℕ → Ended S (Unit {0})
  release s base bytes =
      if bytes == 0
      then done tt s
      else fully_unmapped (
          space.unmap_range s base bytes size_4k
            (λ s' removed. space.free_frame s' removed.size removed.frame))

  -- The error with which `back` ends, once what it did is undone.
  abbrev pub fail_with : MmError → Ended S (Unit {0}) → Ended S (Unit {0})
  fail_with e (done _ s) = failed e s
  fail_with e (failed _ s) = failed e s
  fail_with e panicked = panicked

  abbrev pub release_after : ℕ → ℕ → Ended S (Unit {0}) → Ended S (Unit {0})
  release_after base offset (done _ s) = release s base offset
  release_after base offset (failed e s) = failed e s
  release_after base offset panicked = panicked

  -- `back`, from the frame and from its mapping on; `next` is the rest of the loop.
  abbrev pub with_mapping :
      (S → Ended S (Unit {0})) → ℕ → ℕ → ℕ → Ended S (Unit {0}) → Ended S (Unit {0})
  with_mapping next base offset frame (done _ s) = next s
  with_mapping next base offset frame (failed e s) =
      fail_with e (release_after base offset (space.free_frame s size_4k frame))
  with_mapping next base offset frame panicked = panicked

  abbrev pub with_frame :
      (S → Ended S (Unit {0})) → ℕ → ℕ → PageProt → Ended S ℕ → Ended S (Unit {0})
  with_frame next base offset prot (done frame s) =
      with_mapping next base offset frame
        (space.map_range s ((base + offset) % 2 ^ 64) frame frame_size size_4k prot)
  with_frame next base offset prot (failed e s) = fail_with e (release s base offset)
  with_frame next base offset prot panicked = panicked

  -- The loop of `back`, with a round for each frame from `offset` on.
  unfoldable pub back_from : S → ℕ → ℕ → PageProt → ℕ → Ended S (Unit {0})
  back_from s base offset prot zero = done tt s
  back_from s base offset prot (suc rounds) =
      with_frame (λ s'. back_from s' base (offset + frame_size) prot rounds) base offset prot
        (space.alloc_frame s)

  unfoldable pub back : S → ℕ → ℕ → PageProt → Ended S (Unit {0})
  back s base bytes prot = back_from s base 0 prot ((bytes + (frame_size - 1)) / frame_size)

  -- `alloc`, after `back`.
  abbrev pub placed : Table → ℕ → ℕ → ℕ → Ended S (Unit {0}) → Ended (Table × S) ℕ
  placed t index base size (done _ s) =
      done base (insert t index (record { base = base; bytes = size }), s)
  placed t index base size (failed e s) = failed e (t, s)
  placed t index base size panicked = panicked

  abbrev pub in_gap : Table → S → ℕ → PageProt → Option ℕ → Ended (Table × S) ℕ
  in_gap t s size prot none = failed out_of_memory (t, s)
  in_gap t s size prot (some index) =
      placed t index (gap_start t index) size (back s (gap_start t index) size prot)

  -- `vmm::alloc`
  unfoldable pub alloc : Table × S → ℕ → PageProt → Ended (Table × S) ℕ
  alloc (t, s) bytes prot =
      let size = align_up 64 bytes frame_size in
      if (bytes == 0) || ltb vmalloc_size bytes
      then failed invalid_address (t, s)
      else in_gap t s size prot (find_gap t size)

  abbrev pub removed_at : Table → ℕ → Ended S (Unit {0}) → Ended (Table × S) (Unit {0})
  removed_at t index (done _ s) = done tt (erase t index, s)
  removed_at t index (failed e s) = failed e (t, s)
  removed_at t index panicked = panicked

  -- The loop of `free`, with a round for each index from `index` on.
  unfoldable pub free_from : Table → S → ℕ → ℕ → ℕ → ℕ → Ended (Table × S) (Unit {0})
  free_from t s base bytes index zero = failed invalid_address (t, s)
  free_from t s base bytes index (suc rounds) =
      let rest = free_from t s base bytes (index + 1) rounds in
      if (entry t index).base != base
      then rest
      else if (entry t index).bytes != align_up 64 bytes frame_size
      then failed invalid_address (t, s)
      else removed_at t index (release s (entry t index).base (entry t index).bytes)

  -- `vmm::free`
  unfoldable pub free : Table × S → ℕ → ℕ → Ended (Table × S) (Unit {0})
  free (t, s) base bytes = free_from t s base bytes 0 t.count

  abbrev pub keeps_table : {A : Type 0} → Table → Ended S A → Ended (Table × S) A
  keeps_table t (done a s) = done a (t, s)
  keeps_table t (failed e s) = failed e (t, s)
  keeps_table t panicked = panicked

  -- The loop of `protect`, with a round for each index from `index` on.
  unfoldable pub protect_from : Table → S → ℕ → ℕ → PageProt → ℕ → ℕ → Ended (Table × S) (Unit {0})
  protect_from t s first last prot index zero = failed invalid_address (t, s)
  protect_from t s first last prot index (suc rounds) =
      let rest = protect_from t s first last prot (index + 1) rounds in
      let e = entry t index in
      if leb e.base first && leb last ((e.base + e.bytes) % 2 ^ 64)
      then keeps_table t (space.protect_range s first (sub64 last first) size_4k prot)
      else rest

  -- `vmm::protect`
  unfoldable pub protect : Table × S → ℕ → ℕ → PageProt → Ended (Table × S) (Unit {0})
  protect (t, s) first bytes prot =
      let last = align_up 64 ((first + bytes) % 2 ^ 64) frame_size in
      if (bytes == 0) || ((bit_and first (frame_size - 1) != 0) || leb last first)
      then failed invalid_address (t, s)
      else protect_from t s first last prot 0 t.count

  -- `vmm::vrt_to_phy`
  unfoldable pub vrt_to_phy : Table × S → ℕ → Ended (Table × S) Mapping
  vrt_to_phy (t, s) va = keeps_table t (space.translate s va)

  abbrev pub mapped_at : Table → ℕ → Ended S (Unit {0}) → Ended (Table × S) ℕ
  mapped_at t va (done _ s) = done va (t, s)
  mapped_at t va (failed e s) = failed e (t, s)
  mapped_at t va panicked = panicked

  -- `vmm::map_mmio`
  unfoldable pub map_mmio : Table × S → ℕ → ℕ → Ended (Table × S) ℕ
  map_mmio (t, s) pa bytes =
      let first = align_down 64 pa frame_size in
      let last = align_up 64 ((pa + bytes) % 2 ^ 64) frame_size in
      if (bytes == 0) || (leb mmio_map_size pa || ltb (mmio_map_size - pa) bytes)
      then failed invalid_address (t, s)
      else mapped_at t ((mmio_map_base + pa) % 2 ^ 64) (
          space.map_range s ((mmio_map_base + first) % 2 ^ 64) first (sub64 last first) size_4k
            mmio)
