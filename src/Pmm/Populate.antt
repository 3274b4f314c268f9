-- ===== src/Pmm/Populate.antt =====
-- `populate` of kernel/mm/pmm.cpp: which frames start out free.
pub mod Marks
pub mod Claims
pub mod Initial
use doom_os.Base.{
  ℕ, zero, suc, ◌+◌, ◌-◌, ◌*◌, ◌/◌, ◌%◌, ◌^◌, Bool, true, false, Option, none, some, not, ◌&&◌,
  ◌||◌, List, [], ◌∷◌, map, length, replicate, ltb, leb, ◌==◌, if◌then◌else◌,
}
use doom_os.Bits.{align_up, align_down}
use doom_os.Bitmap.{set_range, clear_range, count_set}
use doom_os.Boot.{MemoryKind, usable, MemoryRegion, AddressRange, ModuleInfo, BootInfo}
use doom_os.Page.{frame_size}
use doom_os.Pmm.{Pmm, Block, block_count, max_frames, nil, set_free, words_per_block}

-- `MAX_PHYSICAL_MEMORY`
abbrev pub max_memory : Pmm → ℕ
max_memory p = max_frames p * frame_size

-- `mark`, from the end that it computes on.
unfoldable pub mark_between : Pmm → ℕ → ℕ → Bool → Pmm
mark_between p base end is_usable =
    let first = if is_usable then align_up 64 base frame_size else align_down 64 base frame_size in
    let last = if is_usable then align_down 64 end frame_size else align_up 64 end frame_size in
    if leb last first
    then p
    else if is_usable
    then record p { frames = set_range p.frames (first / 2 ^ 12) ((last - first) / 2 ^ 12) }
    else record p { frames = clear_range p.frames (first / 2 ^ 12) ((last - first) / 2 ^ 12) }

unfoldable pub mark : Pmm → ℕ → ℕ → Bool → Pmm
mark p base size is_usable =
    if (size == 0) || leb (max_memory p) base
    then p
    else mark_between p base (if ltb (max_memory p - base) size then max_memory p else base + size)
        is_usable

pub data Phase : Type 0 where
  free_phase reserve_phase : Phase

abbrev pub is_usable_kind : MemoryKind → Bool
is_usable_kind usable = true
is_usable_kind _ = false

-- `claim` of a `memory_region`.
unfoldable pub claim_region : Pmm → Phase → MemoryRegion → Pmm
claim_region p free_phase r = if is_usable_kind r.kind then mark p r.base r.length true else p
claim_region p reserve_phase r = if is_usable_kind r.kind then p else mark p r.base r.length false

-- `claim` of an `address_range`.
unfoldable pub claim_range : Pmm → Phase → AddressRange → Pmm
claim_range p free_phase r = p
claim_range p reserve_phase r = mark p r.base r.length false

unfoldable pub claim_regions : Pmm → Phase → List MemoryRegion → Pmm
claim_regions p phase [] = p
claim_regions p phase (r ∷ rs) = claim_regions (claim_region p phase r) phase rs

unfoldable pub claim_ranges : Pmm → Phase → List AddressRange → Pmm
claim_ranges p phase [] = p
claim_ranges p phase (r ∷ rs) = claim_ranges (claim_range p phase r) phase rs

-- `claim` of the boot information: the ranges that its fields hold, in the order of the fields. The
-- other fields are neither regions, ranges, nor containers of them.
unfoldable pub claim : Pmm → Phase → BootInfo → Pmm
claim p phase boot =
    let regions = claim_regions p phase boot.memory_map in
    let modules = claim_ranges regions phase (map (λ m. m.range) boot.modules) in
    let reserved = claim_ranges modules phase boot.reserved in
    claim_range (claim_range reserved phase boot.framebuffer.range) phase boot.acpi.rsdp

-- `set_free(index, count_set(...))` for the `n` blocks from `index` on.
unfoldable pub count_blocks : Pmm → ℕ → ℕ → Pmm
count_blocks p index zero = p
count_blocks p index (suc n) =
    count_blocks (set_free p index (count_set p.frames (index * words_per_block) words_per_block))
      (index + 1) n

-- `kernel_physical_end - boot_start` in 64 bits.
abbrev pub kernel_bytes : ℕ → ℕ → ℕ
kernel_bytes boot_start kernel_physical_end = (kernel_physical_end + (2 ^ 64 - boot_start)) % 2 ^ 64

-- `boot_start` and `kernel_physical_end` are symbols of the linker script.
unfoldable pub populate : Pmm → BootInfo → ℕ → ℕ → Pmm
populate p boot boot_start kernel_physical_end =
    let freed = claim p free_phase boot in
    let low = mark freed 0 (1024 * 1024) false in
    let kernel = mark low boot_start (kernel_bytes boot_start kernel_physical_end) false in
    let reserved = claim kernel reserve_phase boot in count_blocks reserved 0 (block_count reserved)

-- The allocator before `populate`: zeroed arrays of `blocks` blocks, and empty lists.
unfoldable pub unpopulated : ℕ → Pmm
unpopulated blocks = record {
  frames = replicate (8 * blocks) 0;
  blocks = replicate blocks (record { free = 0; next = 0; prev = 0 });
  whole = nil;
  broken = nil;
}

-- `init_allocator`; `none` is `NO_USABLE_MEMORY`.
unfoldable pub init_allocator : ℕ → BootInfo → ℕ → ℕ → Option Pmm
init_allocator blocks boot boot_start kernel_physical_end =
    let p = populate (unpopulated blocks) boot boot_start kernel_physical_end in
    if (p.whole == nil) && (p.broken == nil) then none else some p
