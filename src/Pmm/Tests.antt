-- ===== src/Pmm/Tests.antt =====
-- Runs of the allocator on small machines, and its theorems at concrete states.
use doom_os.Base.{ℕ, ◌*◌, ◌<◌, ◌≡◌, ◌↔◌, refl, false, [], ◌∷◌, none, arith}
use doom_os.Boot.{BootInfo, usable, reserved_kind, rgb}
use doom_os.Bits.{align_up, align_down, mask}
use doom_os.Bitmap.{
  test, set_range, clear_range, apply, apply_through, apply_word, assign_words, mask_from,
  mask_upto, count_set, popcount, find_set, first_in_words, first_in, countr_zero, clear_bit,
}
use doom_os.Page.{size_4k}
use doom_os.Pmm.{
  Pmm, block_count, Outcome, ok, err, panic, alloc, free, take_frame, set_free, list_of, push,
  link_front, link_old, unlink, bypass, bypass_back,
}
use doom_os.Pmm.Moves.{SetsFree, set_free-SetsFree}
use doom_os.Pmm.Valid.{IsValid}
use doom_os.Pmm.Take.{Allocates}
use doom_os.Pmm.TakeBlocks.{alloc-Allocates}
use doom_os.Pmm.Release.{Releases, free-Releases, free-alloc}
use doom_os.Pmm.Populate.{
  populate, unpopulated, init_allocator, claim, claim_regions, claim_region, claim_ranges,
  claim_range, mark, mark_between, count_blocks,
}
use doom_os.Pmm.Populate.Initial.{free_at_start, populate_lem, init_allocator_lem}

-- 4 MiB in two blocks: usable but for a hole at 3 MiB, and a kernel of 64 KiB at 1 MiB.
abbrev small_machine : BootInfo
small_machine = record {
  command_line = [];
  bootloader_name = [];
  memory_map =
      record { base = 0; length = 0x400000; kind = usable }
      ∷ record { base = 0x300000; length = 0x1800; kind = reserved_kind }
      ∷ [];
  modules = [];
  reserved = [];
  framebuffer = record {
    present = false;
    kind = rgb;
    range = record { base = 0; length = 0 };
    pitch = 0;
    width = 0;
    height = 0;
    bits_per_pixel = 0;
    red = record { position = 0; size = 0 };
    green = record { position = 0; size = 0 };
    blue = record { position = 0; size = 0 };
    palette = [];
  };
  acpi = record { present = false; rsdp = record { base = 0; length = 0 }; revision = 0 };
}

abbrev started : Pmm
started = populate (unpopulated 2) small_machine 0x100000 0x110000

started-IsValid : IsValid started
started-IsValid = (populate_lem 2 small_machine 0x100000 0x110000 (omega arith)).0

populate_example :
    IsValid started
    × (block_count started ≡ 2)
    × ((i : ℕ)
        → i < 2 * 512
        → test started.frames i ≡ free_at_start small_machine 0x100000 0x110000 i)
populate_example = populate_lem 2 small_machine 0x100000 0x110000 (omega arith)

init_allocator_example :
    (init_allocator 2 small_machine 0x100000 0x110000 ≡ none)
    ↔ ((i : ℕ) → i < 2 * 512 → free_at_start small_machine 0x100000 0x110000 i ≡ false)
init_allocator_example = init_allocator_lem 2 small_machine 0x100000 0x110000 (omega arith)

alloc-Allocates_example : Allocates started size_4k (alloc started size_4k)
alloc-Allocates_example = alloc-Allocates started size_4k started-IsValid (λ e. cc)

free-Releases_example : Releases started size_4k 0x100000 (free started size_4k 0x100000)
free-Releases_example = free-Releases started size_4k 0x100000 started-IsValid

abbrev state_of : Outcome ℕ → Pmm
state_of (ok base q) = q
state_of (err e q) = q
state_of panic = started

-- The block that is counted last is the first on its list.
first_frame : alloc started size_4k ≡ ok 0x200000 (state_of (alloc started size_4k))
unfolding alloc take_frame populate claim claim_regions claim_region claim_ranges claim_range mark
    mark_between count_blocks unpopulated set_free list_of push link_front link_old unlink bypass
    bypass_back align_up align_down mask set_range clear_range apply apply_through apply_word
    assign_words mask_from mask_upto count_set popcount find_set first_in_words first_in countr_zero
    clear_bit
first_frame = refl

free-alloc_example :
    (r : Pmm) × (free (state_of (alloc started size_4k)) size_4k 0x200000 ≡ ok tt r)
    × ((i : ℕ) → test r.frames i ≡ test started.frames i)
    × IsValid r
free-alloc_example =
    free-alloc started (state_of (alloc started size_4k)) size_4k 0x200000 started-IsValid (λ e. cc)
      first_frame

set_free-SetsFree_example : SetsFree started 0 7 (set_free started 0 7)
set_free-SetsFree_example =
    set_free-SetsFree started 0 7 started-IsValid.linked
      (omega (arith, (populate_lem 2 small_machine 0x100000 0x110000 (omega arith)).1))
      (omega arith)
