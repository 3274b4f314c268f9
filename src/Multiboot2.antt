-- ===== src/Multiboot2.antt =====
-- kernel/boot/multiboot2/iterator.hpp: the walk over the tags that the boot loader leaves in memory.
-- The region is the list of its bytes, from the fixed header on; a place in it is an offset.
pub mod Tags
mod Tests
use doom_os.Base.{
  ℕ, zero, suc, ◌+◌, ◌-◌, ◌*◌, ◌%◌, ◌^◌, Bool, true, false, ◌||◌, List, [], ◌∷◌, Option, none, some,
  get_or, ltb, leb, ◌==◌, if◌then◌else◌,
}
use doom_os.Bits.{align_up}

abbrev pub Bytes : Type 0
Bytes = List ℕ

abbrev pub byte : Bytes → ℕ → ℕ
byte mem i = get_or mem i 0 % 256

-- A little-endian word of 32 bits.
unfoldable pub u32_at : Bytes → ℕ → ℕ
u32_at mem i =
    byte mem i + byte mem (i + 1) * 2 ^ 8 + byte mem (i + 2) * 2 ^ 16 + byte mem (i + 3) * 2 ^ 24

abbrev pub tag_alignment : ℕ
tag_alignment = 8

-- `sizeof(fixed_header)` and `sizeof(tag_header)`
abbrev pub header_size : ℕ
header_size = 8

abbrev pub end_type : ℕ
end_type = 0

abbrev pub total_size : Bytes → ℕ
total_size mem = u32_at mem 0

abbrev pub tag_type : Bytes → ℕ → ℕ
tag_type mem at = u32_at mem at

abbrev pub tag_size : Bytes → ℕ → ℕ
tag_size mem at = u32_at mem (at + 4)

abbrev pub tag_step : Bytes → ℕ → ℕ
tag_step mem at = align_up 64 (tag_size mem at) tag_alignment

-- The loop of `well_formed`, on fuel; none stands for a loop that did not end.
unfoldable pub tags_well_formed : Bytes → ℕ → ℕ → ℕ → Option Bool
tags_well_formed mem end at zero = none
tags_well_formed mem end at (suc fuel) =
    let remaining = end - at in
    let rest = tags_well_formed mem end (at + tag_step mem at) fuel in
    if ltb remaining header_size
    then some false
    else if ltb (tag_size mem at) header_size || ltb remaining (tag_size mem at)
    then some false
    else if tag_type mem at == end_type
    then some (tag_size mem at == header_size)
    else if ltb remaining (tag_step mem at)
    then some false
    else rest

-- `well_formed` of the header at the address `begin`.
unfoldable pub well_formed : Bytes → ℕ → Option Bool
well_formed mem begin =
    if ltb (total_size mem) header_size
    then some false
    else if ltb (2 ^ 64 - 1 - begin) (total_size mem)
    then some false
    else tags_well_formed mem (total_size mem) header_size (total_size mem)

abbrev pub map_some : ℕ → Option (List ℕ) → Option (List ℕ)
map_some at none = none
map_some at (some rest) = some (at ∷ rest)

-- The offsets at which `tag_iterator` stands, from `at` up to the end tag, on fuel.
unfoldable pub tags_from : Bytes → ℕ → ℕ → Option (List ℕ)
tags_from mem at zero = none
tags_from mem at (suc fuel) =
    let rest = tags_from mem (at + tag_step mem at) fuel in
    if tag_type mem at == end_type then some [] else map_some at rest
