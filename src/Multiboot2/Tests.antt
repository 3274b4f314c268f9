-- ===== src/Multiboot2/Tests.antt =====
-- Runs of the walk over the tags.
use doom_os.Base.{ℕ, ◌≤◌, ◌-◌, ◌^◌, ◌≡◌, ◌↔◌, refl, Bool, true, List, [], ◌∷◌, some}
use doom_os.Bits.{align_up}
use doom_os.Multiboot2.{
  Bytes, u32_at, header_size, total_size, tags_well_formed, well_formed, tags_from,
}
use doom_os.Multiboot2.Tags.{IsTags, AllInside, well_formed_lem, tags_from-well_formed}

-- A region of 32 bytes: a tag of type 1 and 9 bytes, padded to 16, and the end tag.
abbrev two_tags : Bytes
two_tags =
    32 ∷ 0 ∷ 0 ∷ 0 ∷ 0 ∷ 0 ∷ 0 ∷ 0 ∷ 1 ∷ 0 ∷ 0 ∷ 0 ∷ 9 ∷ 0 ∷ 0 ∷ 0 ∷ 65 ∷ 0 ∷ 0 ∷ 0 ∷ 0 ∷ 0 ∷ 0 ∷ 0
    ∷ 0 ∷ 0 ∷ 0 ∷ 0 ∷ 8 ∷ 0 ∷ 0 ∷ 0 ∷ []

two_tags_accepted : well_formed two_tags 4096 ≡ some true
unfolding well_formed tags_well_formed u32_at align_up
two_tags_accepted = refl

well_formed_example :
    (v : Bool) × (well_formed two_tags 4096 ≡ some v)
    × ((v ≡ true) ↔ (
        (header_size ≤ total_size two_tags)
        × (total_size two_tags ≤ 2 ^ 64 - 1 - 4096)
        × IsTags two_tags (total_size two_tags) header_size))
well_formed_example = well_formed_lem two_tags 4096

tags_from_example :
    (tags : List ℕ) × (tags_from two_tags header_size (total_size two_tags) ≡ some tags)
    × AllInside two_tags (total_size two_tags) tags
tags_from_example = tags_from-well_formed two_tags 4096 two_tags_accepted
