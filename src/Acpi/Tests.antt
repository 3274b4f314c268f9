-- ===== src/Acpi/Tests.antt =====
-- Runs of kernel/acpi/acpi.cpp and kernel/acpi/madt.cpp on a memory with a root and one table, and the
-- theorems at one input each.
use doom_os.Base.{
  ℕ, ◌+◌, ◌-◌, ◌<◌, ◌⊎◌, ◌≤◌, ◌≡◌, ◌↔◌, ◌%◌, refl, arith, true, false, List, [], ◌∷◌, none, some,
  get_or, ltb, if◌then◌else◌,
}
use doom_os.Acpi.{
  Memory, Acpi, u16_at, u32_at, sdt_length, checksum_from, validate_checksum, signature_match,
  phy_to_vrt, table_of, search_from, find_in_root, find_table, entry_count, sdt_header_size,
  MadtInfo, MadtCache, empty_madt_info, parse_entry, parse_entries, parse_madt, get_madt_info,
  init_acpi,
}
use doom_os.Acpi.Checksum.{byte_sum, validate_checksum_lem}
use doom_os.Acpi.Lookup.{IsFirst, IsRoot, find_table_lem}
use doom_os.Acpi.Bounds.{IsBounded, parse_madt_lem}
use doom_os.Acpi.Inside.{parse_madt-same}
use doom_os.Acpi.Ready.{IsRsdp, IsLookup, init_acpi_lem, get_madt_info_lem}

-- A table of interrupt controllers with one processor at 64, and a root that lists it at 128.
abbrev controllers : List ℕ
controllers =
    65 ∷ 80 ∷ 73 ∷ 67 ∷ 52 ∷ 0 ∷ 0 ∷ 0 ∷ 1 ∷ 162 ∷ 0 ∷ 0 ∷ 0 ∷ 0 ∷ 0 ∷ 0 ∷ 0 ∷ 0 ∷ 0 ∷ 0 ∷ 0 ∷ 0 ∷ 0
    ∷ 0 ∷ 0 ∷ 0 ∷ 0 ∷ 0 ∷ 0 ∷ 0 ∷ 0 ∷ 0 ∷ 0 ∷ 0 ∷ 0 ∷ 0 ∷ 0 ∷ 0 ∷ 0 ∷ 0 ∷ 0 ∷ 0 ∷ 0 ∷ 0 ∷ 0 ∷ 8 ∷ 1
    ∷ 2 ∷ 1 ∷ 0 ∷ 0 ∷ 0 ∷ []

abbrev listing : List ℕ
listing =
    82 ∷ 83 ∷ 68 ∷ 84 ∷ 40 ∷ 0 ∷ 0 ∷ 0 ∷ 1 ∷ 90 ∷ 0 ∷ 0 ∷ 0 ∷ 0 ∷ 0 ∷ 0 ∷ 0 ∷ 0 ∷ 0 ∷ 0 ∷ 0 ∷ 0 ∷ 0
    ∷ 0 ∷ 0 ∷ 0 ∷ 0 ∷ 0 ∷ 0 ∷ 0 ∷ 0 ∷ 0 ∷ 0 ∷ 0 ∷ 0 ∷ 0 ∷ 64 ∷ 0 ∷ 0 ∷ 0 ∷ []

abbrev tables : Memory
tables a = if ltb a 128 then get_or controllers (a - 64) 0 else get_or listing (a - 128) 0

abbrev at_root : Acpi
at_root = record { rsdp_phys = 32; sdt_root_phys = 128; is_xsdt = false; initialized = true }

abbrev apic : List ℕ
apic = 65 ∷ 80 ∷ 73 ∷ 67 ∷ []

listing-IsRoot : IsRoot tables 0 4096 at_root 128
unfolding phy_to_vrt validate_checksum checksum_from u32_at u16_at
listing-IsRoot = record { initialized = refl; mapped = refl; valid = refl; long = omega arith }

finds : find_table tables 0 4096 at_root apic ≡ some 64
unfolding find_table find_in_root search_from table_of phy_to_vrt validate_checksum checksum_from
    signature_match u32_at u16_at
finds = refl

parses :
    parse_madt tables (some 64)
    ≡ some (record empty_madt_info {
      lapic_address = 0;
      cpus = record { apic_id = 2; acpi_id = 1; enabled = true; online_capable = false } ∷ [];
    })
unfolding parse_madt parse_entries parse_entry u32_at u16_at
parses = refl

validate_checksum_example :
    (validate_checksum tables (some 64) 52 ≡ true)
    ↔ ((a : ℕ) × (some 64 ≡ some a) × (0 < 52) × (byte_sum tables a 52 % 256 ≡ 0))
validate_checksum_example = validate_checksum_lem tables (some 64) 52

refuses_null : validate_checksum tables none 52 ≡ false
unfolding validate_checksum
refuses_null = refl

find_table_example :
    IsFirst tables 0 4096 false apic
      (128 + sdt_header_size)
      0
      (entry_count tables 0 4096 false 128)
      (find_table tables 0 4096 at_root apic)
find_table_example = find_table_lem tables 0 4096 at_root apic 128 listing-IsRoot

parse_madt_example : (info : MadtInfo) × (parse_madt tables (some 64) ≡ some info) × IsBounded info
parse_madt_example = parse_madt_lem tables (some 64)

-- Another memory with the same table.
abbrev table_only : Memory
table_only a = get_or controllers (a - 64) 0

table_length : sdt_length tables 64 ≡ 52
unfolding u32_at u16_at
table_length = refl

same_table : (a : ℕ) → 64 ≤ a → a < 64 + 52 → tables a ≡ table_only a
same_table a l h = let t : ltb a 128 ≡ true = ground arith in rw t refl

parse_madt-same_example : parse_madt tables (some 64) ≡ parse_madt table_only (some 64)
parse_madt-same_example =
    parse_madt-same tables table_only 64 52 (omega arith) (omega (arith, table_length)) same_table

abbrev rsdp_base : ℕ
rsdp_base = 64

init_acpi_example :
    let (s', done) = init_acpi tables 0 4096 at_root true rsdp_base in
    (done ≡ true → IsRsdp tables 0 4096 rsdp_base s')
    × ((true ≡ false) ⊎ (rsdp_base ≡ 0) → (done ≡ false) × (s' ≡ at_root))
    × (done ≡ false
        → true ≡ true
        → 0 < rsdp_base
        → (signature : List ℕ) → find_table tables 0 4096 s' signature ≡ none)
init_acpi_example = init_acpi_lem tables 0 4096 at_root true rsdp_base

abbrev empty_cache : MadtCache
empty_cache = record { info = empty_madt_info; parsed = false }

empty_cache-IsBounded : IsBounded empty_cache.info
empty_cache-IsBounded = record {
  few_cpus = omega arith;
  few_ioapics = omega arith;
  few_isos = omega arith;
}

get_madt_info_example :
    (cache' : MadtCache) × (get_madt_info tables 0 4096 at_root empty_cache ≡ some cache')
    × IsLookup tables 0 4096 empty_cache cache' (find_table tables 0 4096 at_root apic)
get_madt_info_example = get_madt_info_lem tables 0 4096 at_root empty_cache empty_cache-IsBounded
