-- ===== src/Acpi.antt =====
-- kernel/acpi/acpi.cpp and kernel/acpi/madt.cpp: the checksum of a table, the search for a table by
-- its signature, and the parse of the interrupt controllers' table. Memory is a function from
-- addresses to bytes that nothing changes; a null pointer is none. The physical memory that is
-- mapped starts at `direct_map_base` and has `direct_map_size` bytes, configured by the build.
pub mod Checksum
pub mod Lookup
pub mod Bounds
pub mod Inside
pub mod Ready
mod Tests
use doom_os.Base.{
  ℕ, zero, suc, ◌+◌, ◌-◌, ◌*◌, ◌/◌, ◌%◌, ◌^◌, Bool, true, false, not, ◌&&◌, ◌||◌, ◌>>=◌, List, [],
  ◌∷◌, ◌++◌, Option, none, some, get_or, length, bit_and, leb, ltb, ◌==◌, ◌!=◌, if◌then◌else◌,
}

abbrev pub Memory : Type 0
Memory = ℕ → ℕ

-- `sizeof` of the structures in the namespaces `wire`
abbrev pub sdt_header_size : ℕ
sdt_header_size = 36

abbrev pub madt_header_size : ℕ
madt_header_size = 44

-- The variables of acpi.cpp.
pub record Acpi : Type 0 where
  pub rsdp_phys : ℕ
  pub sdt_root_phys : ℕ
  pub is_xsdt : Bool
  pub initialized : Bool

pub record ProcessorInfo : Type 0 where
  pub apic_id : ℕ
  pub acpi_id : ℕ
  pub enabled : Bool
  pub online_capable : Bool

pub record IoapicRecord : Type 0 where
  pub id : ℕ
  pub address : ℕ
  pub gsi_base : ℕ

pub record IsoRecord : Type 0 where
  pub bus : ℕ
  pub source : ℕ
  pub gsi : ℕ
  pub flags : ℕ

-- The arrays hold the entries below their counts.
pub record MadtInfo : Type 0 where
  pub lapic_address : ℕ
  pub flags : ℕ
  pub cpus : List ProcessorInfo
  pub ioapics : List IoapicRecord
  pub isos : List IsoRecord

abbrev pub max_cpus : ℕ
max_cpus = 64

abbrev pub max_ioapics : ℕ
max_ioapics = 8

abbrev pub max_isos : ℕ
max_isos = 32

abbrev pub empty_madt_info : MadtInfo
empty_madt_info = record {
  lapic_address = 4276092928;
  flags = 0;
  cpus = [];
  ioapics = [];
  isos = [];
}

-- `m_cached_madt_info` and `m_madt_parsed`
pub record MadtCache : Type 0 where
  pub info : MadtInfo
  pub parsed : Bool

module _ (memory : Memory) where
  abbrev pub u8_at : ℕ → ℕ
  u8_at a = memory a % 2 ^ 8

  unfoldable pub u16_at : ℕ → ℕ
  u16_at a = u8_at a + u8_at (a + 1) * 2 ^ 8

  unfoldable pub u32_at : ℕ → ℕ
  u32_at a = u16_at a + u16_at (a + 2) * 2 ^ 16

  unfoldable pub u64_at : ℕ → ℕ
  u64_at a = u32_at a + u32_at (a + 4) * 2 ^ 32

  abbrev pub sdt_length : ℕ → ℕ
  sdt_length header = u32_at (header + 4)

  -- The loop of `validate_checksum`.
  unfoldable pub checksum_from : ℕ → ℕ → ℕ → ℕ
  checksum_from at zero sum = sum
  checksum_from at (suc length) sum = checksum_from (at + 1) length ((sum + u8_at at) % 2 ^ 8)

  unfoldable pub validate_checksum : Option ℕ → ℕ → Bool
  validate_checksum none length = false
  validate_checksum (some pointer) length =
      if length == 0 then false else checksum_from pointer length 0 == 0

  -- The bytes at an address are those of a text.
  unfoldable pub signature_match : ℕ → List ℕ → Bool
  signature_match at [] = true
  signature_match at (c ∷ cs) = (u8_at at == c) && signature_match (at + 1) cs

  module _ (direct_map_base direct_map_size : ℕ) where
    unfoldable pub phy_to_vrt : ℕ → Option ℕ
    phy_to_vrt phys = if ltb phys direct_map_size then some (direct_map_base + phys) else none

    -- `RSD PTR `
    abbrev pub rsdp_signature : List ℕ
    rsdp_signature = 82 ∷ 83 ∷ 68 ∷ 32 ∷ 80 ∷ 84 ∷ 82 ∷ 32 ∷ []

    -- `init` at the descriptor, with the variables already reset.
    unfoldable pub init_at : Acpi → Option ℕ → Acpi
    init_at s none = s
    init_at s (some rsdp) =
        if not (signature_match rsdp rsdp_signature)
        then s
        else if not (validate_checksum (some rsdp) 20)
        then s
        else if leb 2 (u8_at (rsdp + 15)) && (u64_at (rsdp + 24) != 0)
        then (if not (validate_checksum (some rsdp) (u32_at (rsdp + 20))) then s else record s {
          sdt_root_phys = u64_at (rsdp + 24);
          is_xsdt = true;
          initialized = u64_at (rsdp + 24) != 0;
        })
        else record s {
          sdt_root_phys = u32_at (rsdp + 16);
          is_xsdt = false;
          initialized = u32_at (rsdp + 16) != 0;
        }

    unfoldable pub init : ℕ → Acpi
    init rsdp_address =
        let s : Acpi = record {
          rsdp_phys = rsdp_address;
          sdt_root_phys = 0;
          is_xsdt = false;
          initialized = false;
        } in
        if rsdp_address == 0 then s else init_at s (phy_to_vrt rsdp_address)

    abbrev pub entry_at : Bool → ℕ → ℕ → ℕ
    entry_at true base i = u64_at (base + 8 * i)
    entry_at false base i = u32_at (base + 4 * i)

    abbrev pub entry_size : Bool → ℕ
    entry_size true = 8
    entry_size false = 4

    -- The table that an entry of the root leads to, if it is the one that is looked for.
    abbrev pub checked : List ℕ → Option ℕ → Option ℕ
    checked signature none = none
    checked signature (some header) =
        if signature_match header signature && validate_checksum (some header) (sdt_length header)
        then some header
        else none

    unfoldable pub table_of : List ℕ → ℕ → Option ℕ
    table_of signature table_phys =
        if table_phys == 0 then none else checked signature (phy_to_vrt table_phys)

    abbrev pub or_next : Option ℕ → Option ℕ → Option ℕ
    or_next none next = next
    or_next (some header) next = some header

    -- The loops over the root's entries, the 64-bit and the 32-bit one.
    unfoldable pub search_from : Bool → List ℕ → ℕ → ℕ → ℕ → Option ℕ
    search_from wide signature base i zero = none
    search_from wide signature base i (suc rounds) =
        or_next (table_of signature (entry_at wide base i))
          (search_from wide signature base (i + 1) rounds)

    abbrev pub entry_count : Bool → ℕ → ℕ
    entry_count wide root = (sdt_length root - sdt_header_size) / entry_size wide

    -- `find_table` once the root table is found.
    unfoldable pub find_in_root : Bool → List ℕ → Option ℕ → Option ℕ
    find_in_root wide signature none = none
    find_in_root wide signature (some root) =
        if not (validate_checksum (some root) (sdt_length root))
        then none
        else if ltb (sdt_length root) sdt_header_size
        then none
        else search_from wide signature (root + sdt_header_size) 0 (entry_count wide root)

    unfoldable pub find_table : Acpi → List ℕ → Option ℕ
    find_table s signature =
        if not s.initialized
        then none
        else find_in_root s.is_xsdt signature (phy_to_vrt s.sdt_root_phys)

  -- The cases of `parse_madt`, by the entry's type; `at` is the entry and `size` its length.
  abbrev pub add_cpu : ProcessorInfo → MadtInfo → MadtInfo
  add_cpu cpu info =
      if ltb (length info.cpus) max_cpus then record info { cpus = info.cpus ++ cpu ∷ [] } else info

  abbrev pub add_ioapic : IoapicRecord → MadtInfo → MadtInfo
  add_ioapic r info =
      if ltb (length info.ioapics) max_ioapics
      then record info { ioapics = info.ioapics ++ r ∷ [] }
      else info

  abbrev pub add_iso : IsoRecord → MadtInfo → MadtInfo
  add_iso r info =
      if ltb (length info.isos) max_isos then record info { isos = info.isos ++ r ∷ [] } else info

  abbrev pub lapic_at : ℕ → ProcessorInfo
  lapic_at at = record {
    apic_id = u8_at (at + 3);
    acpi_id = u8_at (at + 2);
    enabled = bit_and (u32_at (at + 4)) 1 != 0;
    online_capable = bit_and (u32_at (at + 4)) 2 != 0;
  }

  abbrev pub x2apic_at : ℕ → ProcessorInfo
  x2apic_at at = record {
    apic_id = u32_at (at + 4);
    acpi_id = u32_at (at + 12);
    enabled = bit_and (u32_at (at + 8)) 1 != 0;
    online_capable = bit_and (u32_at (at + 8)) 2 != 0;
  }

  abbrev pub ioapic_at : ℕ → IoapicRecord
  ioapic_at at = record {
    id = u8_at (at + 2);
    address = u32_at (at + 4);
    gsi_base = u32_at (at + 8);
  }

  abbrev pub iso_at : ℕ → IsoRecord
  iso_at at = record {
    bus = u8_at (at + 2);
    source = u8_at (at + 3);
    gsi = u32_at (at + 4);
    flags = u16_at (at + 8);
  }

  unfoldable pub parse_entry : ℕ → ℕ → MadtInfo → MadtInfo
  parse_entry at size info =
      if u8_at at == 0
      then (if leb 8 size then add_cpu (lapic_at at) info else info)
      else if u8_at at == 1
      then (if leb 12 size then add_ioapic (ioapic_at at) info else info)
      else if u8_at at == 2
      then (if leb 10 size then add_iso (iso_at at) info else info)
      else if u8_at at == 5
      then (if leb 12 size then record info { lapic_address = u64_at (at + 4) } else info)
      else if u8_at at == 9
      then (if leb 16 size then add_cpu (x2apic_at at) info else info)
      else info

  -- The loop over the entries, on fuel; none stands for a loop that did not end.
  unfoldable pub parse_entries : ℕ → ℕ → ℕ → MadtInfo → Option MadtInfo
  parse_entries at end zero info = none
  parse_entries at end (suc fuel) info =
      let size = u8_at (at + 1) in
      let rest = parse_entries (at + size) end fuel (parse_entry at size info) in
      if ltb end (at + 2)
      then some info
      else if ltb size 2
      then some info
      else if ltb end (at + size)
      then some info
      else rest

  -- `parse_madt` of a table, or of none; the cache is written only if the table is long enough.
  unfoldable pub parse_madt : Option ℕ → Option MadtInfo
  parse_madt none = some empty_madt_info
  parse_madt (some header) =
      let n = sdt_length header in
      if ltb n madt_header_size
      then some empty_madt_info
      else parse_entries (header + madt_header_size) (header + n) (n + 1) (record empty_madt_info {
        lapic_address = u32_at (header + 36);
        flags = u32_at (header + 40);
      })

  -- What `parse_madt` leaves in the cache.
  unfoldable pub cache_madt : MadtCache → ℕ → Option MadtCache
  cache_madt cache header =
      if ltb (sdt_length header) madt_header_size
      then some cache
      else parse_madt (some header) >>= (λ info. some (record { info = info; parsed = true }))

  -- `APIC`
  abbrev pub madt_signature : List ℕ
  madt_signature = 65 ∷ 80 ∷ 73 ∷ 67 ∷ []

  abbrev pub cache_found : MadtCache → Option ℕ → Option MadtCache
  cache_found cache none = some cache
  cache_found cache (some header) = cache_madt cache header

  -- `get_madt_info` gives the `info` of the cache that it leaves.
  unfoldable pub get_madt_info : ℕ → ℕ → Acpi → MadtCache → Option MadtCache
  get_madt_info direct_map_base direct_map_size s cache =
      if cache.parsed
      then some cache
      else cache_found cache (find_table direct_map_base direct_map_size s madt_signature)

  -- `init_acpi` with the boot information's `acpi.present` and `acpi.rsdp.base`; false stands for
  -- the error INVALID_BOOT_DATA.
  unfoldable pub init_acpi : ℕ → ℕ → Acpi → Bool → ℕ → Acpi × Bool
  init_acpi direct_map_base direct_map_size s present rsdp_base =
      if not present || (rsdp_base == 0) then (s, false) else (
        init direct_map_base direct_map_size rsdp_base,
        (init direct_map_base direct_map_size rsdp_base).initialized,
      )
