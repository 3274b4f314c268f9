-- ===== src/Acpi/Ready.antt =====
-- `init_acpi` of kernel/acpi/acpi.cpp and `get_madt_info` of kernel/acpi/madt.cpp.
use doom_os.Base.{
  ℕ, ◌≤◌, ◌<◌, ◌⊎◌, ◌≡◌, refl, sym, ap, ◌∙◌, Bool, true, false, not, ◌&&◌, ◌||◌, ◌==◌, ◌!=◌, leb,
  ltb, List, Option, none, some, arith, Bool-cases, inl, inr, ◌+◌, if◌then◌else◌,
}
use mathlib.Core.Bool.{true≢false}
use doom_os.Acpi.{
  Memory, Acpi, u8_at, u32_at, u64_at, sdt_length, validate_checksum, signature_match,
  rsdp_signature, phy_to_vrt, init_at, init, init_acpi, MadtCache, madt_signature, find_table,
  cache_madt, cache_found, parse_madt, get_madt_info,
}
use mathlib.Core.Option.{some-injective}
use doom_os.Acpi.Lookup.{none≢some}
use doom_os.Acpi.Bounds.{IsBounded, parse_madt_lem}

module _ (memory : Memory) (base size : ℕ) where
  -- The descriptor at an address is mapped, named and valid, and leads to a root table.
  pub record IsRsdp (address : ℕ) (s : Acpi) : Type 0 where
    pub rsdp : ℕ
    pub mapped : phy_to_vrt memory base size address ≡ some rsdp
    pub named : signature_match memory rsdp (rsdp_signature memory base size) ≡ true
    pub valid : validate_checksum memory (some rsdp) 20 ≡ true
    pub valid_extended :
        s.is_xsdt ≡ true → validate_checksum memory (some rsdp) (u32_at memory (rsdp + 20)) ≡ true
    pub has_root : 0 < s.sdt_root_phys

  init_at-IsRsdp :
      (address : ℕ) (s : Acpi) (o : Option ℕ)
      → phy_to_vrt memory base size address ≡ o
      → s.initialized ≡ false
      → (init_at memory base size s o).initialized ≡ true
      → IsRsdp address (init_at memory base size s o)
  unfolding init_at
  init_at-IsRsdp address s none m f = λ e. absurd (true≢false (sym e ∙ f))
  init_at-IsRsdp address s (some rsdp) m f =
      elim (Bool-cases (signature_match memory rsdp (rsdp_signature memory base size))) [
        | inr unnamed ↦ rw unnamed (λ e. absurd (true≢false (sym e ∙ f)))
        | inl named ↦ elim (Bool-cases (validate_checksum memory (some rsdp) 20)) [
          | inr invalid ↦ rw (named, invalid) (λ e. absurd (true≢false (sym e ∙ f)))
          | inl valid ↦
              elim (Bool-cases
                (leb 2 (u8_at memory (rsdp + 15)) && (u64_at memory (rsdp + 24) != 0))) [
                  | inr old ↦
                      rw (named, valid, old)
                        (λ e. record {
                          rsdp = rsdp;
                          mapped = m;
                          named = named;
                          valid = valid;
                          valid_extended = λ x. absurd (true≢false (sym x));
                          has_root = ground arith;
                        })
                  | inl extended ↦
                      elim (Bool-cases
                        (validate_checksum memory (some rsdp) (u32_at memory (rsdp + 20)))) [
                          | inr invalid ↦
                              rw (named, valid, extended, invalid)
                                (λ e. absurd (true≢false (sym e ∙ f)))
                          | inl valid_extended ↦
                              rw (named, valid, extended, valid_extended)
                                (λ e. record {
                                  rsdp = rsdp;
                                  mapped = m;
                                  named = named;
                                  valid = valid;
                                  valid_extended = λ x. valid_extended;
                                  has_root = ground arith;
                                })
                        ]
                ]
        ]
      ]

  -- `init_acpi` succeeds only with a descriptor that is mapped and has the signature and a valid
  -- checksum, the extended one as well when its 64-bit root is taken, and with a root table that is
  -- not null. Without a descriptor in the boot information, or with one at address 0, it reports an
  -- error and keeps the state, so the tables that were found before still are. When it reports an
  -- error on a descriptor that the boot information has, at another address, no table is found
  -- afterwards.
  pub init_acpi_lem :
      (s : Acpi) (present : Bool) (rsdp_base : ℕ)
      → let (s', done) = init_acpi memory base size s present rsdp_base in
        (done ≡ true → IsRsdp rsdp_base s')
        × ((present ≡ false) ⊎ (rsdp_base ≡ 0) → (done ≡ false) × (s' ≡ s))
        × (done ≡ false
            → present ≡ true
            → 0 < rsdp_base
            → (signature : List ℕ) → find_table memory base size s' signature ≡ none)
  unfolding init_acpi init find_table
  init_acpi_lem s present rsdp_base = elim (Bool-cases (not present || (rsdp_base == 0))) [
    | inl absent ↦ rw absent (
      λ e. absurd (true≢false (sym e)),
      λ w. (refl, refl),
      λ e p b signature. absurd (ground arith),
    )
    | inr given ↦
        let z : (rsdp_base == 0) ≡ false = ground arith in
        rw (given, z)
          (
            init_at-IsRsdp rsdp_base
                (record {
                  rsdp_phys = rsdp_base;
                  sdt_root_phys = 0;
                  is_xsdt = false;
                  initialized = false;
                })
                (phy_to_vrt memory base size rsdp_base) refl refl,
            λ w. absurd (elim w [ inl e ↦ ground arith | inr e ↦ ground arith ]),
            λ e p b signature. rw e refl,
          )
  ]

  -- What a call of `get_madt_info` that finds `found` may leave of a cache.
  pub record IsLookup (cache cache' : MadtCache) (found : Option ℕ) : Type 0 where
    pub bounded : IsBounded cache'.info
    pub keeps_parsed : cache.parsed ≡ true → cache' ≡ cache
    pub keeps_unfound : found ≡ none → cache' ≡ cache
    pub keeps_short :
        (header : ℕ) → found ≡ some header → sdt_length memory header < 44 → cache' ≡ cache
    pub parses :
        (header : ℕ)
        → cache.parsed ≡ false
        → found ≡ some header
        → 44 ≤ sdt_length memory header
        → (parse_madt memory (some header) ≡ some cache'.info)
          × ((t : Acpi) → get_madt_info memory base size t cache' ≡ some cache')

  get_madt_info-parsed :
      (t : Acpi) (cache : MadtCache)
      → cache.parsed ≡ true
      → get_madt_info memory base size t cache ≡ some cache
  unfolding get_madt_info
  get_madt_info-parsed t cache e =
      ap
        (λ p.
          if p
          then some cache
          else cache_found memory cache (find_table memory base size t (madt_signature memory)))
        e

  get_madt_info-fresh :
      (t : Acpi) (cache : MadtCache)
      → cache.parsed ≡ false
      → get_madt_info memory base size t cache
        ≡ cache_found memory cache (find_table memory base size t (madt_signature memory))
  unfolding get_madt_info
  get_madt_info-fresh t cache e =
      ap
        (λ p.
          if p
          then some cache
          else cache_found memory cache (find_table memory base size t (madt_signature memory)))
        e

  -- A cache that is not filled yet, by what is found.
  cache_found-IsLookup :
      (cache : MadtCache) (found : Option ℕ)
      → cache.parsed ≡ false
      → IsBounded cache.info
      → (cache' : MadtCache) × (cache_found memory cache found ≡ some cache')
        × IsLookup cache cache' found
  unfolding cache_madt
  cache_found-IsLookup cache none fresh b = (
    cache,
    refl,
    record {
      bounded = b;
      keeps_parsed = λ e. refl;
      keeps_unfound = λ e. refl;
      keeps_short = λ h e l. refl;
      parses = λ h f e l. absurd (none≢some h e);
    },
  )
  cache_found-IsLookup cache (some header) fresh b =
      elim (Bool-cases (ltb (sdt_length memory header) 44)) [
        | inl short ↦ (
          cache,
          rw short refl,
          record {
            bounded = b;
            keeps_parsed = λ e. refl;
            keeps_unfound = λ e. refl;
            keeps_short = λ h e l. refl;
            parses = λ h f e l.
                let k = some-injective header h e in
                let l' : 44 ≤ sdt_length memory header = rw k l in absurd (ground arith);
          },
        )
        | inr long ↦
            let (info, e, b') = parse_madt_lem memory (some header) in
            let filled : MadtCache = record { info = info; parsed = true } in
            (
              filled,
              rw (long, e) refl,
              record {
                bounded = b';
                keeps_parsed = λ p. absurd (true≢false (sym p ∙ fresh));
                keeps_unfound = λ n. absurd (none≢some header (sym n));
                keeps_short = λ h f l.
                    let k = some-injective header h f in
                    let l' : sdt_length memory header < 44 = rw k l in absurd (ground arith);
                parses = λ h f g l. (
                  rw (sym (some-injective header h g)) e,
                  λ t. get_madt_info-parsed t filled refl,
                );
              },
            )
      ]

  -- `get_madt_info` ends, with a cache whose counts stay within its arrays. It leaves the cache as it
  -- is when a table was parsed before, and when no table is found or the one found is shorter than its
  -- header. From a cache that is not filled yet, a table that is found and long enough is parsed, and
  -- from then on the same information is given whatever tables there are to be found.
  pub get_madt_info_lem :
      (s : Acpi) (cache : MadtCache)
      → IsBounded cache.info
      → (cache' : MadtCache) × (get_madt_info memory base size s cache ≡ some cache')
        × IsLookup cache cache' (find_table memory base size s (madt_signature memory))
  get_madt_info_lem s cache b = elim (Bool-cases cache.parsed) [
    | inl parsed ↦ (
      cache,
      get_madt_info-parsed s cache parsed,
      record {
        bounded = b;
        keeps_parsed = λ e. refl;
        keeps_unfound = λ e. refl;
        keeps_short = λ h e l. refl;
        parses = λ h f e l. absurd (true≢false (sym parsed ∙ f));
      },
    )
    | inr fresh ↦
        let (cache', e, l) =
          cache_found-IsLookup cache (find_table memory base size s (madt_signature memory)) fresh
            b in
        (cache', get_madt_info-fresh s cache fresh ∙ e, l)
  ]
