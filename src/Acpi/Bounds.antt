-- ===== src/Acpi/Bounds.antt =====
-- `parse_madt` of kernel/acpi/madt.cpp: it ends and stays within its arrays.
use doom_os.Base.{
  ℕ, zero, suc, ◌+◌, ◌<◌, ◌≤◌, ◌≡◌, refl, Option, none, some, length, length-append, ltb, leb, ◌==◌,
  arith, Bool-cases, inl, inr, [], ◌∷◌,
}
use doom_os.Acpi.{
  Memory, u8_at, MadtInfo, empty_madt_info, max_cpus, max_ioapics, max_isos, add_cpu, add_ioapic,
  add_iso, ProcessorInfo, IoapicRecord, IsoRecord, lapic_at, x2apic_at, ioapic_at, iso_at,
  parse_entry, parse_entries, parse_madt, sdt_length, u32_at,
}

-- The counts of a table stay within the arrays.
pub record IsBounded (info : MadtInfo) : Type 0 where
  pub few_cpus : length info.cpus ≤ max_cpus
  pub few_ioapics : length info.ioapics ≤ max_ioapics
  pub few_isos : length info.isos ≤ max_isos

module _ (memory : Memory) where
  add_cpu-IsBounded :
      (cpu : ProcessorInfo) (info : MadtInfo) → IsBounded info → IsBounded (add_cpu memory cpu info)
  add_cpu-IsBounded cpu info b = elim (Bool-cases (ltb (length info.cpus) max_cpus)) [
    | inr full ↦ rw full b
    | inl room ↦ rw room record {
      few_cpus = let e = length-append info.cpus (cpu ∷ []) in ground arith;
      few_ioapics = b.few_ioapics;
      few_isos = b.few_isos;
    }
  ]

  add_ioapic-IsBounded :
      (r : IoapicRecord) (info : MadtInfo) → IsBounded info → IsBounded (add_ioapic memory r info)
  add_ioapic-IsBounded r info b = elim (Bool-cases (ltb (length info.ioapics) max_ioapics)) [
    | inr full ↦ rw full b
    | inl room ↦ rw room record {
      few_cpus = b.few_cpus;
      few_ioapics = let e = length-append info.ioapics (r ∷ []) in ground arith;
      few_isos = b.few_isos;
    }
  ]

  add_iso-IsBounded :
      (r : IsoRecord) (info : MadtInfo) → IsBounded info → IsBounded (add_iso memory r info)
  add_iso-IsBounded r info b = elim (Bool-cases (ltb (length info.isos) max_isos)) [
    | inr full ↦ rw full b
    | inl room ↦ rw room record {
      few_cpus = b.few_cpus;
      few_ioapics = b.few_ioapics;
      few_isos = let e = length-append info.isos (r ∷ []) in ground arith;
    }
  ]

  parse_entry-IsBounded :
      (at size : ℕ) (info : MadtInfo) → IsBounded info → IsBounded (parse_entry memory at size info)
  unfolding parse_entry
  parse_entry-IsBounded at size info b = elim (Bool-cases (u8_at memory at == 0)) [
    | inl t0 ↦ elim (Bool-cases (leb 8 size)) [
      | inl l ↦ rw (t0, l) (add_cpu-IsBounded (lapic_at memory at) info b)
      | inr l ↦ rw (t0, l) b
    ]
    | inr f0 ↦ elim (Bool-cases (u8_at memory at == 1)) [
      | inl t1 ↦ elim (Bool-cases (leb 12 size)) [
        | inl l ↦ rw (f0, t1, l) (add_ioapic-IsBounded (ioapic_at memory at) info b)
        | inr l ↦ rw (f0, t1, l) b
      ]
      | inr f1 ↦ elim (Bool-cases (u8_at memory at == 2)) [
        | inl t2 ↦ elim (Bool-cases (leb 10 size)) [
          | inl l ↦ rw (f0, f1, t2, l) (add_iso-IsBounded (iso_at memory at) info b)
          | inr l ↦ rw (f0, f1, t2, l) b
        ]
        | inr f2 ↦ elim (Bool-cases (u8_at memory at == 5)) [
          | inl t5 ↦ elim (Bool-cases (leb 12 size)) [
            | inl l ↦
                rw (f0, f1, f2, t5, l)
                  record {
                    few_cpus = b.few_cpus;
                    few_ioapics = b.few_ioapics;
                    few_isos = b.few_isos;
                  }
            | inr l ↦ rw (f0, f1, f2, t5, l) b
          ]
          | inr f5 ↦ elim (Bool-cases (u8_at memory at == 9)) [
            | inl t9 ↦ elim (Bool-cases (leb 16 size)) [
              | inl l ↦ rw (f0, f1, f2, f5, t9, l) (add_cpu-IsBounded (x2apic_at memory at) info b)
              | inr l ↦ rw (f0, f1, f2, f5, t9, l) b
            ]
            | inr f9 ↦ rw (f0, f1, f2, f5, f9) b
          ]
        ]
      ]
    ]
  ]

  parse_entries-IsBounded :
      (fuel at end : ℕ) (info : MadtInfo)
      → end < at + fuel
      → 0 < fuel
      → IsBounded info
      → (info' : MadtInfo) × (parse_entries memory at end fuel info ≡ some info') × IsBounded info'
  unfolding parse_entries
  parse_entries-IsBounded zero at end info h p b = absurd (omega arith)
  parse_entries-IsBounded (suc fuel) at end info h p b =
      let size = u8_at memory (at + 1) in
      elim (Bool-cases (ltb end (at + 2))) [
        | inl over ↦ (info, rw over refl, b)
        | inr more ↦ elim (Bool-cases (ltb size 2)) [
          | inl short ↦ (info, rw (more, short) refl, b)
          | inr long ↦ elim (Bool-cases (ltb end (at + size))) [
            | inl outside ↦ (info, rw (more, long, outside) refl, b)
            | inr within ↦
                let (info', e, b') =
                  parse_entries-IsBounded fuel (at + size) end (parse_entry memory at size info)
                    (ground arith) (ground arith) (parse_entry-IsBounded at size info b) in
                (info', rw (more, long, within) e, b')
          ]
        ]
      ]

  -- `parse_madt` ends on whatever table it is given, and has then filled no more than the 64
  -- processors, 8 interrupt controllers and 32 overrides that its arrays hold.
  pub parse_madt_lem :
      (view : Option ℕ) → (info : MadtInfo) × (parse_madt memory view ≡ some info) × IsBounded info
  unfolding parse_madt
  parse_madt_lem none = (
    empty_madt_info,
    refl,
    record { few_cpus = omega arith; few_ioapics = omega arith; few_isos = omega arith },
  )
  parse_madt_lem (some header) = elim (Bool-cases (ltb (sdt_length memory header) 44)) [
    | inl short ↦ (
      empty_madt_info,
      rw short refl,
      record { few_cpus = omega arith; few_ioapics = omega arith; few_isos = omega arith },
    )
    | inr long ↦
        let (info, e, b) =
          parse_entries-IsBounded (sdt_length memory header + 1) (header + 44)
            (header + sdt_length memory header)
            (record empty_madt_info {
              lapic_address = u32_at memory (header + 36);
              flags = u32_at memory (header + 40);
            })
            (omega arith) (omega arith)
            record { few_cpus = omega arith; few_ioapics = omega arith; few_isos = omega arith } in
        (info, rw long e, b)
  ]
