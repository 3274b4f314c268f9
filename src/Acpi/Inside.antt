-- ===== src/Acpi/Inside.antt =====
-- `parse_madt` of kernel/acpi/madt.cpp reads no byte outside the table.
use doom_os.Base.{
  ℕ, zero, suc, ◌+◌, ◌%◌, ◌^◌, ◌<◌, ◌≤◌, ◌≡◌, refl, ap, some, ltb, leb, ◌==◌, arith, Bool-cases,
  inl, inr,
}
use doom_os.Acpi.{
  Memory, u8_at, u16_at, u32_at, u64_at, MadtInfo, add_cpu, add_ioapic, add_iso, lapic_at,
  x2apic_at, ioapic_at, iso_at, parse_entry, parse_entries, parse_madt, sdt_length,
}

module _ (m m' : Memory) (low high : ℕ) (same : (a : ℕ) → low ≤ a → a < high → m a ≡ m' a) where
  u8_at-same : (a : ℕ) → low ≤ a → a + 1 ≤ high → u8_at m a ≡ u8_at m' a
  u8_at-same a l h = ap (λ n. n % 2 ^ 8) (same a l (omega arith))

  u16_at-same : (a : ℕ) → low ≤ a → a + 2 ≤ high → u16_at m a ≡ u16_at m' a
  unfolding u16_at
  u16_at-same a l h =
      rw (u8_at-same a l (omega arith), u8_at-same (a + 1) (omega arith) (omega arith)) refl

  u32_at-same : (a : ℕ) → low ≤ a → a + 4 ≤ high → u32_at m a ≡ u32_at m' a
  unfolding u32_at
  u32_at-same a l h =
      rw (u16_at-same a l (omega arith), u16_at-same (a + 2) (omega arith) (omega arith)) refl

  u64_at-same : (a : ℕ) → low ≤ a → a + 8 ≤ high → u64_at m a ≡ u64_at m' a
  unfolding u64_at
  u64_at-same a l h =
      rw (u32_at-same a l (omega arith), u32_at-same (a + 4) (omega arith) (omega arith)) refl

  -- An entry that lies in the table.
  module _ (at size : ℕ) (l : low ≤ at) (h : at + size ≤ high) where
    lapic_at-same : 8 ≤ size → lapic_at m at ≡ lapic_at m' at
    lapic_at-same s =
        rw
          (
            u8_at-same (at + 3) (omega arith) (omega arith),
            u8_at-same (at + 2) (omega arith) (omega arith),
            u32_at-same (at + 4) (omega arith) (omega arith),
          )
          refl

    x2apic_at-same : 16 ≤ size → x2apic_at m at ≡ x2apic_at m' at
    x2apic_at-same s =
        rw
          (
            u32_at-same (at + 4) (omega arith) (omega arith),
            u32_at-same (at + 12) (omega arith) (omega arith),
            u32_at-same (at + 8) (omega arith) (omega arith),
          )
          refl

    ioapic_at-same : 12 ≤ size → ioapic_at m at ≡ ioapic_at m' at
    ioapic_at-same s =
        rw
          (
            u8_at-same (at + 2) (omega arith) (omega arith),
            u32_at-same (at + 4) (omega arith) (omega arith),
            u32_at-same (at + 8) (omega arith) (omega arith),
          )
          refl

    iso_at-same : 10 ≤ size → iso_at m at ≡ iso_at m' at
    iso_at-same s =
        rw
          (
            u8_at-same (at + 2) (omega arith) (omega arith),
            u8_at-same (at + 3) (omega arith) (omega arith),
            u32_at-same (at + 4) (omega arith) (omega arith),
            u16_at-same (at + 8) (omega arith) (omega arith),
          )
          refl

    parse_entry-same :
        (info : MadtInfo) → 2 ≤ size → parse_entry m at size info ≡ parse_entry m' at size info
    unfolding parse_entry
    parse_entry-same info s =
        rw (u8_at-same at l (omega arith)) (elim (Bool-cases (u8_at m' at == 0)) [
          | inl t0 ↦ elim (Bool-cases (leb 8 size)) [
            | inl k ↦ rw (t0, k) (ap (λ c. add_cpu m' c info) (lapic_at-same (ground arith)))
            | inr k ↦ rw (t0, k) refl
          ]
          | inr f0 ↦ elim (Bool-cases (u8_at m' at == 1)) [
            | inl t1 ↦ elim (Bool-cases (leb 12 size)) [
              | inl k ↦
                  rw (f0, t1, k) (ap (λ c. add_ioapic m' c info) (ioapic_at-same (ground arith)))
              | inr k ↦ rw (f0, t1, k) refl
            ]
            | inr f1 ↦ elim (Bool-cases (u8_at m' at == 2)) [
              | inl t2 ↦ elim (Bool-cases (leb 10 size)) [
                | inl k ↦
                    rw (f0, f1, t2, k) (ap (λ c. add_iso m' c info) (iso_at-same (ground arith)))
                | inr k ↦ rw (f0, f1, t2, k) refl
              ]
              | inr f2 ↦ elim (Bool-cases (u8_at m' at == 5)) [
                | inl t5 ↦ elim (Bool-cases (leb 12 size)) [
                  | inl k ↦
                      rw (f0, f1, f2, t5, k)
                        (ap (λ a. record info { lapic_address = a })
                          (u64_at-same (at + 4) (omega arith) (ground arith)))
                  | inr k ↦ rw (f0, f1, f2, t5, k) refl
                ]
                | inr f5 ↦ elim (Bool-cases (u8_at m' at == 9)) [
                  | inl t9 ↦ elim (Bool-cases (leb 16 size)) [
                    | inl k ↦
                        rw (f0, f1, f2, f5, t9, k)
                          (ap (λ c. add_cpu m' c info) (x2apic_at-same (ground arith)))
                    | inr k ↦ rw (f0, f1, f2, f5, t9, k) refl
                  ]
                  | inr f9 ↦ rw (f0, f1, f2, f5, f9) refl
                ]
              ]
            ]
          ]
        ])

  parse_entries-same :
      (fuel at : ℕ) (info : MadtInfo)
      → low ≤ at
      → parse_entries m at high fuel info ≡ parse_entries m' at high fuel info
  unfolding parse_entries
  parse_entries-same zero at info l = refl
  parse_entries-same (suc fuel) at info l = elim (Bool-cases (ltb high (at + 2))) [
    | inl over ↦ rw over refl
    | inr more ↦
        let e : u8_at m (at + 1) ≡ u8_at m' (at + 1) =
          u8_at-same (at + 1) (omega arith) (ground arith) in
        let size = u8_at m' (at + 1) in
        rw (more, e)
          (elim (Bool-cases (ltb size 2)) [
            | inl short ↦ rw short refl
            | inr long ↦ elim (Bool-cases (ltb high (at + size))) [
              | inl outside ↦ rw (long, outside) refl
              | inr within ↦
                  rw (long, within, parse_entry-same at size l (ground arith) info (ground arith))
                    (parse_entries-same fuel (at + size) (parse_entry m' at size info)
                      (omega arith))
            ]
          ])
  ]

-- `parse_madt` gives the same result on two memories that hold the same bytes in the table, from its
-- header on for the length that the header gives, and at least the 36 bytes of the header: it reads
-- no other byte, whatever lengths the entries claim.
pub parse_madt-same :
    (m m' : Memory) (header n : ℕ)
    → 36 ≤ n
    → sdt_length m header ≤ n
    → ((a : ℕ) → header ≤ a → a < header + n → m a ≡ m' a)
    → parse_madt m (some header) ≡ parse_madt m' (some header)
unfolding parse_madt
parse_madt-same m m' header n long h same =
    let e = u32_at-same m m' header (header + n) same (header + 4) (omega arith) (omega arith) in
    elim (Bool-cases (ltb (u32_at m' (header + 4)) 44)) [
      | inl short ↦ rw (e, short) refl
      | inr full ↦
          let k = rw e at h in
          let inside : (a : ℕ) → header ≤ a → a < header + u32_at m' (header + 4) → m a ≡ m' a =
            λ a l r. same a l (omega arith) in
          let a1 =
            u32_at-same m m' header (header + n) same (header + 36) (omega arith) (ground arith) in
          let a2 =
            u32_at-same m m' header (header + n) same (header + 40) (omega arith) (ground arith) in
          rw (e, full, a1, a2)
            (parse_entries-same m m' header (header + u32_at m' (header + 4)) inside _ (header + 44)
              _ (omega arith))
    ]
