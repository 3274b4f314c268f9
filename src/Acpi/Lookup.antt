-- ===== src/Acpi/Lookup.antt =====
-- `find_table` of kernel/acpi/acpi.cpp: the first table of the root with the signature and a valid
-- checksum.
use doom_os.Base.{
  ℕ, zero, suc, ◌+◌, ◌<◌, ◌≤◌, ◌≡◌, ◌≢◌, refl, sym, ap, ◌∙◌, Bool, true, false, ◌&&◌, List, Option,
  none, some, ltb, ◌==◌, arith, Bool-cases, inl, inr,
}
use mathlib.Core.Option.{some-injective}
use mathlib.Core.Bool.{true≢false}
use doom_os.Acpi.{
  Memory, Acpi, sdt_length, sdt_header_size, validate_checksum, signature_match, phy_to_vrt,
  entry_at, entry_count, checked, table_of, or_next, search_from, find_in_root, find_table,
}

abbrev is_found : Option ℕ → Bool
is_found none = false
is_found (some header) = true

pub none≢some : (header : ℕ) → none ≢ some header
none≢some header e = true≢false (ap is_found (sym e))

module _ (memory : Memory) (base size : ℕ) where
  -- The table at a physical address is mapped, has the signature and a valid checksum.
  pub record IsTable (signature : List ℕ) (phys header : ℕ) : Type 0 where
    pub not_null : 0 < phys
    pub mapped : phy_to_vrt memory base size phys ≡ some header
    pub named : signature_match memory header signature ≡ true
    pub valid : validate_checksum memory (some header) (sdt_length memory header) ≡ true

  table_of-IsTable :
      (signature : List ℕ) (phys header : ℕ)
      → table_of memory base size signature phys ≡ some header
      → IsTable signature phys header
  unfolding table_of
  table_of-IsTable signature phys header e = elim (Bool-cases (phys == 0)) [
    | inl null ↦ absurd (none≢some header (rw null at e))
    | inr not_null ↦
        checked-sound (ground arith) (phy_to_vrt memory base size phys) refl (rw not_null at e)
  ]
    where
      checked-sound :
          0 < phys
          → (o : Option ℕ) → phy_to_vrt memory base size phys ≡ o
          → checked memory base size signature o ≡ some header
          → IsTable signature phys header
      checked-sound not_zero none m e = absurd (none≢some header e)
      checked-sound not_zero (some h) m e =
          elim (Bool-cases (
            signature_match memory h signature
            && validate_checksum memory (some h) (sdt_length memory h))) [
              | inr bad ↦ absurd (none≢some header (rw bad at e))
              | inl good ↦
                  let k : h ≡ header = some-injective h header (rw good at e) in
                  let named : signature_match memory h signature ≡ true = ground arith in
                  let valid : validate_checksum memory (some h) (sdt_length memory h) ≡ true =
                    ground arith in
                  record {
                    not_null = not_zero;
                    mapped = m ∙ ap some k;
                    named = rw (sym k) named;
                    valid = rw (sym k) valid;
                  }
            ]

  IsTable-table_of :
      (signature : List ℕ) (phys header : ℕ)
      → IsTable signature phys header
      → table_of memory base size signature phys ≡ some header
  unfolding table_of
  IsTable-table_of signature phys header t =
      let z : (phys == 0) ≡ false = let p = t.not_null in ground arith in
      rw (z, t.mapped, t.named, t.valid) refl

  -- The first of the entries from i on, n of them, that leads to such a table, or none.
  abbrev pub IsFirst : Bool → List ℕ → ℕ → ℕ → ℕ → Option ℕ → Type 0
  IsFirst wide signature entries i n none =
      (j header : ℕ)
      → i ≤ j
      → j < i + n
      → ¬ IsTable signature (entry_at memory base size wide entries j) header
  IsFirst wide signature entries i n (some header) =
      (j : ℕ) × (i ≤ j)
      × (j < i + n)
      × IsTable signature (entry_at memory base size wide entries j) header
      × ((k other : ℕ)
          → i ≤ k
          → k < j
          → ¬ IsTable signature (entry_at memory base size wide entries k) other)

  no-IsTable :
      (signature : List ℕ) (phys : ℕ)
      → table_of memory base size signature phys ≡ none
      → (header : ℕ) → ¬ IsTable signature phys header
  no-IsTable signature phys e header t =
      none≢some header (sym e ∙ IsTable-table_of signature phys header t)

  search_from-IsFirst :
      (wide : Bool) (signature : List ℕ) (entries i n : ℕ)
      → IsFirst wide signature entries i n (search_from memory base size wide signature entries i n)
  unfolding search_from
  search_from-IsFirst wide signature entries i zero = λ j header l h t. absurd (omega arith)
  search_from-IsFirst wide signature entries i (suc n) =
      here (table_of memory base size signature (entry_at memory base size wide entries i)) refl
        (search_from memory base size wide signature entries (i + 1) n)
        (search_from-IsFirst wide signature entries (i + 1) n)
    where
      here :
          (o : Option ℕ)
          → table_of memory base size signature (entry_at memory base size wide entries i) ≡ o
          → (r : Option ℕ) → IsFirst wide signature entries (i + 1) n r
          → IsFirst wide signature entries i (suc n) (or_next memory base size o r)
      here (some header) e r f = (
        i,
        omega arith,
        omega arith,
        table_of-IsTable signature _ header e,
        λ k other l h t. absurd (omega arith),
      )
      here none e none f = λ j header l h t. elim (Bool-cases (j == i)) [
        | inl first ↦
            let k : j ≡ i = ground arith in
            no-IsTable signature (entry_at memory base size wide entries i) e header (rw k at t)
        | inr later ↦ f j header (ground arith) (omega arith) t
      ]
      here none e (some header) (j, l, h, t, before) = (
        j,
        omega arith,
        omega arith,
        t,
        λ k other l' h' t'. elim (Bool-cases (k == i)) [
          | inl first ↦
              let q : k ≡ i = ground arith in
              no-IsTable signature (entry_at memory base size wide entries i) e other (rw q at t')
          | inr later ↦ before k other (ground arith) h' t'
        ],
      )

  -- The root table is found, long enough and valid.
  pub record IsRoot (s : Acpi) (root : ℕ) : Type 0 where
    pub initialized : s.initialized ≡ true
    pub mapped : phy_to_vrt memory base size s.sdt_root_phys ≡ some root
    pub valid : validate_checksum memory (some root) (sdt_length memory root) ≡ true
    pub long : sdt_header_size ≤ sdt_length memory root

  -- `find_table`, with a root table that is mapped, valid and as long as a header, gives the first
  -- table among the root's entries that is mapped and has the signature and a valid checksum, and
  -- none if there is no such entry.
  pub find_table_lem :
      (s : Acpi) (signature : List ℕ) (root : ℕ)
      → IsRoot s root
      → IsFirst s.is_xsdt signature
          (root + sdt_header_size)
          0
          (entry_count memory base size s.is_xsdt root)
          (find_table memory base size s signature)
  unfolding find_table find_in_root
  find_table_lem s signature root r =
      let long : ltb (sdt_length memory root) sdt_header_size ≡ false =
        let l = r.long in ground arith in
      rw (r.initialized, r.mapped, r.valid, long)
        (search_from-IsFirst s.is_xsdt signature (root + sdt_header_size) 0
          (entry_count memory base size s.is_xsdt root))
