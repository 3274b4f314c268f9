-- ===== src/Acpi/Checksum.antt =====
-- `validate_checksum` of kernel/acpi/acpi.cpp against the sum of the bytes.
use doom_os.Base.{
  ℕ, zero, suc, ◌+◌, ◌%◌, ◌^◌, ◌<◌, ◌≡◌, refl, sym, ◌∙◌, ◌↔◌, ◌==◌, true, false, Option, none, some,
  if◌then◌else◌, arith,
}
use mathlib.Core.Bool.{true≢false}
use mathlib.Core.Option.{some-injective}
use doom_os.Acpi.Lookup.{none≢some}
use doom_os.Acpi.{Memory, u8_at, checksum_from, validate_checksum}

module _ (memory : Memory) where
  -- The sum of the bytes of a table.
  abbrev pub byte_sum : ℕ → ℕ → ℕ
  byte_sum at zero = 0
  byte_sum at (suc n) = u8_at memory at + byte_sum (at + 1) n

  checksum_from-byte_sum :
      (at n sum : ℕ) → checksum_from memory at n (sum % 2 ^ 8) ≡ (sum + byte_sum at n) % 2 ^ 8
  unfolding checksum_from
  checksum_from-byte_sum at zero sum = omega arith
  checksum_from-byte_sum at (suc n) sum =
      let e : (sum % 2 ^ 8 + u8_at memory at) % 2 ^ 8 ≡ (sum + u8_at memory at) % 2 ^ 8 =
        omega arith in
      rw e (checksum_from-byte_sum (at + 1) n (sum + u8_at memory at) ∙ omega arith)

  -- `validate_checksum` accepts a pointer and a length exactly when the pointer is not null, the length
  -- is not 0 and the sum of that many bytes there, taken without wrap-around, is a multiple of 256.
  pub validate_checksum_lem :
      (pointer : Option ℕ) (n : ℕ)
      → (validate_checksum memory pointer n ≡ true)
        ↔ ((a : ℕ) × (pointer ≡ some a) × (0 < n) × (byte_sum a n % 256 ≡ 0))
  unfolding validate_checksum
  validate_checksum_lem none n =
      (λ h. absurd (true≢false (sym h)), λ (a, e, p, z). absurd (none≢some a e))
  validate_checksum_lem (some pointer) n = (to, from)
    where
      to :
          ((if n == 0 then false else checksum_from memory pointer n 0 == 0) ≡ true)
          → (a : ℕ) × (some pointer ≡ some a) × (0 < n) × (byte_sum a n % 256 ≡ 0)
      to h =
          let e = checksum_from-byte_sum pointer n 0 in (pointer, refl, ground arith, ground arith)

      from :
          (a : ℕ) × (some pointer ≡ some a) × (0 < n) × (byte_sum a n % 256 ≡ 0)
          → (if n == 0 then false else checksum_from memory pointer n 0 == 0) ≡ true
      from (a, k, p, z) =
          let e = checksum_from-byte_sum pointer n 0 in
          let z' : byte_sum pointer n % 256 ≡ 0 = rw (some-injective pointer a k) z in ground arith
