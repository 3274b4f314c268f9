-- ===== src/Kprint/Numbers.antt =====
-- Numbers printed without a format (kernel/debug/kprint.cpp).
use native.Mathlib.Nat.{
  pow-succ', div-add-mod, mul-le-mul_right, mul-add-mod_self_left, mod-eq_of_lt, mod-lt, one-le-pow,
}
use doom_os.Base.{
  ℕ, zero, suc, ◌+◌, ◌*◌, ◌/◌, ◌%◌, ◌^◌, ◌≤◌, ◌<◌, ◌≡◌, refl, sym, ap, ◌∙◌, false, [], ◌∷◌, some,
  get_or, length, bit_and, ◌==◌, arith, Bool-cases, inl, inr,
}
use doom_os.Emit.{
  Output, cons_some, reverse_some, decimal_reverse, format_u64_decimal, hex_digits_upper,
}
use doom_os.Emit.Radix.{digit_value, read_from, read, hex_digit_upper-digit_value}
use doom_os.Bits.Words.{bit_and-low_mask}
use doom_os.Kprint.{decimal_buffer, emit_decimal_u64, hex_buffer, emit_hex_u64}

decimal_buffer-zero : (slots : ℕ) → decimal_buffer slots 0 ≡ some []
unfolding decimal_buffer
decimal_buffer-zero zero = refl
decimal_buffer-zero (suc slots) = refl

decimal_buffer-decimal_reverse :
    (slots value : ℕ)
    → (value == 0) ≡ false
    → decimal_buffer slots value ≡ decimal_reverse slots value
unfolding decimal_buffer decimal_reverse
decimal_buffer-decimal_reverse zero value e = rw e refl
decimal_buffer-decimal_reverse (suc slots) value e = elim (Bool-cases (value / 10 == 0)) [
  | inl last ↦ let z : value / 10 ≡ 0 = ground arith in rw (e, z, decimal_buffer-zero slots) refl
  | inr more ↦
      rw (e, more)
        (ap (cons_some ((48 + value % 10) % 256))
          (decimal_buffer-decimal_reverse slots (value / 10) more))
]

emit_zero : emit_decimal_u64 0 ≡ format_u64_decimal 0
unfolding emit_decimal_u64 format_u64_decimal decimal_reverse
emit_zero = refl

-- The two printers of a number in decimal, `emit_decimal_u64` and `format_u64_decimal`, agree.
pub emit_decimal_u64-format_u64_decimal :
    (value : ℕ) → emit_decimal_u64 value ≡ format_u64_decimal value
unfolding emit_decimal_u64 format_u64_decimal
emit_decimal_u64-format_u64_decimal value = elim (Bool-cases (value == 0)) [
  | inl zero_value ↦ let z : value ≡ 0 = ground arith in rw z emit_zero
  | inr other ↦ rw other (ap reverse_some (decimal_buffer-decimal_reverse 20 value other))
]

-- A number has the digits above, and those below, in base 16.
mod-sixteen_mul : (m x : ℕ) → 0 < m → x % (m * 16) ≡ x / m % 16 * m + x % m
mod-sixteen_mul m x h =
    let q = x / m in
    let k : m * (16 * (q / 16) + q % 16) ≡ m * 16 * (q / 16) + q % 16 * m = grind arith in
    let e : x ≡ m * 16 * (q / 16) + (q % 16 * m + x % m) =
      sym (div-add-mod x m) ∙ ap (λ t. m * t + x % m) (sym (div-add-mod q 16)) ∙ omega (arith, k) in
    let small : q % 16 * m ≤ 15 * m = mul-le-mul_right m (omega arith) in
    ap (λ t. t % (m * 16)) e
    ∙ mul-add-mod_self_left (m * 16) (q / 16) (q % 16 * m + x % m)
    ∙ mod-eq_of_lt (omega (arith, mod-lt x h))

pow_four_mul : (k : ℕ) → 2 ^ (4 * k) ≡ 16 ^ k
pow_four_mul zero = refl
pow_four_mul (suc k) =
    let e : 4 * suc k ≡ suc (suc (suc (suc (4 * k)))) = omega arith in
    rw e (
      omega (
        arith,
        pow-succ' 2 (4 * k),
        pow-succ' 2 (suc (4 * k)),
        pow-succ' 2 (suc (suc (4 * k))),
        pow-succ' 2 (suc (suc (suc (4 * k)))),
        pow-succ' 16 k,
        pow_four_mul k,
      ))

hex_buffer-read_from :
    (value digits acc : ℕ)
    → read_from 16 acc (hex_buffer value digits) ≡ acc * 16 ^ digits + value % 16 ^ digits
unfolding hex_buffer
hex_buffer-read_from value zero acc = omega arith
hex_buffer-read_from value (suc digits) acc =
    let d = value / 2 ^ (4 * digits) in
    let e : digit_value (get_or hex_digits_upper (bit_and d 15) 0) ≡ value / 16 ^ digits % 16 =
      rw
        (
          bit_and-low_mask 4 d,
          hex_digit_upper-digit_value (d % 16) (omega arith),
          pow_four_mul digits,
        )
        refl in
    let h : 0 < 16 ^ digits = one-le-pow digits 16 (omega arith) in
    let p : 16 ^ suc digits ≡ 16 ^ digits * 16 = omega (arith, pow-succ' 16 digits) in
    hex_buffer-read_from value digits
      (acc * 16 + digit_value (get_or hex_digits_upper (bit_and d 15) 0))
    ∙ ap (λ t. (acc * 16 + t) * 16 ^ digits + value % 16 ^ digits) e
    ∙ rw (p, mod-sixteen_mul (16 ^ digits) value h) (grind arith)

hex_buffer-length : (value digits : ℕ) → length (hex_buffer value digits) ≡ digits
unfolding hex_buffer
hex_buffer-length value zero = refl
hex_buffer-length value (suc digits) = ap suc (hex_buffer-length value digits)

-- `emit_hex_u64` of a 64-bit number writes `0x` and then 16 digits, which fill its buffer of 18
-- characters and read from left to right as the number.
pub emit_hex_u64_lem :
    (value : ℕ)
    → value < 2 ^ 64
    → (cs : Output) × (emit_hex_u64 value ≡ 48 ∷ 120 ∷ cs) × (length cs ≡ 16) × (read 16 cs ≡ value)
unfolding emit_hex_u64
emit_hex_u64_lem value h = (
  hex_buffer value 16,
  refl,
  hex_buffer-length value 16,
  hex_buffer-read_from value 16 0 ∙ omega (arith, mod-eq_of_lt h),
)
