-- ===== src/Emit/Radix.antt =====
-- The digits of numbers (kernel/debug/emit.hpp): the buffers are large enough, and the digits that
-- are printed, read from left to right, give the number.
use mathlib.Core.List.{reverse, reverse-cons}
use native.Mathlib.Nat.{pow-zero, pow-succ', mul-le-mul_left}
use doom_os.Base.{
  ℕ, zero, suc, ◌+◌, ◌-◌, ◌*◌, ◌/◌, ◌%◌, ◌^◌, ◌≤◌, ◌<◌, ◌≡◌, refl, sym, ap, ◌∙◌, Bool, true, false,
  ◌&&◌, [], ◌∷◌, ◌++◌, some, length, length-append, get_or, bit_and, leb, ◌==◌, if◌then◌else◌,
  arith, Bool-cases, inl, inr,
}
use doom_os.Bits.Words.{bit_and-low_mask}
use doom_os.Format.{Text}
use doom_os.Emit.{
  Output, decimal_reverse, format_u64_decimal, hex_reverse, format_u64_hex, hex_digits_lower,
  hex_digits_upper,
}

-- What a digit stands for.
abbrev pub digit_value : ℕ → ℕ
digit_value c =
    if leb 48 c && leb c 57
    then c - 48
    else if leb 97 c && leb c 102
    then c - 87
    else if leb 65 c && leb c 70
    then c - 55
    else 16

-- Digits read from left to right, after the number `acc`.
abbrev pub read_from : ℕ → ℕ → Output → ℕ
read_from base acc [] = acc
read_from base acc (c ∷ cs) = read_from base (acc * base + digit_value c) cs

abbrev pub read : ℕ → Output → ℕ
read base cs = read_from base 0 cs

abbrev pub AllDigits : ℕ → Output → Type 0
AllDigits base [] = Unit
AllDigits base (c ∷ cs) = (digit_value c < base) × AllDigits base cs

-- The digits of `value`: at most `slots`, and no more than it needs.
pub record IsPrinted (base slots value : ℕ) (cs : Output) : Type 0 where
  pub some_digit : 1 ≤ length cs
  pub few : length cs ≤ slots
  pub reads : read base cs ≡ value
  pub digits : AllDigits base cs
  pub no_more : 0 < value → base ^ (length cs - 1) ≤ value

-- The same of digits that stand the last first.
abbrev read_back : ℕ → Output → ℕ
read_back base [] = 0
read_back base (c ∷ cs) = digit_value c + base * read_back base cs

record IsReversed (base slots value : ℕ) (cs : Output) : Type 0 where
  some_digit : 1 ≤ length cs
  few : length cs ≤ slots
  reads : read_back base cs ≡ value
  digits : AllDigits base cs
  no_more : 0 < value → base ^ (length cs - 1) ≤ value

IsReversed-last :
    (base slots value c : ℕ)
    → value < base
    → digit_value c ≡ value
    → IsReversed base (suc slots) value (c ∷ [])
IsReversed-last base slots value c small e = record {
  some_digit = omega arith;
  few = omega arith;
  reads = omega arith;
  digits = (omega arith, tt);
  no_more = λ h. omega (arith, pow-zero base);
}

IsReversed-next :
    (base slots value q c : ℕ) (cs : Output)
    → 0 < q
    → value ≡ digit_value c + base * q
    → digit_value c < base
    → IsReversed base slots q cs
    → IsReversed base (suc slots) value (c ∷ cs)
IsReversed-next base slots value q c cs pos_q e small r = record {
  some_digit = omega arith;
  few = omega (arith, r.few);
  reads = ap (λ n. digit_value c + base * n) r.reads ∙ sym e;
  digits = (small, r.digits);
  no_more = λ h.
      let k : suc (length cs) - 1 ≡ suc (length cs - 1) = omega (arith, r.some_digit) in
      rw (k, pow-succ' base (length cs - 1))
        (omega (arith, mul-le-mul_left base (r.no_more pos_q)));
}

-- The buffer of 20 digits holds every 64-bit number in decimal.
decimal_reverse-IsReversed :
    (slots value : ℕ)
    → 0 < slots
    → value < 10 ^ slots
    → (cs : Output) × (decimal_reverse slots value ≡ some cs) × IsReversed 10 slots value cs
unfolding decimal_reverse
decimal_reverse-IsReversed zero value pos_slots small = absurd (omega arith)
decimal_reverse-IsReversed (suc slots) value pos_slots small =
    let c : ℕ = (48 + value % 10) % 256 in
    let d : digit_value ((48 + value % 10) % 256) ≡ value % 10 = ground arith in
    let e : 10 ^ suc slots ≡ 10 * 10 ^ slots = pow-succ' 10 slots in
    elim (Bool-cases (value / 10 == 0)) [
      | inl last ↦
          let small' : value < 10 = ground arith in
          (c ∷ [], rw last refl, IsReversed-last 10 slots value c small' (omega (arith, d)))
      | inr more ↦
          let q : 0 < value / 10 = ground arith in
          let room : 0 < slots = elim (Bool-cases (slots == 0)) [
            | inl none_left ↦
                let z : slots ≡ 0 = ground arith in
                let w : value < 10 * 10 ^ 0 = rw z at (rw e at small) in absurd (omega arith)
            | inr some_left ↦ ground arith
          ] in
          let (cs, f, r) = decimal_reverse-IsReversed slots (value / 10) room (omega arith) in
          (
            c ∷ cs,
            rw (more, f) refl,
            IsReversed-next 10 slots value (value / 10) c cs q (omega (arith, d)) (omega (arith, d))
                r,
          )
    ]

-- A test that holds of the numbers below a bound.
abbrev all_below : ℕ → (ℕ → Bool) → Bool
all_below zero t = true
all_below (suc n) t = t n && all_below n t

all_below-true : (n : ℕ) (t : ℕ → Bool) → all_below n t ≡ true → (d : ℕ) → d < n → t d ≡ true
all_below-true zero t e d h = absurd (omega arith)
all_below-true (suc n) t e d h = elim (Bool-cases (d == n)) [
  | inl last ↦ let k : n ≡ d = ground arith in let here : t n ≡ true = ground arith in rw k at here
  | inr other ↦ all_below-true n t (ground arith) d (ground arith)
]

-- The tables give a digit for each of 0 .. 15.
pub hex_digit_upper-digit_value : (d : ℕ) → d < 16 → digit_value (get_or hex_digits_upper d 0) ≡ d
hex_digit_upper-digit_value d h =
    let t = all_below-true 16 (λ d. digit_value (get_or hex_digits_upper d 0) == d) refl d h in
    ground arith

hex_digit_lower-digit_value : (d : ℕ) → d < 16 → digit_value (get_or hex_digits_lower d 0) ≡ d
hex_digit_lower-digit_value d h =
    let t = all_below-true 16 (λ d. digit_value (get_or hex_digits_lower d 0) == d) refl d h in
    ground arith

unfoldable hex_digits : Bool → Text
hex_digits uppercase = if uppercase then hex_digits_upper else hex_digits_lower

hex_digit-digit_value :
    (uppercase : Bool) (d : ℕ) → d < 16 → digit_value (get_or (hex_digits uppercase) d 0) ≡ d
unfolding hex_digits
hex_digit-digit_value true d h = hex_digit_upper-digit_value d h
hex_digit-digit_value false d h = hex_digit_lower-digit_value d h

-- The buffer of 16 digits holds every 64-bit number in hexadecimal.
hex_reverse-IsReversed :
    (uppercase : Bool) (slots value : ℕ)
    → 0 < slots
    → value < 16 ^ slots
    → (cs : Output) × (hex_reverse (hex_digits uppercase) slots value ≡ some cs)
      × IsReversed 16 slots value cs
unfolding hex_reverse
hex_reverse-IsReversed uppercase zero value pos_slots small = absurd (omega arith)
hex_reverse-IsReversed uppercase (suc slots) value pos_slots small =
    let c : ℕ = get_or (hex_digits uppercase) (bit_and value 15) 0 in
    let m : bit_and value 15 ≡ value % 16 = bit_and-low_mask 4 value in
    let d : digit_value (get_or (hex_digits uppercase) (bit_and value 15) 0) ≡ value % 16 =
      rw m (hex_digit-digit_value uppercase (value % 16) (omega arith)) in
    let e : 16 ^ suc slots ≡ 16 * 16 ^ slots = pow-succ' 16 slots in
    elim (Bool-cases (value / 2 ^ 4 == 0)) [
      | inl last ↦
          let small' : value < 16 = ground arith in
          (c ∷ [], rw last refl, IsReversed-last 16 slots value c small' (omega (arith, d)))
      | inr more ↦
          let q : 0 < value / 16 = ground arith in
          let room : 0 < slots = elim (Bool-cases (slots == 0)) [
            | inl none_left ↦
                let z : slots ≡ 0 = ground arith in
                let w : value < 16 * 16 ^ 0 = rw z at (rw e at small) in absurd (omega arith)
            | inr some_left ↦ ground arith
          ] in
          let (cs, f, r) = hex_reverse-IsReversed uppercase slots (value / 16) room (omega arith) in
          (
            c ∷ cs,
            rw (more, f) refl,
            IsReversed-next 16 slots value (value / 16) c cs q (omega (arith, d)) (omega (arith, d))
                r,
          )
    ]

-- Reading from the left what stands the last first.
read_from-append :
    (base acc : ℕ) (xs : Output) (c : ℕ)
    → read_from base acc (xs ++ c ∷ []) ≡ read_from base acc xs * base + digit_value c
read_from-append base acc [] c = refl
read_from-append base acc (x ∷ xs) c = read_from-append base (acc * base + digit_value x) xs c

read-reverse : (base : ℕ) (cs : Output) → read base (reverse cs) ≡ read_back base cs
read-reverse base [] = refl
read-reverse base (c ∷ cs) =
    ap (read base) (reverse-cons c cs)
    ∙ read_from-append base 0 (reverse cs) c
    ∙ ap (λ n. n * base + digit_value c) (read-reverse base cs)
    ∙ grind arith

length-reverse : (cs : Output) → length (reverse cs) ≡ length cs
length-reverse [] = refl
length-reverse (c ∷ cs) =
    ap (λ (ds : Output). length ds) (reverse-cons c cs)
    ∙ omega (arith, length-append (reverse cs) (c ∷ []), length-reverse cs)

AllDigits-append :
    (base : ℕ) (xs : Output) (c : ℕ)
    → AllDigits base xs
    → digit_value c < base
    → AllDigits base (xs ++ c ∷ [])
AllDigits-append base [] c a h = (h, tt)
AllDigits-append base (x ∷ xs) c a h = (a.0, AllDigits-append base xs c a.1 h)

AllDigits-reverse : (base : ℕ) (cs : Output) → AllDigits base cs → AllDigits base (reverse cs)
AllDigits-reverse base [] a = tt
AllDigits-reverse base (c ∷ cs) a =
    rw (reverse-cons c cs)
      (AllDigits-append base (reverse cs) c (AllDigits-reverse base cs a.1) a.0)

reverse-IsPrinted :
    (base slots value : ℕ) (cs : Output)
    → IsReversed base slots value cs
    → IsPrinted base slots value (reverse cs)
reverse-IsPrinted base slots value cs r = record {
  some_digit = omega (arith, length-reverse cs, r.some_digit);
  few = omega (arith, length-reverse cs, r.few);
  reads = read-reverse base cs ∙ r.reads;
  digits = AllDigits-reverse base cs r.digits;
  no_more = λ h. rw (length-reverse cs) (r.no_more h);
}

-- `format_u64_decimal` of a 64-bit number stays within its buffer of 20 characters; the digits read
-- from left to right as the number, and no leading zero is printed.
pub format_u64_decimal_lem :
    (value : ℕ)
    → value < 2 ^ 64
    → (cs : Output) × (format_u64_decimal value ≡ some cs) × IsPrinted 10 20 value cs
unfolding format_u64_decimal
format_u64_decimal_lem value h =
    let (cs, e, r) = decimal_reverse-IsReversed 20 value (omega arith) (omega arith) in
    (reverse cs, rw e refl, reverse-IsPrinted 10 20 value cs r)

-- `format_u64_hex` of a 64-bit number stays within its buffer of 16 characters, and the digits, of
-- either case, read from left to right as the number, with no leading zero.
pub format_u64_hex_lem :
    (value : ℕ) (uppercase : Bool)
    → value < 2 ^ 64
    → (cs : Output) × (format_u64_hex value uppercase ≡ some cs) × IsPrinted 16 16 value cs
unfolding format_u64_hex hex_digits
format_u64_hex_lem value uppercase h =
    let (cs, e, r) = hex_reverse-IsReversed uppercase 16 value (omega arith) (omega arith) in
    (reverse cs, rw e refl, reverse-IsPrinted 16 16 value cs r)
