-- ===== src/FixedString.antt =====
-- kernel/core/utils/string.hpp: `fixed_string<N>`, a string in an array of N characters and a
-- terminator. A C string is the list of its characters, read as if a zero followed; the capacity N is
-- an argument. `starts_with`, `ends_with` and `find` are not modelled.
pub mod Append
pub mod Compare
mod Tests
use doom_os.Base.{
  ℕ, zero, suc, ◌+◌, ◌-◌, ◌%◌, Bool, true, false, ◌&&◌, List, [], ◌∷◌, replicate, set, take, ltb,
  ◌==◌, ◌!=◌, if◌then◌else◌, ℤ, pos, negsuc,
}

abbrev pub Text : Type 0
Text = List ℕ

pub record FixedString : Type 0 where
  pub bytes : Text
  pub size : ℕ

abbrev pub empty_string : ℕ → FixedString
empty_string n = record { bytes = replicate (n + 1) 0; size = 0 }

-- `m_data[m_size++] = c`
abbrev pub put : ℕ → FixedString → FixedString
put c s = record { bytes = set s.bytes s.size c; size = s.size + 1 }

-- `m_data[m_size] = '\0'`
abbrev pub terminate : FixedString → FixedString
terminate s = record s { bytes = set s.bytes s.size 0 }

-- The loop of `append`, at the characters that are left of the text and of `count`.
unfoldable pub append_from : ℕ → Text → ℕ → FixedString → FixedString
append_from n [] count s = s
append_from n (c ∷ cs) count s =
    let rest = append_from n cs (count - 1) (put c s) in
    if ltb 0 count && (ltb s.size n && (c != 0)) then rest else s

unfoldable pub append : ℕ → FixedString → Text → ℕ → FixedString
append n s text count = terminate (append_from n text count s)

unfoldable pub assign : ℕ → FixedString → Text → ℕ → FixedString
assign n s text count = append n (record s { size = 0 }) text count

unfoldable pub clear : FixedString → FixedString
clear s = record { bytes = set s.bytes 0 0; size = 0 }

unfoldable pub push_back : ℕ → FixedString → ℕ → FixedString
push_back n s c = append n s (c ∷ []) 1

unfoldable pub pop_back : FixedString → FixedString
pop_back s = terminate (record s { size = s.size - 1 })

-- A `char` is signed.
abbrev pub char_less : ℕ → ℕ → Bool
char_less a b = ltb ((a + 128) % 256) ((b + 128) % 256)

abbrev pub less : ℤ
less = negsuc 0

abbrev pub same : ℤ
same = pos 0

abbrev pub greater : ℤ
greater = pos 1

-- `compare` from one place on, in the string's characters and in the text.
unfoldable pub compare_from : Text → Text → ℤ
compare_from [] [] = same
compare_from [] (t ∷ ts) = if t == 0 then same else less
compare_from (x ∷ xs) [] = greater
compare_from (x ∷ xs) (t ∷ ts) =
    let rest = compare_from xs ts in
    if t == 0 then greater else if x != t then (if char_less x t then less else greater) else rest

abbrev pub chars : FixedString → Text
chars s = take s.size s.bytes

unfoldable pub compare : FixedString → Text → ℤ
compare s text = compare_from (chars s) text
