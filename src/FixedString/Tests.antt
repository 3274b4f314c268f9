-- ===== src/FixedString/Tests.antt =====
-- Runs of kernel/core/utils/string.hpp, and the theorems at one string each.
use doom_os.Base.{◌≡◌, ◌↔◌, refl, [], ◌∷◌, ◌++◌, ◌-◌, arith}
use doom_os.FixedString.{
  Text, FixedString, append_from, append, push_back, pop_back, assign, clear, chars, compare, same,
}
use doom_os.FixedString.Append.{IsString, c_prefix, least, append_lem}
use doom_os.FixedString.Compare.{c_string, compare_lem}

-- `ab` in a string of capacity 4, and the text `cde` with a terminator before the end.
abbrev two_letters : FixedString
two_letters = record { bytes = 97 ∷ 98 ∷ 0 ∷ 0 ∷ 0 ∷ []; size = 2 }

abbrev three_letters : Text
three_letters = 99 ∷ 100 ∷ 101 ∷ 0 ∷ 102 ∷ []

two_letters-IsString : IsString 4 two_letters (97 ∷ 98 ∷ [])
two_letters-IsString = record { within = omega arith; array = refl; holds = refl; ends = refl }

append_example :
    IsString 4
      (append 4 two_letters three_letters 9)
      ((97 ∷ 98 ∷ []) ++ c_prefix (least 9 (4 - two_letters.size)) three_letters)
append_example = append_lem 4 two_letters (97 ∷ 98 ∷ []) three_letters 9 two_letters-IsString

compare_example :
    (compare two_letters (97 ∷ 98 ∷ 0 ∷ 99 ∷ []) ≡ same)
    ↔ (chars two_letters ≡ c_string (97 ∷ 98 ∷ 0 ∷ 99 ∷ []))
compare_example = compare_lem two_letters (97 ∷ 98 ∷ 0 ∷ 99 ∷ [])

-- The string is full after two of the three letters.
fills : chars (append 4 two_letters three_letters 9) ≡ 97 ∷ 98 ∷ 99 ∷ 100 ∷ []
unfolding append append_from
fills = refl

shrinks :
    chars (pop_back (push_back 4 (assign 4 (clear two_letters) three_letters 2) 97)) ≡ 99 ∷ 100 ∷ []
unfolding pop_back push_back assign clear append append_from
shrinks = refl
