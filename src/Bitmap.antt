-- ===== src/Bitmap.antt =====
-- kernel/core/utils/bitmap.hpp: `bitmap<N>` over 64-bit words, the default storage type and the
-- one that the kernel uses. A bitmap is the list of its `N / 64` words.
pub mod Scan
pub mod Ranges
pub mod Search
pub mod Count
mod Tests
use mathlib.Core.Option
use doom_os.Base.{
  ℕ, zero, suc, ◌+◌, ◌-◌, ◌*◌, ◌/◌, ◌%◌, ◌^◌, Bool, true, false, not, ◌&&◌, bit_and, bit_or, List,
  [], ◌∷◌, Option, none, some, get_or, set, map, ltb, ◌==◌, ◌!=◌, if◌then◌else◌,
}
use doom_os.Bits.{complement, mask}

abbrev pub Bitmap : Type 0
Bitmap = List ℕ

abbrev pub npos : ℕ
npos = 2 ^ 64 - 1

abbrev pub word_max : ℕ
word_max = 2 ^ 64 - 1

abbrev pub word_of : ℕ → ℕ
word_of index = index / 64

abbrev pub offset_of : ℕ → ℕ
offset_of index = index % 64

abbrev pub bit_of : ℕ → ℕ
bit_of index = 2 ^ offset_of index

unfoldable pub mask_from : ℕ → ℕ
mask_from first = complement 64 (mask 64 (offset_of first))

unfoldable pub mask_upto : ℕ → ℕ
mask_upto last = mask 64 (offset_of last + 1)

-- `first + count - 1` in `usize`.
abbrev pub last_of : ℕ → ℕ → ℕ
last_of first count = (first + count + (2 ^ 64 - 1)) % 2 ^ 64

unfoldable pub apply_word : Bitmap → ℕ → ℕ → Bool → Bitmap
apply_word words word selected value = set words word (
    if value
    then bit_or (get_or words word 0) selected
    else bit_and (get_or words word 0) (complement 64 selected))

-- The loop of `apply` over the `n` words from `word` on.
unfoldable pub assign_words : Bitmap → ℕ → ℕ → Bool → Bitmap
assign_words words word zero value = words
assign_words words word (suc n) value =
    assign_words (set words word (if value then word_max else 0)) (word + 1) n value

-- `apply` past its early return, for the bits from `first` through `last`.
unfoldable pub apply_through : Bitmap → ℕ → ℕ → Bool → Bitmap
apply_through words first last value =
    let first_word = word_of first in
    let last_word = word_of last in
    let low = apply_word words first_word (mask_from first) value in
    let middle = assign_words low (first_word + 1) (last_word - (first_word + 1)) value in
    if first_word == last_word
    then apply_word words first_word (bit_and (mask_from first) (mask_upto last)) value
    else apply_word middle last_word (mask_upto last) value

unfoldable pub apply : Bitmap → ℕ → ℕ → Bool → Bitmap
apply words first count value =
    if count == 0 then words else apply_through words first (last_of first count) value

-- `set(first, count)` and `clear(first, count)`.
unfoldable pub set_range : Bitmap → ℕ → ℕ → Bitmap
set_range words first count = apply words first count true

unfoldable pub clear_range : Bitmap → ℕ → ℕ → Bitmap
clear_range words first count = apply words first count false

unfoldable pub reset : Bitmap → Bitmap
reset words = map (λ _. 0) words

unfoldable pub fill : Bitmap → Bitmap
fill words = map (λ _. word_max) words

unfoldable pub test : Bitmap → ℕ → Bool
test words index = bit_and (get_or words (word_of index) 0) (bit_of index) != 0

unfoldable pub set_bit : Bitmap → ℕ → Bitmap
set_bit words index =
    set words (word_of index) (bit_or (get_or words (word_of index) 0) (bit_of index))

unfoldable pub clear_bit : Bitmap → ℕ → Bitmap
clear_bit words index =
    set words (word_of index)
      (bit_and (get_or words (word_of index) 0) (complement 64 (bit_of index)))

unfoldable pub assign : Bitmap → ℕ → Bool → Bitmap
assign words index value = if value then set_bit words index else clear_bit words index

unfoldable pub empty : Bitmap → Bool
empty [] = true
empty (word ∷ words) = if word != 0 then false else empty words

unfoldable pub all : Bitmap → Bool
all [] = true
all (word ∷ words) = if word != word_max then false else all words

-- `std::countr_zero` of a `w`-bit word.
unfoldable pub countr_zero : ℕ → ℕ → ℕ
countr_zero zero x = 0
countr_zero (suc w) x = if x % 2 == 1 then 0 else suc (countr_zero w (x / 2))

-- `std::popcount` of a `w`-bit word.
unfoldable pub popcount : ℕ → ℕ → ℕ
popcount zero x = 0
popcount (suc w) x = x % 2 + popcount w (x / 2)

-- What a search returns early at a word, if it does.
unfoldable pub first_in : ℕ → ℕ → Option ℕ
first_in word selected = if selected != 0 then some (word * 64 + countr_zero 64 selected) else none

abbrev pub or_else : Option ℕ → Option ℕ → Option ℕ
or_else none o = o
or_else (some i) o = some i

-- The search loop over the `n` words from `word` on.
unfoldable pub first_in_words : Bitmap → ℕ → ℕ → Option ℕ
first_in_words words word zero = none
first_in_words words word (suc n) =
    or_else (first_in word (get_or words word 0)) (first_in_words words (word + 1) n)

unfoldable pub find_set : Bitmap → ℕ → ℕ → ℕ
find_set words first_word n = Option.get_or (first_in_words words first_word n) npos

-- `find_set_in` past its early return; `none` where it falls through to `NPOS`.
unfoldable pub search_through : Bitmap → ℕ → ℕ → Option ℕ
search_through words first last =
    let first_word = word_of first in
    let last_word = word_of last in
    let low = bit_and (get_or words first_word 0) (mask_from first) in
    let middle = first_in_words words (first_word + 1) (last_word - (first_word + 1)) in
    let high = bit_and (get_or words last_word 0) (mask_upto last) in
    if first_word == last_word
    then first_in first_word (bit_and low (mask_upto last))
    else or_else (first_in first_word low) (or_else middle (first_in last_word high))

unfoldable pub search_range : Bitmap → ℕ → ℕ → Option ℕ
search_range words first count =
    if count == 0 then none else search_through words first (last_of first count)

unfoldable pub find_set_in : Bitmap → ℕ → ℕ → ℕ
find_set_in words first count = Option.get_or (search_range words first count) npos

unfoldable pub count_set : Bitmap → ℕ → ℕ → ℕ
count_set words first_word zero = 0
count_set words first_word (suc n) =
    popcount 64 (get_or words first_word 0) + count_set words (first_word + 1) n

-- `count_set_in` past its early return.
unfoldable pub count_through : Bitmap → ℕ → ℕ → ℕ
count_through words first last =
    let first_word = word_of first in
    let last_word = word_of last in
    let low = bit_and (get_or words first_word 0) (mask_from first) in
    let middle = count_set words (first_word + 1) (last_word - (first_word + 1)) in
    let high = bit_and (get_or words last_word 0) (mask_upto last) in
    if first_word == last_word
    then popcount 64 (bit_and low (mask_upto last))
    else popcount 64 low + middle + popcount 64 high

unfoldable pub count_set_in : Bitmap → ℕ → ℕ → ℕ
count_set_in words first count =
    if count == 0 then 0 else count_through words first (last_of first count)
