-- ===== src/Bitmap/Tests.antt =====
-- Runs of the bitmap, and its theorems at concrete bitmaps.
use doom_os.Base.{
  zero, suc, ◌+◌, ◌*◌, ◌≡◌, refl, true, false, ◌&&◌, [], ◌∷◌, ltb, leb, if◌then◌else◌, arith,
}
use doom_os.Bits.{mask}
use doom_os.Bitmap.{
  Bitmap, test, apply, apply_through, apply_word, assign_words, mask_from, mask_upto, find_set_in,
  count_set,
}
use doom_os.Bitmap.Scan.{Fits}
use doom_os.Bitmap.Ranges.{test-apply}
use doom_os.Bitmap.Search.{FindsSet, find_set_in-FindsSet}
use doom_os.Bitmap.Count.{count_where, count_set_lem}

abbrev three_words : Bitmap
three_words = 0 ∷ 0x8000000000000001 ∷ 0 ∷ []

three_words-Fits : Fits three_words
three_words-Fits zero = omega arith
three_words-Fits (suc zero) = omega arith
three_words-Fits (suc (suc zero)) = omega arith
three_words-Fits (suc (suc (suc i))) = omega arith

-- A range over all three words.
apply_across : apply three_words 60 80 true ≡ 0xf000000000000000 ∷ 0xffffffffffffffff ∷ 0xfff ∷ []
unfolding apply apply_through apply_word assign_words mask_from mask_upto mask
apply_across = refl

test-apply_example :
    test (apply three_words 60 80 false) 64
    ≡ (if leb 60 64 && ltb 64 (60 + 80) then false else test three_words 64)
test-apply_example =
    test-apply three_words 60 80 false three_words-Fits (omega arith) (omega arith) 64

find_set_in_example : FindsSet three_words 65 (65 + 127) (find_set_in three_words 65 127)
find_set_in_example = find_set_in-FindsSet three_words 65 127 three_words-Fits (omega arith)

count_set_example : count_set three_words 1 2 ≡ count_where (test three_words) (1 * 64) (2 * 64)
count_set_example = count_set_lem three_words 1 2
