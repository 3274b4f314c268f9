-- ===== src/InitGraph/Lists.antt =====
-- The lists of types of kernel/init/init_graph.hpp: what they contain.
use doom_os.Base.{
  ℕ, zero, suc, ◌+◌, ◌<◌, ◌≤◌, ◌≡◌, refl, true, false, ◌||◌, List, [], ◌∷◌, ◌++◌, ◌==◌, arith,
  Bool-cases, inl, inr, if◌then◌else◌,
}
use doom_os.InitGraph.{list_contains, list_append, list_append_unique, list_concat_unique}

pub list_contains-append :
    (t : ℕ) (xs ys : List ℕ) → list_contains t (xs ++ ys) ≡ list_contains t xs || list_contains t ys
unfolding list_contains
list_contains-append t [] ys = refl
list_contains-append t (x ∷ xs) ys = let e = list_contains-append t xs ys in ground arith

pub list_contains-list_append :
    (t : ℕ) (xs : List ℕ) (x : ℕ)
    → list_contains t (list_append xs x) ≡ list_contains t xs || (t == x)
unfolding list_contains
list_contains-list_append t xs x = let e = list_contains-append t xs (x ∷ []) in ground arith

pub list_contains-append_unique :
    (t : ℕ) (xs : List ℕ) (x : ℕ)
    → list_contains t (list_append_unique xs x) ≡ list_contains t xs || (t == x)
unfolding list_append_unique
list_contains-append_unique t xs x = elim (Bool-cases (list_contains x xs)) [
  | inr new ↦ rw new (list_contains-list_append t xs x)
  | inl old ↦ elim (Bool-cases (t == x)) [
    | inl same ↦
        let e : t ≡ x = ground arith in
        let f : list_contains t xs ≡ true = rw e old in rw (old, f) refl
    | inr other ↦ rw old (ground arith)
  ]
]

pub list_contains-concat_unique :
    (t : ℕ) (xs ys : List ℕ)
    → list_contains t (list_concat_unique xs ys) ≡ list_contains t xs || list_contains t ys
unfolding list_concat_unique list_contains
list_contains-concat_unique t xs [] = ground arith
list_contains-concat_unique t xs (y ∷ ys) =
    let e = list_contains-concat_unique t (list_append_unique xs y) ys in
    let f = list_contains-append_unique t xs y in ground arith

pub concat_unique-append :
    (xs ys : List ℕ) (y : ℕ)
    → list_concat_unique xs (ys ++ y ∷ []) ≡ list_append_unique (list_concat_unique xs ys) y
unfolding list_concat_unique
concat_unique-append xs [] y = refl
concat_unique-append xs (z ∷ ys) y = concat_unique-append (list_append_unique xs z) ys y

-- How many of the numbers below n are not in a list.
unfoldable pub count_new : ℕ → List ℕ → ℕ
count_new zero v = 0
count_new (suc n) v = (if list_contains n v then 0 else 1) + count_new n v

count_new-append_le : (n : ℕ) (v : List ℕ) (c : ℕ) → count_new n (list_append v c) ≤ count_new n v
unfolding count_new
count_new-append_le zero v c = omega arith
count_new-append_le (suc n) v c =
    let e = list_contains-list_append n v c in let h = count_new-append_le n v c in ground arith

pub count_new-append :
    (n : ℕ) (v : List ℕ) (c : ℕ)
    → c < n
    → list_contains c v ≡ false
    → count_new n (list_append v c) < count_new n v
unfolding count_new
count_new-append zero v c h e = absurd (omega arith)
count_new-append (suc n) v c h e =
    let f = list_contains-list_append n v c in
    elim (Bool-cases (c == n)) [
      | inl last ↦
          let l = count_new-append_le n v c in
          let k : n ≡ c = ground arith in
          let old : list_contains n v ≡ false = rw k e in ground arith
      | inr other ↦ let l = count_new-append n v c (ground arith) e in ground arith
    ]

pub count_new-bound : (n : ℕ) (v : List ℕ) → count_new n v ≤ n
unfolding count_new
count_new-bound zero v = omega arith
count_new-bound (suc n) v = let h = count_new-bound n v in ground arith
