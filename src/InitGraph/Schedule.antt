-- ===== src/InitGraph/Schedule.antt =====
-- Orders of initialisation: each component once, and after all that it depends on.
use doom_os.Base.{ℕ, ◌≡◌, true, false, List, [], ◌∷◌, ◌++◌, arith, Bool-cases, inl, inr}
use doom_os.InitGraph.{list_contains, list_append_unique, list_concat_unique}
use doom_os.InitGraph.Lists.{list_contains-concat_unique, concat_unique-append}

-- All of the one list are in the other.
abbrev pub IsWithin : List ℕ → List ℕ → Type 0
IsWithin xs ys = (t : ℕ) → list_contains t xs ≡ true → list_contains t ys ≡ true

module _ (deps : ℕ → List ℕ) where
  pub data IsSchedule : List ℕ → Type 0 where
    empty : IsSchedule []
    next :
        (xs : List ℕ) (x : ℕ)
        → list_contains x xs ≡ false
        → IsWithin (deps x) xs
        → IsSchedule xs
        → IsSchedule (xs ++ x ∷ [])

  pub append_unique-IsSchedule :
      (xs : List ℕ) (x : ℕ)
      → IsSchedule xs
      → IsWithin (deps x) xs
      → IsSchedule (list_append_unique xs x)
  unfolding list_append_unique
  append_unique-IsSchedule xs x s d = elim (Bool-cases (list_contains x xs)) [
    | inl old ↦ rw old s
    | inr new ↦ rw new (next xs x new d s)
  ]

  pub concat_unique-IsSchedule :
      (xs ys : List ℕ) → IsSchedule xs → IsSchedule ys → IsSchedule (list_concat_unique xs ys)
  unfolding list_concat_unique
  concat_unique-IsSchedule xs ys s empty = s
  concat_unique-IsSchedule xs ys s (next zs z new d r) = rw (concat_unique-append xs zs z) (
      append_unique-IsSchedule (list_concat_unique xs zs) z (concat_unique-IsSchedule xs zs s r)
        (λ t h. let e = list_contains-concat_unique t xs zs in let f = d t h in ground arith))

  -- Depends, directly or through others.
  pub data Depends : ℕ → ℕ → Type 0 where
    directly : (a b : ℕ) → list_contains b (deps a) ≡ true → Depends a b
    through : (a b c : ℕ) → list_contains b (deps a) ≡ true → Depends b c → Depends a c

  pub Depends-after : (a b c : ℕ) → Depends a b → list_contains c (deps b) ≡ true → Depends a c
  Depends-after a b c (directly _ _ h) e = through a b c h (directly b c e)
  Depends-after a b c (through _ d _ h r) e = through a d c h (Depends-after d b c r e)
