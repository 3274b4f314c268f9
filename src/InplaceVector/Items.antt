-- ===== src/InplaceVector/Items.antt =====
-- The sequence that a vector holds (kernel/core/utils/inplace_vector.hpp), and what the operations
-- do to it.
use doom_os.Base.{
  take, ℕ, zero, suc, ◌+◌, ◌-◌, ◌≤◌, ◌<◌, ◌≡◌, refl, sym, ap, ◌∙◌, false, List, [], ◌∷◌, ◌++◌,
  length, take-set, length-set, length-append, ◌==◌, arith, Bool-cases, inl, inr,
}
use doom_os.InplaceVector.{
  InplaceVector, Changed, changed, failed, panicked, capacity, capacity_exceeded, emplace_back,
  push_back, pop_back, try_push_back,
}

module _ {A : Type 0} where
  -- The vector holds the sequence: its first `size` items, within its capacity.
  pub record Contains (v : InplaceVector A) (xs : List A) : Type 0 where
    pub within : v.size ≤ capacity v
    pub items : take v.size v.items ≡ xs

  -- A sequence without its last item.
  abbrev pub init : List A → List A
  init [] = []
  init (x ∷ []) = []
  init (x ∷ y ∷ xs) = x ∷ init (y ∷ xs)

  init-append : (xs : List A) (a : A) → init (xs ++ a ∷ []) ≡ xs
  init-append [] a = refl
  init-append (x ∷ []) a = refl
  init-append (x ∷ y ∷ xs) a = ap (λ ys. x ∷ ys) (init-append (y ∷ xs) a)

  init-take : (n : ℕ) (xs : List A) → n < length xs → init (take (suc n) xs) ≡ take n xs
  init-take zero [] h = absurd (omega arith)
  init-take zero (x ∷ xs) h = refl
  init-take (suc n) [] h = absurd (omega arith)
  init-take (suc n) (x ∷ []) h = absurd (omega arith)
  init-take (suc n) (x ∷ y ∷ xs) h = ap (λ ys. x ∷ ys) (init-take n (y ∷ xs) (omega arith))

  -- A push makes the vector hold one item more if there is room, and panics if it is full; no error
  -- is returned.
  abbrev pub Pushes : InplaceVector A → List A → A → Changed A → Type 0
  Pushes v xs a (changed w) =
      Contains w (xs ++ a ∷ []) × (capacity w ≡ capacity v) × (v.size < capacity v)
  Pushes v xs a (failed e) = ⊥
  Pushes v xs a panicked = v.size ≡ capacity v

  -- The same with the error in place of the panic.
  abbrev pub TriesPush : InplaceVector A → List A → A → Changed A → Type 0
  TriesPush v xs a (changed w) =
      Contains w (xs ++ a ∷ []) × (capacity w ≡ capacity v) × (v.size < capacity v)
  TriesPush v xs a (failed e) = (e ≡ capacity_exceeded) × (v.size ≡ capacity v)
  TriesPush v xs a panicked = ⊥

  emplace_back_lem :
      (v : InplaceVector A) (xs : List A) (a : A) → Contains v xs → Pushes v xs a (emplace_back v a)
  unfolding emplace_back
  emplace_back_lem v xs a c = elim (Bool-cases (v.size == capacity v)) [
    | inl full ↦ rw full (ground arith)
    | inr room ↦
        let within : v.size < capacity v = let w = c.within in ground arith in
        let e : v.size + 1 ≡ suc v.size = omega arith in
        rw room (
          record {
            within = rw (length-set v.items v.size a) (omega arith);
            items = rw e (take-set v.size v.items a within) ∙ ap (λ ys. ys ++ a ∷ []) c.items;
          },
          length-set v.items v.size a,
          within,
        )
  ]

  -- On a vector that holds `xs`, `push_back` makes it hold `xs` and the new item and keeps its
  -- capacity when there is room, and panics when it is full; it returns no error.
  pub push_back_lem :
      (v : InplaceVector A) (xs : List A) (a : A) → Contains v xs → Pushes v xs a (push_back v a)
  unfolding push_back
  push_back_lem v xs a c = elim (Bool-cases (v.size == capacity v)) [
    | inl full ↦ rw full (ground arith)
    | inr room ↦ rw room (emplace_back_lem v xs a c)
  ]

  room-TriesPush :
      (v : InplaceVector A) (xs : List A) (a : A) (r : Changed A)
      → (v.size == capacity v) ≡ false
      → Pushes v xs a r
      → TriesPush v xs a r
  room-TriesPush v xs a (changed w) room p = p
  room-TriesPush v xs a (failed e) room p = absurd p
  room-TriesPush v xs a panicked room p = absurd (ground arith)

  -- `try_push_back` does so too, with an error in place of the panic.
  pub try_push_back_lem :
      (v : InplaceVector A) (xs : List A) (a : A)
      → Contains v xs
      → TriesPush v xs a (try_push_back v a)
  unfolding try_push_back
  try_push_back_lem v xs a c = elim (Bool-cases (v.size == capacity v)) [
    | inl full ↦ rw full (refl, ground arith)
    | inr room ↦ rw room (room-TriesPush v xs a (emplace_back v a) room (emplace_back_lem v xs a c))
  ]

  pop_back_lem :
      (v : InplaceVector A) (xs : List A)
      → Contains v xs
      → 0 < v.size
      → (w : InplaceVector A) × (pop_back v ≡ changed w)
        × Contains w (init xs)
        × (capacity w ≡ capacity v)
  unfolding pop_back
  pop_back_lem v xs c some_item =
      let t : (v.size == 0) ≡ false = ground arith in
      let e : v.size ≡ suc (v.size - 1) = omega arith in
      let h : v.size - 1 < length v.items = omega (arith, c.within) in
      let i : take (suc (v.size - 1)) v.items ≡ xs = ap (λ n. take n v.items) (sym e) ∙ c.items in
      (
        record v { size = v.size - 1 },
        rw t refl,
        record {
          within = omega (arith, c.within);
          items = sym (init-take (v.size - 1) v.items h) ∙ ap init i;
        },
        refl,
      )

  some_taken : (n : ℕ) (ys xs : List A) (a : A) → take n ys ≡ xs ++ a ∷ [] → 0 < n
  some_taken zero ys xs a e = absurd (omega (arith, ap length e, length-append xs (a ∷ [])))
  some_taken (suc n) ys xs a e = omega arith

  -- What `push_back` made of a vector that holds `xs`, `pop_back` turns into a vector of the same
  -- capacity that holds `xs` again.
  pub pop_back-push_back :
      (v w : InplaceVector A) (xs : List A) (a : A)
      → Contains v xs
      → push_back v a ≡ changed w
      → (u : InplaceVector A) × (pop_back w ≡ changed u) × Contains u xs × (capacity u ≡ capacity v)
  pop_back-push_back v w xs a c e =
      let (held, same, room) = rw e at (push_back_lem v xs a c) in
      let (u, popped, left, kept) =
        pop_back_lem w (xs ++ a ∷ []) held (some_taken w.size w.items xs a held.items) in
      let back : init (xs ++ a ∷ []) ≡ xs = init-append xs a in
      (u, popped, record { within = left.within; items = left.items ∙ back }, kept ∙ same)
