-- ===== src/InitGraph/Sort.antt =====
-- The sort of the components (kernel/init/init_graph.hpp): it ends, refuses exactly the graphs in
-- which a component that is needed depends on itself, and otherwise gives an order of initialisation.
use doom_os.Base.{
  ℕ, zero, suc, ◌+◌, ◌<◌, ◌≡◌, refl, sym, true, List, [], ◌∷◌, ◌==◌, arith, Bool-cases, inl, inr,
  ◌⊎◌,
}
use doom_os.InitGraph.{
  list_contains, list_append, list_append_unique, list_concat_unique, Sorting, sorted, cyclic,
  unfinished, ◌>>=◌, topo_list, topo_component, sorted_components,
}
use doom_os.InitGraph.Lists.{
  list_contains-list_append, list_contains-append_unique, list_contains-concat_unique, count_new,
  count_new-append, count_new-bound,
}
use doom_os.InitGraph.Schedule.{
  IsWithin, IsSchedule, empty, append_unique-IsSchedule, concat_unique-IsSchedule, Depends,
  directly, through, Depends-after,
}

module _ (deps : ℕ → List ℕ) where
  -- A component is needed when it is a root or a root depends on it.
  abbrev pub IsNeeded : List ℕ → ℕ → Type 0
  IsNeeded roots c = (r : ℕ) × (list_contains r roots ≡ true) × ((c ≡ r) ⊎ Depends deps r c)

  -- What a sort of roots may end with.
  abbrev pub IsSorted : List ℕ → Sorting → Type 0
  IsSorted roots (sorted xs) =
      IsSchedule deps xs
      × IsWithin roots xs
      × ((c : ℕ) → list_contains c xs ≡ true → IsNeeded roots c)
  IsSorted roots cyclic = (c : ℕ) × IsNeeded roots c × Depends deps c c
  IsSorted roots unfinished = ⊥

  -- Those on the way depend on the component at hand.
  abbrev IsWay : List ℕ → ℕ → Type 0
  IsWay visiting c = (v : ℕ) → list_contains v visiting ≡ true → Depends deps v c

  IsWay-list_append :
      (visiting : List ℕ) (c d : ℕ)
      → IsWay visiting c
      → list_contains d (deps c) ≡ true
      → IsWay (list_append visiting c) d
  IsWay-list_append visiting c d way h v e = elim (Bool-cases (list_contains v visiting)) [
    | inl old ↦ Depends-after deps v c d (way v old) h
    | inr new ↦
        let f = list_contains-list_append v visiting c in
        let k : c ≡ v = ground arith in rw (sym k) (directly c d h)
  ]

  IsNeeded-tail : (r : ℕ) (roots : List ℕ) (c : ℕ) → IsNeeded roots c → IsNeeded (r ∷ roots) c
  unfolding list_contains
  IsNeeded-tail r roots c (q, h, e) = (q, ground arith, e)

  IsNeeded-head : (r : ℕ) (roots : List ℕ) (c : ℕ) → IsNeeded (r ∷ []) c → IsNeeded (r ∷ roots) c
  unfolding list_contains
  IsNeeded-head r roots c (q, h, e) = (q, ground arith, e)

  join :
      (r : ℕ) (roots : List ℕ) (a b : Sorting)
      → IsSorted (r ∷ []) a
      → IsSorted roots b
      → IsSorted (r ∷ roots) (a >>= λ xs. b >>= λ ys. sorted (list_concat_unique xs ys))
  unfolding list_contains
  join r roots cyclic b (c, n, d) t = (c, IsNeeded-head r roots c n, d)
  join r roots unfinished b s t = absurd s
  join r roots (sorted xs) cyclic s (c, n, d) = (c, IsNeeded-tail r roots c n, d)
  join r roots (sorted xs) unfinished s t = absurd t
  join r roots (sorted xs) (sorted ys) (s, w, n) (t, v, m) = (
    concat_unique-IsSchedule deps xs ys s t,
    (λ c h.
        let e = list_contains-concat_unique c xs ys in
        let hw = w c in
        let hv = v c in
        elim (Bool-cases (c == r)) [
          | inl here ↦ let k = hw (ground arith) in ground arith
          | inr there ↦ let k = hv (ground arith) in ground arith
        ]),
    (λ c h.
        let e = list_contains-concat_unique c xs ys in
        elim (Bool-cases (list_contains c xs)) [
          | inl first ↦ IsNeeded-head r roots c (n c first)
          | inr second ↦ IsNeeded-tail r roots c (m c (ground arith))
        ]),
  )

  -- `topo_list` is right if `topo_component` is, for its elements.
  topo_list-IsSorted :
      (go : ℕ → Sorting) (roots : List ℕ)
      → ((c : ℕ) → list_contains c roots ≡ true → IsSorted (c ∷ []) (go c))
      → IsSorted roots (topo_list deps go roots)
  unfolding topo_list list_contains
  topo_list-IsSorted go [] h = (empty, (λ c e. e), λ c e. absurd (ground arith))
  topo_list-IsSorted go (r ∷ roots) h =
      join r roots (go r) (topo_list deps go roots) (h r (ground arith))
        (topo_list-IsSorted go roots (λ c e. h c (ground arith)))

  -- What the component depends on is needed for it.
  IsNeeded-below : (c b : ℕ) → IsNeeded (deps c) b → IsNeeded (c ∷ []) b
  unfolding list_contains
  IsNeeded-below c b (r, h, inl e) = (c, ground arith, inr (rw e (directly c r h)))
  IsNeeded-below c b (r, h, inr d) = (c, ground arith, inr (through c r b h d))

  -- The component itself, after those that it depends on.
  close :
      (c : ℕ) (s : Sorting)
      → IsSorted (deps c) s
      → IsSorted (c ∷ []) (s >>= λ ds. sorted (list_append_unique ds c))
  unfolding list_contains
  close c unfinished i = absurd i
  close c cyclic (b, n, d) = (b, IsNeeded-below c b n, d)
  close c (sorted ds) (s, w, n) = (
    append_unique-IsSchedule deps ds c s w,
    (λ t h. let e = list_contains-append_unique t ds c in ground arith),
    (λ t h.
        let e = list_contains-append_unique t ds c in
        elim (Bool-cases (list_contains t ds)) [
          | inl below ↦ IsNeeded-below c t (n t below)
          | inr other ↦ (c, ground arith, inl (ground arith))
        ]),
  )

  module _ (count : ℕ) (known : (c d : ℕ) → list_contains d (deps c) ≡ true → d < count) where
    topo_component-IsSorted :
        (fuel : ℕ) (visiting : List ℕ) (c : ℕ)
        → c < count
        → count_new count visiting < fuel
        → IsWay visiting c
        → IsSorted (c ∷ []) (topo_component deps fuel visiting c)
    unfolding topo_component list_contains
    topo_component-IsSorted zero visiting c l h way = absurd (omega arith)
    topo_component-IsSorted (suc fuel) visiting c l h way =
        elim (Bool-cases (list_contains c visiting)) [
          | inl old ↦ rw old (c, (c, ground arith, inl refl), way c old)
          | inr new ↦
              let smaller = count_new-append count visiting c l new in
              rw new (
                close c
                  (topo_list deps (topo_component deps fuel (list_append visiting c)) (deps c))
                  (topo_list-IsSorted (topo_component deps fuel (list_append visiting c)) (deps c)
                    (λ d e.
                      topo_component-IsSorted fuel (list_append visiting c) d (known c d e)
                        (omega arith) (IsWay-list_append visiting c d way e))))
        ]

    -- In a program with `count` components, the sort of its roots ends. Either it gives an order in
    -- which each component stands once and after all that it depends on, with all the roots, and
    -- with only the components that the roots need; or it is refused, and then a component that the
    -- roots need depends on itself.
    pub sorted_components_lem :
        (roots : List ℕ)
        → ((c : ℕ) → list_contains c roots ≡ true → c < count)
        → IsSorted roots (sorted_components deps count roots)
    unfolding sorted_components list_contains
    sorted_components_lem roots h =
        topo_list-IsSorted (topo_component deps (count + 1) []) roots (λ c e.
          topo_component-IsSorted (count + 1) [] c (h c e) (omega (arith, count_new-bound count []))
            (λ v f. absurd (ground arith)))
