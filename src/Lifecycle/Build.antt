-- ===== src/Lifecycle/Build.antt =====
-- What `build_registry` of kernel/device/lifecycle.cpp leaves: a node for each driver, in the
-- order of the registry, none of them visited.
use doom_os.Base.{
  ℕ, zero, suc, ◌<◌, ◌≡◌, refl, sym, ap, ◌∙◌, false, ◌||◌, List, [], ◌∷◌, ◌++◌, Option, none, some,
  length, set, get_or-set, ◌==◌, arith, Bool-cases, inl, inr,
}
use doom_os.Lifecycle.{
  DriverId, DriverNode, new_node, no_driver, Registry, InitRecord, ExitRecord, not_visited,
  InitResult, ok, err, ids, is_null, find_node_by_id, find_node_by_name, max_drivers,
}
use doom_os.Lifecycle.Records.{
  node_at, ◌>>=◌, add_driver, add_drivers, attach_init_at, attach_init, attach_init_records,
  attach_exit_at, attach_exit, attach_exit_records, validate_provider_records,
  validate_dependency_records, build_nodes,
}
use doom_os.Lifecycle.Names.{ids-set, find_node_by_id-lt, length-ids}

-- No node has been visited or initialised.
abbrev pub IsFresh : List DriverNode → Type 0
IsFresh ns = (j : ℕ) → ((node_at ns j).visit ≡ not_visited) × ((node_at ns j).initialized ≡ false)

-- A step of the build that succeeds keeps the nodes fresh, and has the identities `es`.
abbrev Builds : List DriverId → InitResult × List DriverNode → Type 0
Builds es (ok, ns) = IsFresh ns × (ids ns ≡ es)
Builds es (err e, ns) = Unit

Builds-bind :
    (es fs : List DriverId) (m : InitResult × List DriverNode)
    (f : List DriverNode → InitResult × List DriverNode)
    → Builds es m
    → ((ns : List DriverNode) → IsFresh ns → ids ns ≡ es → Builds fs (f ns))
    → Builds fs (m >>= f)
Builds-bind es fs (ok, ns) f (fresh, e) g = g ns fresh e
Builds-bind es fs (err e, ns) f b g = tt

node_at-snoc :
    (ns : List DriverNode) (d : DriverId) (j : ℕ)
    → IsFresh ns
    → ((node_at (ns ++ new_node d ∷ []) j).visit ≡ not_visited)
      × ((node_at (ns ++ new_node d ∷ []) j).initialized ≡ false)
node_at-snoc [] d zero fresh = (refl, refl)
node_at-snoc [] d (suc j) fresh = (refl, refl)
node_at-snoc (n ∷ ns) d zero fresh = fresh 0
node_at-snoc (n ∷ ns) d (suc j) fresh = node_at-snoc ns d j (λ k. fresh (suc k))

ids-snoc : (ns : List DriverNode) (d : DriverId) → ids (ns ++ new_node d ∷ []) ≡ ids ns ++ d ∷ []
ids-snoc [] d = refl
ids-snoc (n ∷ ns) d = ap (λ es. n.id ∷ es) (ids-snoc ns d)

append_snoc : (xs ys : List DriverId) (d : DriverId) → (xs ++ d ∷ []) ++ ys ≡ xs ++ d ∷ ys
append_snoc [] ys d = refl
append_snoc (x ∷ xs) ys d = ap (λ zs. x ∷ zs) (append_snoc xs ys d)

append_nil : (xs : List DriverId) → xs ++ [] ≡ xs
append_nil [] = refl
append_nil (x ∷ xs) = ap (λ zs. x ∷ zs) (append_nil xs)

add_driver-Builds :
    (ns : List DriverNode) (d : DriverId) → IsFresh ns → Builds (ids ns ++ d ∷ []) (add_driver ns d)
unfolding add_driver
add_driver-Builds ns d fresh = elim (Bool-cases (is_null d.name)) [
  | inl null ↦ rw null tt
  | inr named ↦ elim (Bool-cases (is_null (find_node_by_name (ids ns) d.name))) [
    | inr old ↦ rw (named, old) tt
    | inl new ↦ elim (Bool-cases (length ns == max_drivers)) [
      | inl full ↦ rw (named, new, full) tt
      | inr room ↦ rw (named, new, room) (λ j. node_at-snoc ns d j fresh, ids-snoc ns d)
    ]
  ]
]

add_drivers-Builds :
    (ns : List DriverNode) (ds : List DriverId)
    → IsFresh ns
    → Builds (ids ns ++ ds) (add_drivers ns ds)
unfolding add_drivers
add_drivers-Builds ns [] fresh = (fresh, sym (append_nil (ids ns)))
add_drivers-Builds ns (d ∷ ds) fresh =
    Builds-bind (ids ns ++ d ∷ []) (ids ns ++ d ∷ ds) (add_driver ns d) (λ ms. add_drivers ms ds)
      (add_driver-Builds ns d fresh)
      (λ ms fresh' e.
        let l : ids ms ++ ds ≡ ids ns ++ d ∷ ds =
          ap (λ es. es ++ ds) e ∙ append_snoc (ids ns) ds d in
        rw (sym l) (add_drivers-Builds ms ds fresh'))

-- A write that keeps what a node says of its visit keeps the nodes fresh.
set-IsFresh :
    (ns : List DriverNode) (i : ℕ) (n : DriverNode)
    → i < length ns
    → IsFresh ns
    → n.visit ≡ not_visited
    → n.initialized ≡ false
    → IsFresh (set ns i n)
set-IsFresh ns i n inside fresh v f j =
    let (a, b) = fresh j in ground (arith, get_or-set ns i j n (new_node no_driver))

attach_init-Builds :
    (ns : List DriverNode) (r : InitRecord) → IsFresh ns → Builds (ids ns) (attach_init ns r)
unfolding attach_init
attach_init-Builds ns r fresh = elim (Bool-cases (is_null r.driver || is_null r.init)) [
  | inl bad ↦ rw bad tt
  | inr good ↦ rw good (
      at (find_node_by_id (ids ns) r.driver)
        (λ i e. omega (arith, find_node_by_id-lt (ids ns) r.driver i e, length-ids ns)))
]
  where
    at :
        (o : Option ℕ)
        → ((i : ℕ) → o ≡ some i → i < length ns)
        → Builds (ids ns) (attach_init_at ns r.init o)
    at none inside = tt
    at (some i) inside = elim (Bool-cases (is_null (node_at ns i).init)) [
      | inr old ↦ rw old tt
      | inl new ↦
          rw new
            (set-IsFresh ns i _ (inside i refl) fresh (fresh i).0 (fresh i).1, ids-set ns i _ refl)
    ]

attach_exit-Builds :
    (ns : List DriverNode) (r : ExitRecord) → IsFresh ns → Builds (ids ns) (attach_exit ns r)
unfolding attach_exit
attach_exit-Builds ns r fresh = elim (Bool-cases (is_null r.driver || is_null r.exit)) [
  | inl bad ↦ rw bad tt
  | inr good ↦ rw good (
      at (find_node_by_id (ids ns) r.driver)
        (λ i e. omega (arith, find_node_by_id-lt (ids ns) r.driver i e, length-ids ns)))
]
  where
    at :
        (o : Option ℕ)
        → ((i : ℕ) → o ≡ some i → i < length ns)
        → Builds (ids ns) (attach_exit_at ns r.exit o)
    at none inside = tt
    at (some i) inside = elim (Bool-cases (is_null (node_at ns i).exit)) [
      | inr old ↦ rw old tt
      | inl new ↦
          rw new
            (set-IsFresh ns i _ (inside i refl) fresh (fresh i).0 (fresh i).1, ids-set ns i _ refl)
    ]

attach_init_records-Builds :
    (ns : List DriverNode) (rs : List InitRecord)
    → IsFresh ns
    → Builds (ids ns) (attach_init_records ns rs)
unfolding attach_init_records
attach_init_records-Builds ns [] fresh = (fresh, refl)
attach_init_records-Builds ns (r ∷ rs) fresh =
    Builds-bind (ids ns) (ids ns) (attach_init ns r) (λ ms. attach_init_records ms rs)
      (attach_init-Builds ns r fresh)
      (λ ms fresh' e. rw (sym e) (attach_init_records-Builds ms rs fresh'))

attach_exit_records-Builds :
    (ns : List DriverNode) (rs : List ExitRecord)
    → IsFresh ns
    → Builds (ids ns) (attach_exit_records ns rs)
unfolding attach_exit_records
attach_exit_records-Builds ns [] fresh = (fresh, refl)
attach_exit_records-Builds ns (r ∷ rs) fresh =
    Builds-bind (ids ns) (ids ns) (attach_exit ns r) (λ ms. attach_exit_records ms rs)
      (attach_exit-Builds ns r fresh)
      (λ ms fresh' e. rw (sym e) (attach_exit_records-Builds ms rs fresh'))

checked-Builds :
    (r : InitResult) (ns : List DriverNode) (es : List DriverId)
    → IsFresh ns
    → ids ns ≡ es
    → Builds es (r, ns)
checked-Builds ok ns es fresh e = (fresh, e)
checked-Builds (err x) ns es fresh e = tt

pub build_nodes-IsFresh :
    (reg : Registry) (ns : List DriverNode)
    → build_nodes reg ≡ (ok, ns)
    → IsFresh ns × (ids ns ≡ reg.drivers)
unfolding build_nodes
build_nodes-IsFresh reg ns e = rw e at built
  where
    es : List DriverId
    es = reg.drivers

    built : Builds es (build_nodes reg)
    built =
        Builds-bind es es _ _
          (Builds-bind es es _ _
            (Builds-bind es es _ _
              (Builds-bind es es _ _ (add_drivers-Builds [] reg.drivers (λ j. (refl, refl)))
                (λ ns fresh e. rw (sym e) (attach_init_records-Builds ns reg.init_records fresh)))
              (λ ns fresh e. rw (sym e) (attach_exit_records-Builds ns reg.exit_records fresh)))
            (λ ns fresh e. checked-Builds (validate_provider_records (ids ns) reg) ns es fresh e))
          (λ ns fresh e. checked-Builds (validate_dependency_records (ids ns) reg) ns es fresh e)
