-- ===== src/Lifecycle/Order.antt =====
-- The loops of `visit` over the records of requirements (kernel/device/lifecycle.cpp).
use mathlib.Core.List.{Memᴰ}
use mathlib.Core.List.Memᴰ
use doom_os.Base.{
  ℕ, ◌<◌, ◌≡◌, refl, sym, Bool, true, false, not, List, [], ◌∷◌, Option, none, some, length,
  if◌then◌else◌, arith, Bool-cases, inl, inr,
}
use doom_os.Lifecycle.{
  Name, Error, CapabilityKey, ProvideRecord, RequireDriverRecord, RequireCapabilityRecord, Registry,
  visited, Lifecycle, DriverCode, InitResult, ok, err, string_equal, driver_name, ids,
  find_node_by_id, find_node_by_name, provides, validate_provider_count, unknown_driver,
  unknown_driver_dependency,
}
use doom_os.Lifecycle.Visit.{
  Ended, returned, ◌>>=◌, visit_found, visit_providers, visit_capability_providers,
  visit_driver_dependencies, visit_key, visit_capability_dependencies,
}
use doom_os.Lifecycle.Names.{find_node_by_id-lt, find_node_by_name-lt, length-ids}
use doom_os.Lifecycle.Steps.{
  Follows-refl, IsOrdered, Keeps, Keeps-bind, Keeps-imp, count_new, visit_of,
}

module _ {W : Type 0} (code : DriverCode W) (reg : Registry) (gone : List ℕ)
    (go : ℕ → Lifecycle W → Ended (Lifecycle W)) (bound : ℕ) where
  -- The recursive call visits the node that it is given, from any state with few new nodes.
  abbrev pub Visits : Type 0
  Visits =
      (j : ℕ) (t : Lifecycle W)
      → IsOrdered reg gone t
      → count_new t.nodes < bound
      → j < length t.nodes
      → Keeps reg gone t (λ u. visit_of u j ≡ visited) (go j t)

  module _ (visits : Visits) where
    found-Keeps :
        (e : Error) (o : Option ℕ) (s : Lifecycle W)
        → IsOrdered reg gone s
        → count_new s.nodes < bound
        → ((j : ℕ) → o ≡ some j → j < length s.nodes)
        → Keeps reg gone s
            (λ t. (j : ℕ) → o ≡ some j → visit_of t j ≡ visited)
            (visit_found code reg go e o s)
    found-Keeps e none s ordered few inside = (Follows-refl s, ordered)
    found-Keeps e (some i) s ordered few inside =
        Keeps-imp reg gone s (λ t. visit_of t i ≡ visited) _ (go i s)
          (visits i s ordered few (inside i refl)) (λ t f v j e. ground arith)

    -- After the loop all that the records name are visited.
    abbrev pub DriversVisited : List RequireDriverRecord → Name → Lifecycle W → Lifecycle W → Type 0
    DriversVisited rs name s t =
        (r : RequireDriverRecord) (j : ℕ)
        → Memᴰ r rs
        → string_equal (driver_name r.driver) name ≡ true
        → find_node_by_name (ids s.nodes) r.dependency_name ≡ some j
        → visit_of t j ≡ visited

    pub drivers-Keeps :
        (rs : List RequireDriverRecord) (name : Name) (s : Lifecycle W)
        → IsOrdered reg gone s
        → count_new s.nodes < bound
        → Keeps reg gone s
            (DriversVisited rs name s)
            (visit_driver_dependencies code reg go rs name s)
    unfolding visit_driver_dependencies
    drivers-Keeps [] name s ordered few = (Follows-refl s, ordered, λ r j m. elim m [ ])
    drivers-Keeps (r ∷ rs) name s ordered few =
        Keeps-bind reg gone s First (DriversVisited (r ∷ rs) name s) _
          (λ t. visit_driver_dependencies code reg go rs name t) first
          (λ t f o p.
            Keeps-imp reg gone t (DriversVisited rs name t) (DriversVisited (r ∷ rs) name s) _
              (drivers-Keeps rs name t o (omega (arith, f.fewer)))
              (λ u g q r' j m same e. elim (Memᴰ.cases_cons m) [
                | inl here ↦ g.stays_visited j (p (rw (sym here) same) j (rw (sym here) e))
                | inr later ↦ q r' j later same (rw f.same_ids e)
              ]))
      where
        First : Lifecycle W → Type 0
        First t =
            string_equal (driver_name r.driver) name ≡ true
            → (j : ℕ) → find_node_by_name (ids s.nodes) r.dependency_name ≡ some j
            → visit_of t j ≡ visited

        first : Keeps reg gone s First (
            if not (string_equal (driver_name r.driver) name)
            then returned ok s
            else visit_found code reg go unknown_driver_dependency
                (find_node_by_name (ids s.nodes) r.dependency_name)
                s)
        first = elim (Bool-cases (string_equal (driver_name r.driver) name)) [
          | inl same ↦ rw same (
              Keeps-imp reg gone s _ First _
                (found-Keeps unknown_driver_dependency
                  (find_node_by_name (ids s.nodes) r.dependency_name) s ordered few
                  (λ j e. omega (
                    arith,
                    find_node_by_name-lt (ids s.nodes) r.dependency_name j e,
                    length-ids s.nodes,
                  )))
                (λ t f p _. p))
          | inr other ↦ rw other (Follows-refl s, ordered, λ same. ground arith)
        ]

    abbrev pub ProvidersVisited :
        List ProvideRecord → CapabilityKey → Lifecycle W → Lifecycle W → Type 0
    ProvidersVisited ps key s t =
        (p : ProvideRecord) (j : ℕ)
        → Memᴰ p ps
        → provides p key ≡ true
        → find_node_by_id (ids s.nodes) p.driver ≡ some j
        → visit_of t j ≡ visited

    providers-Keeps :
        (ps : List ProvideRecord) (key : CapabilityKey) (found : Bool) (s : Lifecycle W)
        → IsOrdered reg gone s
        → count_new s.nodes < bound
        → Keeps reg gone s (ProvidersVisited ps key s) (visit_providers code reg go ps key found s)
    unfolding visit_providers
    providers-Keeps [] key true s ordered few = (Follows-refl s, ordered, λ p j m. elim m [ ])
    providers-Keeps [] key false s ordered few = (Follows-refl s, ordered)
    providers-Keeps (p ∷ ps) key found s ordered few =
        Keeps-bind reg gone s First (ProvidersVisited (p ∷ ps) key s) _
          (λ t. visit_providers code reg go ps key (if provides p key then true else found) t) first
          (λ t f o q.
            Keeps-imp reg gone t (ProvidersVisited ps key t) (ProvidersVisited (p ∷ ps) key s) _
              (providers-Keeps ps key (if provides p key then true else found) t o
                (omega (arith, f.fewer)))
              (λ u g r p' j m same e. elim (Memᴰ.cases_cons m) [
                | inl here ↦ g.stays_visited j (q (rw (sym here) same) j (rw (sym here) e))
                | inr later ↦ r p' j later same (rw f.same_ids e)
              ]))
      where
        First : Lifecycle W → Type 0
        First t =
            provides p key ≡ true
            → (j : ℕ) → find_node_by_id (ids s.nodes) p.driver ≡ some j
            → visit_of t j ≡ visited

        first : Keeps reg gone s First (
            if not (provides p key)
            then returned ok s
            else visit_found code reg go unknown_driver (find_node_by_id (ids s.nodes) p.driver) s)
        first = elim (Bool-cases (provides p key)) [
          | inl same ↦ rw same (
              Keeps-imp reg gone s _ First _
                (found-Keeps unknown_driver (find_node_by_id (ids s.nodes) p.driver) s ordered few
                  (λ j e.
                    omega
                      (arith, find_node_by_id-lt (ids s.nodes) p.driver j e, length-ids s.nodes)))
                (λ t f q _. q))
          | inr other ↦ rw other (Follows-refl s, ordered, λ same. ground arith)
        ]

    key-Keeps :
        (o : Option CapabilityKey) (s : Lifecycle W)
        → IsOrdered reg gone s
        → count_new s.nodes < bound
        → Keeps reg gone s
            (λ t.
              (key : CapabilityKey) → o ≡ some key → ProvidersVisited reg.provide_records key s t)
            (visit_key code reg go o s)
    unfolding visit_capability_providers
    key-Keeps none s ordered few = (Follows-refl s, ordered, λ key e. ground arith)
    key-Keeps (some k) s ordered few = counted (validate_provider_count reg.provide_records k)
      where
        counted :
            (r : InitResult)
            → Keeps reg gone s
                (λ t.
                  (key : CapabilityKey)
                  → some k ≡ some key
                  → ProvidersVisited reg.provide_records key s t)
                (returned r s >>= λ s'. visit_providers code reg go reg.provide_records k false s')
        counted ok =
            Keeps-imp reg gone s (ProvidersVisited reg.provide_records k s) _ _
              (providers-Keeps reg.provide_records k false s ordered few)
              (λ t f q key e p j m same. q p j m (let e' : k ≡ key = cc in rw e' same))
        counted (err e) = (Follows-refl s, ordered)

    abbrev pub CapabilitiesVisited :
        List RequireCapabilityRecord → Name → Lifecycle W → Lifecycle W → Type 0
    CapabilitiesVisited rs name s t =
        (r : RequireCapabilityRecord)
        → Memᴰ r rs
        → string_equal (driver_name r.driver) name ≡ true
        → (key : CapabilityKey) → r.capability ≡ some key
        → ProvidersVisited reg.provide_records key s t

    pub capabilities-Keeps :
        (rs : List RequireCapabilityRecord) (name : Name) (s : Lifecycle W)
        → IsOrdered reg gone s
        → count_new s.nodes < bound
        → Keeps reg gone s
            (CapabilitiesVisited rs name s)
            (visit_capability_dependencies code reg go rs name s)
    unfolding visit_capability_dependencies
    capabilities-Keeps [] name s ordered few = (Follows-refl s, ordered, λ r m. elim m [ ])
    capabilities-Keeps (r ∷ rs) name s ordered few =
        Keeps-bind reg gone s First (CapabilitiesVisited (r ∷ rs) name s) _
          (λ t. visit_capability_dependencies code reg go rs name t) first
          (λ t f o q.
            Keeps-imp reg gone t (CapabilitiesVisited rs name t)
              (CapabilitiesVisited (r ∷ rs) name s) _
              (capabilities-Keeps rs name t o (omega (arith, f.fewer)))
              (λ u g l r' m same key e p j n same' e'. elim (Memᴰ.cases_cons m) [
                | inl here ↦
                    g.stays_visited j (q (rw (sym here) same) key (rw (sym here) e) p j n same' e')
                | inr later ↦ l r' later same key e p j n same' (rw f.same_ids e')
              ]))
      where
        First : Lifecycle W → Type 0
        First t =
            string_equal (driver_name r.driver) name ≡ true
            → (key : CapabilityKey) → r.capability ≡ some key
            → ProvidersVisited reg.provide_records key s t

        first : Keeps reg gone s First (
            if not (string_equal (driver_name r.driver) name)
            then returned ok s
            else visit_key code reg go r.capability s)
        first = elim (Bool-cases (string_equal (driver_name r.driver) name)) [
          | inl same ↦
              rw same (
                Keeps-imp reg gone s _ First _ (key-Keeps r.capability s ordered few)
                  (λ t f q _. q))
          | inr other ↦ rw other (Follows-refl s, ordered, λ same. ground arith)
        ]
