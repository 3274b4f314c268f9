-- ===== src/Lifecycle/Visit.antt =====
-- `visit` of kernel/device/lifecycle.cpp with what it calls, `init_all` and `exit_all`.
use doom_os.Base.{
  ℕ, zero, suc, ◌+◌, Bool, true, false, not, List, [], ◌∷◌, ◌++◌, Option, none, some, get_or, set,
  length, ◌==◌, if◌then◌else◌,
}
use doom_os.Lifecycle.{
  Name, DriverId, CapabilityKey, Error, capacity_exceeded, unknown_driver,
  unknown_driver_dependency, missing_capability_provider, dependency_cycle,
  capability_resolve_failed, InitResult, ok, err, ProvideRecord, RequireDriverRecord,
  RequireCapabilityRecord, Registry, RegisteredCapability, DriverNode, VisitState, not_visited,
  visiting, visited, Lifecycle, DriverCode, string_equal, driver_name, ids, find_node_by_id,
  find_node_by_name, provides, validate_provider_count, max_registered_capabilities,
}
use doom_os.Lifecycle.Records.{node_at, build_registry}

-- How a call ends: with its result and the state that it leaves, or, for want of fuel, not at all.
pub data Ended (S : Type 0) : Type 0 where
  returned : InitResult → S → Ended S
  unfinished : Ended S

-- What follows a call that succeeds, and what is done when it fails.
infixl 5 ◌>>=◌
abbrev pub ◌>>=◌ : {S : Type 0} → Ended S → (S → Ended S) → Ended S
returned ok s >>= f = f s
returned (err e) s >>= f = returned (err e) s
unfinished >>= f = unfinished

abbrev pub on_error : {S : Type 0} → (S → S) → Ended S → Ended S
on_error f (returned ok s) = returned ok s
on_error f (returned (err e) s) = returned (err e) (f s)
on_error f unfinished = unfinished

module _ {W : Type 0} where
  abbrev pub node : Lifecycle W → ℕ → DriverNode
  node s i = node_at s.nodes i

  unfoldable pub set_visit : ℕ → VisitState → Lifecycle W → Lifecycle W
  set_visit i v s = record s { nodes = set s.nodes i (record (node s i) { visit = v }) }

  -- The end of `run_driver`.
  unfoldable pub set_initialized : ℕ → Lifecycle W → Lifecycle W
  set_initialized i s = record s {
    nodes = set s.nodes i (record (node s i) { initialized = true });
    initialized = s.initialized ++ i ∷ [];
  }

module _ {W : Type 0} (code : DriverCode W) (reg : Registry) where
  -- A call through a pointer to a function; a null pointer is not followed.
  abbrev pub call_init : Option ℕ → List RegisteredCapability → W → InitResult × W
  call_init none cs w = (ok, w)
  call_init (some f) cs w = code.run_init f cs w

  abbrev pub call_exit : Option ℕ → List RegisteredCapability → W → W
  call_exit none cs w = w
  call_exit (some f) cs w = code.run_exit f cs w

  abbrev pub call_resolve : Option ℕ → List RegisteredCapability → W → Option ℕ × W
  call_resolve none cs w = (none, w)
  call_resolve (some f) cs w = code.run_resolve f cs w

  -- The rest of a round of `register_capabilities`, once the capability is resolved.
  abbrev pub register_api : ProvideRecord → DriverId → Option ℕ → Lifecycle W → Ended (Lifecycle W)
  register_api r id none s = returned (err capability_resolve_failed) s
  register_api r id (some api) s =
      if length s.capabilities == max_registered_capabilities
      then returned (err capacity_exceeded) s
      else returned ok (record s {
        capabilities = s.capabilities ++ record { key = r.capability; driver = id; api = api } ∷ [];
      })

  unfoldable pub register_capability : ProvideRecord → DriverId → Lifecycle W → Ended (Lifecycle W)
  register_capability r id s =
      let (api, w) = call_resolve r.resolve s.capabilities s.world in
      register_api r id api (record s { world = w })

  unfoldable pub register_capabilities :
      List ProvideRecord → DriverId → Lifecycle W → Ended (Lifecycle W)
  register_capabilities [] id s = returned ok s
  register_capabilities (r ∷ rs) id s =
      (if not (string_equal (driver_name r.driver) id.name)
        then returned ok s
        else register_capability r id s)
      >>= λ s'. register_capabilities rs id s'

  unfoldable pub run_init_of : ℕ → Lifecycle W → Ended (Lifecycle W)
  run_init_of i s =
      let (r, w) = call_init (node s i).init s.capabilities s.world in
      returned r (record s { world = w })

  unfoldable pub run_driver : ℕ → Lifecycle W → Ended (Lifecycle W)
  run_driver i s =
      run_init_of i s
      >>= (λ s'. register_capabilities reg.provide_records (node s' i).id s')
      >>= (λ s'. returned ok (set_initialized i s'))

  -- The loops below call `visit`, which is their argument `go`.
  abbrev pub visit_found :
      (ℕ → Lifecycle W → Ended (Lifecycle W)) → Error → Option ℕ → Lifecycle W → Ended (Lifecycle W)
  visit_found go e none s = returned (err e) s
  visit_found go e (some i) s = go i s

  -- `found` tells whether a provider has been visited yet.
  unfoldable pub visit_providers :
      (ℕ → Lifecycle W → Ended (Lifecycle W))
      → List ProvideRecord
      → CapabilityKey
      → Bool
      → Lifecycle W
      → Ended (Lifecycle W)
  visit_providers go [] key found s =
      if not found then returned (err missing_capability_provider) s else returned ok s
  visit_providers go (r ∷ rs) key found s =
      (if not (provides r key)
        then returned ok s
        else visit_found go unknown_driver (find_node_by_id (ids s.nodes) r.driver) s)
      >>= λ s'. visit_providers go rs key (if provides r key then true else found) s'

  unfoldable pub visit_capability_providers :
      (ℕ → Lifecycle W → Ended (Lifecycle W)) → CapabilityKey → Lifecycle W → Ended (Lifecycle W)
  visit_capability_providers go key s =
      returned (validate_provider_count reg.provide_records key) s >>= λ s'.
      visit_providers go reg.provide_records key false s'

  unfoldable pub visit_driver_dependencies :
      (ℕ → Lifecycle W → Ended (Lifecycle W))
      → List RequireDriverRecord
      → Name
      → Lifecycle W
      → Ended (Lifecycle W)
  visit_driver_dependencies go [] name s = returned ok s
  visit_driver_dependencies go (r ∷ rs) name s =
      (if not (string_equal (driver_name r.driver) name)
        then returned ok s
        else visit_found go unknown_driver_dependency
            (find_node_by_name (ids s.nodes) r.dependency_name) s)
      >>= λ s'. visit_driver_dependencies go rs name s'

  -- `*record.capability`; a null pointer is refused before it is followed.
  abbrev pub visit_key :
      (ℕ → Lifecycle W → Ended (Lifecycle W))
      → Option CapabilityKey
      → Lifecycle W
      → Ended (Lifecycle W)
  visit_key go none s = returned ok s
  visit_key go (some key) s = visit_capability_providers go key s

  unfoldable pub visit_capability_dependencies :
      (ℕ → Lifecycle W → Ended (Lifecycle W))
      → List RequireCapabilityRecord
      → Name
      → Lifecycle W
      → Ended (Lifecycle W)
  visit_capability_dependencies go [] name s = returned ok s
  visit_capability_dependencies go (r ∷ rs) name s =
      (if not (string_equal (driver_name r.driver) name)
        then returned ok s
        else visit_key go r.capability s)
      >>= λ s'. visit_capability_dependencies go rs name s'

  -- `visit` of a node that was not visited.
  unfoldable pub visit_new :
      (ℕ → Lifecycle W → Ended (Lifecycle W)) → ℕ → Lifecycle W → Ended (Lifecycle W)
  visit_new go i s =
      on_error (set_visit i not_visited) (
        visit_driver_dependencies go reg.require_driver_records (node s i).id.name
          (set_visit i visiting s)
        >>= (λ s'.
            visit_capability_dependencies go reg.require_capability_records (node s' i).id.name s')
        >>= (λ s'. run_driver i s'))
      >>= λ s'. returned ok (set_visit i visited s')

  abbrev pub visit_by :
      VisitState → (ℕ → Lifecycle W → Ended (Lifecycle W)) → ℕ → Lifecycle W → Ended (Lifecycle W)
  visit_by visited go i s = returned ok s
  visit_by visiting go i s = returned (err dependency_cycle) s
  visit_by not_visited go i s = visit_new go i s

  -- `visit`, on fuel for its depth.
  unfoldable pub visit : ℕ → ℕ → Lifecycle W → Ended (Lifecycle W)
  visit zero i s = unfinished
  visit (suc fuel) i s = visit_by (node s i).visit (visit fuel) i s

  -- The loop of `init_all`, with a round for each node from `i` on.
  unfoldable pub visit_all : ℕ → ℕ → ℕ → Lifecycle W → Ended (Lifecycle W)
  visit_all fuel i zero s = returned ok s
  visit_all fuel i (suc rounds) s = visit fuel i s >>= λ s'. visit_all fuel (i + 1) rounds s'

  -- `init_all`: no chain of drivers is deeper than there are nodes.
  unfoldable pub init_all : Lifecycle W → Ended (Lifecycle W)
  init_all s =
      let (r, s1) = build_registry reg s in
      if s.initialized_all
      then returned ok s
      else returned r s1
        >>= (λ s'. visit_all (length s'.nodes + 1) 0 (length s'.nodes) s')
        >>= (λ s'. returned ok (record s' { initialized_all = true }))

  -- One round of `exit_all`, at the node with the index `i`.
  unfoldable pub exit_one : ℕ → Lifecycle W → Lifecycle W
  exit_one i s = if not (node s i).initialized then s else record s {
    nodes = set s.nodes i (record (node s i) { initialized = false });
    world = call_exit (node s i).exit s.capabilities s.world;
  }

  -- The loop of `exit_all`: the rounds for the entries below `n`, the last first.
  unfoldable pub exit_down : ℕ → Lifecycle W → Lifecycle W
  exit_down zero s = s
  exit_down (suc n) s = exit_down n (exit_one (get_or s.initialized n 0) s)

  unfoldable pub exit_all : Lifecycle W → Lifecycle W
  exit_all s = record (exit_down (length s.initialized) s) {
    initialized = [];
    capabilities = [];
    initialized_all = false;
  }
