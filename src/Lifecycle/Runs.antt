-- ===== src/Lifecycle/Runs.antt =====
-- `run_driver` of kernel/device/lifecycle.cpp: what it changes, whatever the driver does.
use doom_os.Base.{
  ℕ, ◌<◌, ◌≡◌, refl, ap, ◌∙◌, true, List, [], ◌∷◌, ◌++◌, Option, none, some, length, set,
  get_or-set, length-set, ◌==◌, if◌then◌else◌, arith, Bool-cases, inl, inr,
}
use doom_os.Lifecycle.{
  DriverId, DriverNode, ProvideRecord, Registry, Lifecycle, DriverCode, ok, err, string_equal,
  driver_name, ids, max_registered_capabilities,
}
use doom_os.Lifecycle.Names.{ids-set}
use doom_os.Lifecycle.Records.{node_at}
use doom_os.Lifecycle.Visit.{
  Ended, returned, unfinished, ◌>>=◌, node, set_initialized, call_resolve, register_api,
  register_capability, register_capabilities, run_init_of, run_driver,
}
use doom_os.Lifecycle.Steps.{visit_of, count_new, count_new-set}

module _ {W : Type 0} where
  -- The same nodes and the same list of drivers initialised.
  pub record SameNodes (s t : Lifecycle W) : Type 0 where
    pub nodes : t.nodes ≡ s.nodes
    pub listed : t.initialized ≡ s.initialized
    pub same_built : t.built ≡ s.built
    pub same_all : t.initialized_all ≡ s.initialized_all

  SameNodes-refl : (s : Lifecycle W) → SameNodes s s
  SameNodes-refl s = record { nodes = refl; listed = refl; same_built = refl; same_all = refl }

  -- The call ends, and leaves the nodes as they are.
  abbrev Leaves : Lifecycle W → Ended (Lifecycle W) → Type 0
  Leaves s (returned r t) = SameNodes s t
  Leaves s unfinished = ⊥

  Leaves-trans :
      (s t : Lifecycle W) (m : Ended (Lifecycle W)) → SameNodes s t → Leaves t m → Leaves s m
  Leaves-trans s t (returned r u) a b = record {
    nodes = b.nodes ∙ a.nodes;
    listed = b.listed ∙ a.listed;
    same_built = b.same_built ∙ a.same_built;
    same_all = b.same_all ∙ a.same_all;
  }
  Leaves-trans s t unfinished a b = b

  Leaves-bind :
      (s : Lifecycle W) (m : Ended (Lifecycle W)) (f : Lifecycle W → Ended (Lifecycle W))
      → Leaves s m
      → ((t : Lifecycle W) → Leaves t (f t))
      → Leaves s (m >>= f)
  Leaves-bind s (returned ok t) f k g = Leaves-trans s t (f t) k (g t)
  Leaves-bind s (returned (err e) t) f k g = k
  Leaves-bind s unfinished f k g = k

  -- What `run_driver` may do: on success the driver is marked and listed last.
  abbrev pub Runs : ℕ → Lifecycle W → Ended (Lifecycle W) → Type 0
  Runs i s (returned ok t) = SameNodes (set_initialized i s) t
  Runs i s (returned (err e) t) = SameNodes s t
  Runs i s unfinished = ⊥

  module _ (s : Lifecycle W) (i : ℕ) (inside : i < length s.nodes) where
    node-set_initialized :
        (j : ℕ)
        → node (set_initialized i s) j
          ≡ (if i == j then record (node s i) { initialized = true } else node s j)
    unfolding set_initialized
    node-set_initialized j = get_or-set s.nodes i j _ _ inside

    pub visit_of-set_initialized : (j : ℕ) → visit_of (set_initialized i s) j ≡ visit_of s j
    visit_of-set_initialized j = ground (arith, node-set_initialized j)

    pub initialized-set_initialized :
        (j : ℕ)
        → (node (set_initialized i s) j).initialized
          ≡ (if i == j then true else (node s j).initialized)
    initialized-set_initialized j = ground (arith, node-set_initialized j)

    pub count_new-set_initialized : count_new (set_initialized i s).nodes ≡ count_new s.nodes
    unfolding set_initialized
    count_new-set_initialized =
        omega (arith, count_new-set s.nodes i (record (node s i) { initialized = true }) inside)

  pub ids-set_initialized :
      (s : Lifecycle W) (i : ℕ) → ids (set_initialized i s).nodes ≡ ids s.nodes
  unfolding set_initialized
  ids-set_initialized s i = ids-set s.nodes i _ refl

  pub length-set_initialized :
      (s : Lifecycle W) (i : ℕ) → length (set_initialized i s).nodes ≡ length s.nodes
  unfolding set_initialized
  length-set_initialized s i = length-set s.nodes i _

  pub flags-set_initialized :
      (s : Lifecycle W) (i : ℕ)
      → ((set_initialized i s).built ≡ s.built)
        × ((set_initialized i s).initialized_all ≡ s.initialized_all)
  unfolding set_initialized
  flags-set_initialized s i = (refl, refl)

  pub list-set_initialized :
      (s : Lifecycle W) (i : ℕ) → (set_initialized i s).initialized ≡ s.initialized ++ i ∷ []
  unfolding set_initialized
  list-set_initialized s i = refl

  same-Runs :
      (i : ℕ) (s t : Lifecycle W)
      → SameNodes s t
      → SameNodes (set_initialized i s) (set_initialized i t)
  unfolding set_initialized
  same-Runs i s t same = record {
    nodes =
        ap (λ (ns : List DriverNode). set ns i (record (node_at ns i) { initialized = true }))
          same.nodes;
    listed = ap (λ is. is ++ i ∷ []) same.listed;
    same_built = same.same_built;
    same_all = same.same_all;
  }

module _ {W : Type 0} (code : DriverCode W) (reg : Registry) where
  api-Leaves :
      (r : ProvideRecord) (id : DriverId) (api : Option ℕ) (s t : Lifecycle W)
      → SameNodes s t
      → Leaves s (register_api code reg r id api t)
  api-Leaves r id none s t k = k
  api-Leaves r id (some api) s t k =
      elim (Bool-cases (length t.capabilities == max_registered_capabilities)) [
        | inl full ↦ rw full k
        | inr room ↦ rw room (record {
          nodes = k.nodes;
          listed = k.listed;
          same_built = k.same_built;
          same_all = k.same_all;
        })
      ]

  capability-Leaves :
      (r : ProvideRecord) (id : DriverId) (s : Lifecycle W)
      → Leaves s (register_capability code reg r id s)
  unfolding register_capability
  capability-Leaves r id s =
      let (api, w) = call_resolve code reg r.resolve s.capabilities s.world in
      api-Leaves r id api s (record s { world = w })
        (record { nodes = refl; listed = refl; same_built = refl; same_all = refl })

  capabilities-Leaves :
      (rs : List ProvideRecord) (id : DriverId) (s : Lifecycle W)
      → Leaves s (register_capabilities code reg rs id s)
  unfolding register_capabilities
  capabilities-Leaves [] id s = SameNodes-refl s
  capabilities-Leaves (r ∷ rs) id s =
      Leaves-bind s _ (λ t. register_capabilities code reg rs id t)
        (elim (Bool-cases (string_equal (driver_name r.driver) id.name)) [
          | inl same ↦ rw same (capability-Leaves r id s)
          | inr other ↦ rw other (SameNodes-refl s)
        ])
        (λ t. capabilities-Leaves rs id t)

  init-Leaves : (i : ℕ) (s : Lifecycle W) → Leaves s (run_init_of code reg i s)
  unfolding run_init_of
  init-Leaves i s = record { nodes = refl; listed = refl; same_built = refl; same_all = refl }

  pub run_driver-Runs : (i : ℕ) (s : Lifecycle W) → Runs i s (run_driver code reg i s)
  unfolding run_driver
  run_driver-Runs i s = marks _ (
      Leaves-bind s (run_init_of code reg i s)
        (λ t. register_capabilities code reg reg.provide_records (node t i).id t) (init-Leaves i s)
        (λ t. capabilities-Leaves reg.provide_records (node t i).id t))
    where
      marks :
          (m : Ended (Lifecycle W))
          → Leaves s m
          → Runs i s (m >>= (λ t. returned ok (set_initialized i t)))
      marks (returned ok t) k = same-Runs i s t k
      marks (returned (err e) t) k = k
      marks unfinished k = k
