-- ===== src/Lifecycle/Initialise.antt =====
-- `init_all` of kernel/device/lifecycle.cpp: it ends, and on success all drivers are initialised in
-- the order of their requirements.
use mathlib.Core.Path.{subst}
use mathlib.Core.Bool.{true≢false}
use doom_os.Base.{
  ℕ, ◌+◌, ◌≤◌, ◌<◌, ◌≡◌, refl, sym, ap, ◌∙◌, Bool, true, false, ◌||◌, List, [], length,
  if◌then◌else◌, arith, Bool-cases, inl, inr,
}
use doom_os.Lifecycle.{
  Registry, DriverId, DriverNode, visited, Lifecycle, DriverCode, InitResult, ok, err, ids,
}
use doom_os.Lifecycle.Records.{build_registry, build_nodes}
use doom_os.Lifecycle.Visit.{Ended, returned, unfinished, ◌>>=◌, visit_all, init_all}
use doom_os.Lifecycle.Names.{length-ids}
use doom_os.Lifecycle.Build.{IsFresh, build_nodes-IsFresh}
use doom_os.Lifecycle.Steps.{mem, IsOrder, start, IsOrdered, Keeps, count_new-le, visit_of}
use doom_os.Lifecycle.Visited.{visit_all-Keeps}

-- Nothing has been built yet, or the nodes are those of the registry's drivers, and those that are
-- initialised are so in order; when the state says that all are, each is or is gone.
pub record IsReady {W : Type 0} (reg : Registry) (gone : List ℕ) (s : Lifecycle W) : Type 0 where
  pub unbuilt : s.built ≡ false → (s.initialized_all ≡ false) × (s.initialized ≡ []) × (gone ≡ [])
  pub ordered : s.built ≡ true → IsOrdered reg gone s
  pub drivers : s.built ≡ true → ids s.nodes ≡ reg.drivers
  pub complete :
      s.initialized_all ≡ true
      → (j : ℕ) → j < length reg.drivers
      → (mem j s.initialized || mem j gone) ≡ true

-- `m_state` when the kernel starts.
abbrev pub at_start : {W : Type 0} → W → Lifecycle W
at_start w = record {
  nodes = [];
  initialized = [];
  capabilities = [];
  built = false;
  initialized_all = false;
  world = w;
}

pub at_start-IsReady : {W : Type 0} (reg : Registry) (w : W) → IsReady reg [] (at_start w)
at_start-IsReady reg w = record {
  unbuilt = λ e. (refl, refl, refl);
  ordered = λ e. ground arith;
  drivers = λ e. ground arith;
  complete = λ e. ground arith;
}

module _ {W : Type 0} where
  -- The state that `build_registry` makes of the nodes.
  abbrev anew : Lifecycle W → InitResult × List DriverNode → Lifecycle W
  anew s (r, ns) = record {
    nodes = ns;
    initialized = [];
    capabilities = [];
    built = elim r [ ok ↦ true | err _ ↦ false ];
    initialized_all = false;
    world = s.world;
  }

  pub build_registry-built :
      (reg : Registry) (s : Lifecycle W) → s.built ≡ true → build_registry reg s ≡ (ok, s)
  unfolding build_registry
  build_registry-built reg s e = rw e refl

  build_registry-unbuilt :
      (reg : Registry) (s : Lifecycle W)
      → s.built ≡ false
      → build_registry reg s ≡ ((build_nodes reg).0, anew s (build_nodes reg))
  unfolding build_registry
  build_registry-unbuilt reg s e = rw e refl

  fresh-IsOrdered :
      {reg : Registry} (s : Lifecycle W) (ns : List DriverNode)
      → IsFresh ns
      → IsOrdered reg [] (anew s (ok, ns))
  fresh-IsOrdered s ns fresh = record {
    order = start;
    listed = λ j. let (a, b) = fresh j in ground arith;
    marked = λ j. (fresh j).1;
  }

module _ {W : Type 0} (code : DriverCode W) (reg : Registry) where
  -- What `init_all` may do. All the drivers that are initialised stand after those that they require
  -- and that are not gone, each once; on success each driver of the registry is initialised or gone.
  abbrev pub Initialises : List ℕ → Ended (Lifecycle W) → Type 0
  Initialises gone (returned ok t) =
      IsReady reg gone t
      × IsOrder reg gone reg.drivers t.initialized
      × ((j : ℕ) → j < length reg.drivers → (mem j t.initialized || mem j gone) ≡ true)
  Initialises gone (returned (err e) t) =
      IsReady reg gone t × (t.built ≡ true → IsOrder reg gone reg.drivers t.initialized)
  Initialises gone unfinished = ⊥

  -- The nodes, visited in order from a state that is built.
  module _ (gone : List ℕ) (s : Lifecycle W) (o : IsOrdered reg gone s)
      (drivers : ids s.nodes ≡ reg.drivers) (built : s.built ≡ true)
      (more : s.initialized_all ≡ false) where
    complete_all : Initialises gone (
        visit_all code reg (length s.nodes + 1) 0 (length s.nodes) s
        >>= (λ t. returned ok (record t { initialized_all = true })))
    complete_all = all (visit_all code reg (length s.nodes + 1) 0 (length s.nodes) s) (
        visit_all-Keeps code reg gone (length s.nodes + 1) 0 (length s.nodes) s o
          (omega (arith, count_new-le s.nodes)) (omega arith))
      where
        all :
            (r : Ended (Lifecycle W))
            → Keeps reg gone s
                (λ u. (j : ℕ) → 0 ≤ j → j < 0 + length s.nodes → visit_of u j ≡ visited)
                r
            → Initialises gone (r >>= (λ t. returned ok (record t { initialized_all = true })))
        all (returned ok t) (f, ot, v) =
            let count : length s.nodes ≡ length reg.drivers =
              sym (length-ids s.nodes) ∙ ap (λ (es : List DriverId). length es) drivers in
            let listed : (j : ℕ)
                → j < length reg.drivers
                → (mem j t.initialized || mem j gone) ≡ true =
              λ j h. (ot.listed j).0 (v j (omega arith) (omega arith)) in
            (
              record {
                unbuilt = λ e. absurd (true≢false (sym built ∙ sym f.same_built ∙ e));
                ordered = λ e. record { order = ot.order; listed = ot.listed; marked = ot.marked };
                drivers = λ e. f.same_ids ∙ drivers;
                complete = λ e. listed;
              },
              subst (λ es. IsOrder reg gone es t.initialized) (f.same_ids ∙ drivers) ot.order,
              listed,
            )
        all (returned (err e) t) (f, ot) = (
          record {
            unbuilt = λ e. absurd (true≢false (sym built ∙ sym f.same_built ∙ e));
            ordered = λ e. ot;
            drivers = λ e. f.same_ids ∙ drivers;
            complete = λ e. absurd (true≢false (sym e ∙ f.same_all ∙ more));
          },
          λ b. subst (λ es. IsOrder reg gone es t.initialized) (f.same_ids ∙ drivers) ot.order,
        )
        all unfinished k = k

  from_nodes :
      (s : Lifecycle W) (m : InitResult × List DriverNode)
      → build_nodes reg ≡ m
      → Initialises [] (
          returned m.0 (anew s m)
          >>= (λ t. visit_all code reg (length t.nodes + 1) 0 (length t.nodes) t)
          >>= (λ t. returned ok (record t { initialized_all = true })))
  from_nodes s (ok, ns) e =
      let (fresh, drivers) = build_nodes-IsFresh reg ns e in
      complete_all [] (anew s (ok, ns)) (fresh-IsOrdered s ns fresh) drivers refl refl
  from_nodes s (err x, ns) e = (
    record {
      unbuilt = λ u. (refl, refl, refl);
      ordered = λ b. ground arith;
      drivers = λ b. ground arith;
      complete = λ a. ground arith;
    },
    λ b. ground arith,
  )

  -- The rest of `init_all`, once the nodes are there.
  abbrev pub visit_built : Ended (Lifecycle W) → Ended (Lifecycle W)
  visit_built m =
      m
      >>= (λ t. visit_all code reg (length t.nodes + 1) 0 (length t.nodes) t)
      >>= (λ t. returned ok (record t { initialized_all = true }))

  init_all-done : (s : Lifecycle W) → s.initialized_all ≡ true → init_all code reg s ≡ returned ok s
  unfolding init_all
  init_all-done s e = rw e refl

  pub init_all-more :
      (s t : Lifecycle W) (r : InitResult)
      → s.initialized_all ≡ false
      → build_registry reg s ≡ (r, t)
      → init_all code reg s ≡ visit_built (returned r t)
  unfolding init_all
  init_all-more s t r e b =
      ap
        (λ (c : Bool).
          if c
          then returned ok s
          else visit_built (returned (build_registry reg s).0 (build_registry reg s).1))
        e
      ∙ ap (λ (m : InitResult × Lifecycle W). visit_built (returned m.0 m.1)) b

  pub IsReady-Initialises :
      (gone : List ℕ) (s : Lifecycle W)
      → IsReady reg gone s
      → Initialises gone (init_all code reg s)
  IsReady-Initialises gone s ready = elim (Bool-cases s.initialized_all) [
    | inl all ↦
        let built : s.built ≡ true = elim (Bool-cases s.built) [
          | inl built ↦ built
          | inr unbuilt ↦ absurd (true≢false (sym all ∙ (ready.unbuilt unbuilt).0))
        ] in
        rw (init_all-done s all) (
          ready,
          subst (λ es. IsOrder reg gone es s.initialized) (ready.drivers built)
              (ready.ordered built).order,
          ready.complete all,
        )
    | inr more ↦ elim (Bool-cases s.built) [
      | inl built ↦
          rw (init_all-more s s ok more (build_registry-built reg s built))
            (complete_all gone s (ready.ordered built) (ready.drivers built) built more)
      | inr unbuilt ↦ rw (init_all-more s _ _ more (build_registry-unbuilt reg s unbuilt)) (
          subst
            (λ g.
              Initialises g (visit_built (returned (build_nodes reg).0 (anew s (build_nodes reg)))))
            (sym (ready.unbuilt unbuilt).2) (from_nodes s (build_nodes reg) refl))
    ]
  ]
