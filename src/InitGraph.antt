-- ===== src/InitGraph.antt =====
-- kernel/init/init_graph.hpp: the order in which the kernel's components are initialised, computed
-- by templates from the components that each depends on, and the run of their `init` functions.
-- A component is a number; `deps` and `init` are its member types and functions, parameters of the
-- templates. The compiler refuses a graph with a cycle.
pub mod Lists
pub mod Schedule
pub mod Sort
pub mod Run
mod Tests
use doom_os.Base.{
  ℕ, zero, suc, ◌+◌, Bool, true, false, ◌||◌, List, [], ◌∷◌, ◌++◌, ◌==◌, if◌then◌else◌, Option,
  none, some,
}

unfoldable pub list_contains : ℕ → List ℕ → Bool
list_contains t [] = false
list_contains t (head ∷ tail) = (t == head) || list_contains t tail

abbrev pub list_append : List ℕ → ℕ → List ℕ
list_append ts t = ts ++ t ∷ []

unfoldable pub list_append_unique : List ℕ → ℕ → List ℕ
list_append_unique list t = if list_contains t list then list else list_append list t

unfoldable pub list_concat_unique : List ℕ → List ℕ → List ℕ
list_concat_unique a [] = a
list_concat_unique a (head ∷ tail) = list_concat_unique (list_append_unique a head) tail

unfoldable pub list_filter_out_accum : List ℕ → List ℕ → List ℕ → List ℕ
list_filter_out_accum [] excluded accum = accum
list_filter_out_accum (head ∷ tail) excluded accum =
    list_filter_out_accum tail excluded
      (if list_contains head excluded then accum else list_append accum head)

unfoldable pub list_filter_out : List ℕ → List ℕ → List ℕ
list_filter_out list excluded = list_filter_out_accum list excluded []

-- What the compiler makes of a sort: a list, the assertion that a cycle breaks, or, for want of
-- fuel, nothing.
pub data Sorting : Type 0 where
  sorted : List ℕ → Sorting
  cyclic unfinished : Sorting

infixl 5 ◌>>=◌
abbrev pub ◌>>=◌ : Sorting → (List ℕ → Sorting) → Sorting
sorted xs >>= f = f xs
cyclic >>= f = cyclic
unfinished >>= f = unfinished

module _ (deps : ℕ → List ℕ) where
  -- `topo_list`, over the `topo_component` that it instantiates.
  unfoldable pub topo_list : (ℕ → Sorting) → List ℕ → Sorting
  topo_list go [] = sorted []
  topo_list go (head ∷ tail) = go head >>= λ head_sorted.
      topo_list go tail >>= λ tail_sorted. sorted (list_concat_unique head_sorted tail_sorted)

  -- `topo_component`, on fuel for its depth.
  unfoldable pub topo_component : ℕ → List ℕ → ℕ → Sorting
  topo_component zero visiting c = unfinished
  topo_component (suc fuel) visiting c =
      let deps_sorted = topo_list (topo_component fuel (list_append visiting c)) (deps c) in
      if list_contains c visiting
      then cyclic
      else deps_sorted >>= λ ds. sorted (list_append_unique ds c)

  -- `sorted_components` of a program with `count` components.
  unfoldable pub sorted_components : ℕ → List ℕ → Sorting
  sorted_components count roots = topo_list (topo_component (count + 1) []) roots

  -- `runnable_components`
  unfoldable pub runnable_components : ℕ → List ℕ → List ℕ → Sorting
  runnable_components count roots satisfied = sorted_components count roots >>= λ order.
      sorted_components count satisfied >>= λ before. sorted (list_filter_out order before)

-- The calls of the logger.
pub data Event : Type 0 where
  begin ok : ℕ → Event
  fail : ℕ → ℕ → Event

-- `init` of a component changes what the program keeps, and may fail with an error.
module _ {Backing : Type 0} (init : ℕ → Backing → Option ℕ × Backing) where
  abbrev pub succeeded : Option ℕ → Bool
  succeeded none = true
  succeeded (some error) = false

  abbrev pub logged : ℕ → Option ℕ → List Event
  logged c none = begin c ∷ ok c ∷ []
  logged c (some error) = begin c ∷ fail c error ∷ []

  unfoldable pub run_component_silent : ℕ → Backing → Bool × Backing
  run_component_silent c backing =
      let (outcome, backing') = init c backing in (succeeded outcome, backing')

  unfoldable pub run_component_logged : ℕ → Backing → Bool × Backing × List Event
  run_component_logged c backing =
      let (outcome, backing') = init c backing in (succeeded outcome, backing', logged c outcome)

  unfoldable pub run_silent : List ℕ → Backing → Bool × Backing
  run_silent [] backing = (true, backing)
  run_silent (c ∷ cs) backing =
      let (done, backing') = run_component_silent c backing in
      let rest = run_silent cs backing' in if done then rest else (false, backing')

  unfoldable pub run_logged : List ℕ → Backing → Bool × Backing × List Event
  run_logged [] backing = (true, backing, [])
  run_logged (c ∷ cs) backing =
      let (done, backing', events) = run_component_logged c backing in
      let (done', backing'', events') = run_logged cs backing' in
      if done then (done', backing'', events ++ events') else (false, backing', events)
