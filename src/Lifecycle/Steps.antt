-- ===== src/Lifecycle/Steps.antt =====
-- What holds of the drivers' state between the steps of `visit` (kernel/device/lifecycle.cpp), and
-- how the steps combine.
use mathlib.Core.List.{Memᴰ}
use doom_os.Base.{
  ℕ, zero, suc, ◌+◌, ◌≤◌, ◌<◌, ◌≡◌, ◌↔◌, refl, ◌∙◌, Bool, true, false, ◌||◌, List, [], ◌∷◌, ◌++◌,
  some, get_or, set, length, length-set, get_or-set, ◌==◌, if◌then◌else◌, arith,
}
use doom_os.Lifecycle.{
  DriverId, DriverNode, CapabilityKey, ProvideRecord, RequireDriverRecord, RequireCapabilityRecord,
  Registry, VisitState, not_visited, visiting, visited, Lifecycle, ok, err, string_equal,
  driver_name, ids, find_node_by_id, find_node_by_name, provides, no_driver,
}
use doom_os.Lifecycle.Records.{node_at}
use doom_os.Lifecycle.Visit.{Ended, returned, unfinished, ◌>>=◌, node, set_visit}
use doom_os.Lifecycle.Names.{ids-set}

-- Whether the number stands in the list.
abbrev pub mem : ℕ → List ℕ → Bool
mem i [] = false
mem i (j ∷ js) = (i == j) || mem i js

pub mem-snoc : (i j : ℕ) (js : List ℕ) → mem i (js ++ j ∷ []) ≡ ((i == j) || mem i js)
mem-snoc i j [] = refl
mem-snoc i j (k ∷ ks) = ground (arith, mem-snoc i j ks)

-- Driver `i` requires driver `j`: by name, or as a provider of a capability.
pub data Requires (reg : Registry) (es : List DriverId) (i j : ℕ) : Type 0 where
  by_name :
      (r : RequireDriverRecord)
      → Memᴰ r reg.require_driver_records
      → string_equal (driver_name r.driver) (get_or es i no_driver).name ≡ true
      → find_node_by_name es r.dependency_name ≡ some j
      → Requires reg es i j
  by_capability :
      (r : RequireCapabilityRecord) (key : CapabilityKey) (p : ProvideRecord)
      → Memᴰ r reg.require_capability_records
      → string_equal (driver_name r.driver) (get_or es i no_driver).name ≡ true
      → r.capability ≡ some key
      → Memᴰ p reg.provide_records
      → provides p key ≡ true
      → find_node_by_id es p.driver ≡ some j
      → Requires reg es i j

-- The drivers of the list stand after those that they require, each once, but for those required
-- that are gone: that an earlier `exit_all` has stopped.
pub data IsOrder (reg : Registry) (gone : List ℕ) (es : List DriverId) : List ℕ → Type 0 where
  start : IsOrder reg gone es []
  next :
      (js : List ℕ) (i : ℕ)
      → IsOrder reg gone es js
      → mem i js ≡ false
      → ((j : ℕ) → Requires reg es i j → (mem j js || mem j gone) ≡ true)
      → IsOrder reg gone es (js ++ i ∷ [])

-- The number of nodes that `visit` has not reached.
abbrev pub is_new : VisitState → ℕ
is_new not_visited = 1
is_new visiting = 0
is_new visited = 0

abbrev pub count_new : List DriverNode → ℕ
count_new [] = 0
count_new (n ∷ ns) = is_new n.visit + count_new ns

pub count_new-set :
    (ns : List DriverNode) (i : ℕ) (n : DriverNode)
    → i < length ns
    → count_new (set ns i n) + is_new (node_at ns i).visit ≡ count_new ns + is_new n.visit
count_new-set [] i n h = absurd (omega arith)
count_new-set (m ∷ ns) zero n h = omega arith
count_new-set (m ∷ ns) (suc i) n h = omega (arith, count_new-set ns i n (omega arith))

pub is_new_le : (v : VisitState) → is_new v ≤ 1
is_new_le not_visited = omega arith
is_new_le visiting = omega arith
is_new_le visited = omega arith

pub count_new-le : (ns : List DriverNode) → count_new ns ≤ length ns
count_new-le [] = omega arith
count_new-le (n ∷ ns) = omega (arith, is_new_le n.visit, count_new-le ns)

module _ {W : Type 0} where
  abbrev pub visit_of : Lifecycle W → ℕ → VisitState
  visit_of s i = (node s i).visit

  -- A later state of the same nodes: what was visited stays so, and what is being visited too.
  pub record Follows (s t : Lifecycle W) : Type 0 where
    pub same_ids : ids t.nodes ≡ ids s.nodes
    pub same_length : length t.nodes ≡ length s.nodes
    pub stays_visited : (j : ℕ) → visit_of s j ≡ visited → visit_of t j ≡ visited
    pub stays_visiting : (j : ℕ) → visit_of s j ≡ visiting → visit_of t j ≡ visiting
    pub fewer : count_new t.nodes ≤ count_new s.nodes
    pub same_built : t.built ≡ s.built
    pub same_all : t.initialized_all ≡ s.initialized_all

  pub Follows-refl : (s : Lifecycle W) → Follows s s
  Follows-refl s = record {
    same_ids = refl;
    same_length = refl;
    stays_visited = λ j e. e;
    stays_visiting = λ j e. e;
    fewer = omega arith;
    same_built = refl;
    same_all = refl;
  }

  pub Follows-trans : (s t u : Lifecycle W) → Follows s t → Follows t u → Follows s u
  Follows-trans s t u f g = record {
    same_ids = g.same_ids ∙ f.same_ids;
    same_length = g.same_length ∙ f.same_length;
    stays_visited = λ j e. g.stays_visited j (f.stays_visited j e);
    stays_visiting = λ j e. g.stays_visiting j (f.stays_visiting j e);
    fewer = omega (arith, f.fewer, g.fewer);
    same_built = g.same_built ∙ f.same_built;
    same_all = g.same_all ∙ f.same_all;
  }

  -- The drivers that have been initialised: those visited that are not gone, in order, and marked so.
  pub record IsOrdered (reg : Registry) (gone : List ℕ) (s : Lifecycle W) : Type 0 where
    pub order : IsOrder reg gone (ids s.nodes) s.initialized
    pub listed : (j : ℕ) → (visit_of s j ≡ visited) ↔ ((mem j s.initialized || mem j gone) ≡ true)
    pub marked : (j : ℕ) → (node s j).initialized ≡ mem j s.initialized

  -- A call from a state in order ends in one, and when it succeeds P holds there.
  abbrev pub Keeps :
      Registry → List ℕ → Lifecycle W → (Lifecycle W → Type 0) → Ended (Lifecycle W) → Type 0
  Keeps reg gone s P (returned ok t) = Follows s t × IsOrdered reg gone t × P t
  Keeps reg gone s P (returned (err e) t) = Follows s t × IsOrdered reg gone t
  Keeps reg gone s P unfinished = ⊥

  pub Keeps-bind :
      (reg : Registry) (gone : List ℕ) (s : Lifecycle W) (P Q : Lifecycle W → Type 0)
      (m : Ended (Lifecycle W)) (f : Lifecycle W → Ended (Lifecycle W))
      → Keeps reg gone s P m
      → ((t : Lifecycle W) → Follows s t → IsOrdered reg gone t → P t → Keeps reg gone t Q (f t))
      → Keeps reg gone s Q (m >>= f)
  Keeps-bind reg gone s P Q (returned ok t) f (follows, ordered, p) g =
      later (f t) (g t follows ordered p)
    where
      later : (r : Ended (Lifecycle W)) → Keeps reg gone t Q r → Keeps reg gone s Q r
      later (returned ok u) (b, o, q) = (Follows-trans s t u follows b, o, q)
      later (returned (err e) u) (b, o) = (Follows-trans s t u follows b, o)
      later unfinished k = k
  Keeps-bind reg gone s P Q (returned (err e) t) f k g = k
  Keeps-bind reg gone s P Q unfinished f k g = absurd k

  pub Keeps-imp :
      (reg : Registry) (gone : List ℕ) (s : Lifecycle W) (P Q : Lifecycle W → Type 0)
      (m : Ended (Lifecycle W))
      → Keeps reg gone s P m
      → ((t : Lifecycle W) → Follows s t → P t → Q t)
      → Keeps reg gone s Q m
  Keeps-imp reg gone s P Q (returned ok t) (follows, ordered, p) g =
      (follows, ordered, g t follows p)
  Keeps-imp reg gone s P Q (returned (err e) t) k g = k
  Keeps-imp reg gone s P Q unfinished k g = absurd k

  -- `set_visit` by node.
  module _ (s : Lifecycle W) (i : ℕ) (v : VisitState) (inside : i < length s.nodes) where
    node-set_visit :
        (j : ℕ)
        → node (set_visit i v s) j ≡ (if i == j then record (node s i) { visit = v } else node s j)
    unfolding set_visit
    node-set_visit j = get_or-set s.nodes i j _ _ inside

    pub visit_of-set_visit :
        (j : ℕ) → visit_of (set_visit i v s) j ≡ (if i == j then v else visit_of s j)
    visit_of-set_visit j = ground (arith, node-set_visit j)

    pub initialized-set_visit :
        (j : ℕ) → (node (set_visit i v s) j).initialized ≡ (node s j).initialized
    initialized-set_visit j = ground (arith, node-set_visit j)

    pub ids-set_visit : ids (set_visit i v s).nodes ≡ ids s.nodes
    unfolding set_visit
    ids-set_visit = ids-set s.nodes i _ refl

    pub length-set_visit : length (set_visit i v s).nodes ≡ length s.nodes
    unfolding set_visit
    length-set_visit = length-set s.nodes i _

    pub count_new-set_visit :
        count_new (set_visit i v s).nodes + is_new (visit_of s i) ≡ count_new s.nodes + is_new v
    unfolding set_visit
    count_new-set_visit = count_new-set s.nodes i _ inside

    pub flags-set_visit :
        ((set_visit i v s).built ≡ s.built)
        × ((set_visit i v s).initialized_all ≡ s.initialized_all)
    unfolding set_visit
    flags-set_visit = (refl, refl)

    pub list-set_visit : (set_visit i v s).initialized ≡ s.initialized
    unfolding set_visit
    list-set_visit = refl
