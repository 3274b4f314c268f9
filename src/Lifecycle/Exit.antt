-- ===== src/Lifecycle/Exit.antt =====
-- `exit_all` of kernel/device/lifecycle.cpp: the drivers leave in the reverse of the order in which
-- they were initialised.
use doom_os.Base.{
  ℕ, zero, suc, ◌<◌, ◌≡◌, refl, sym, ap, ◌∙◌, true, false, List, [], ◌∷◌, ◌++◌, length,
  length-append, get_or, get_or-set, arith,
}
use doom_os.Lifecycle.{DriverNode, new_node, no_driver, Registry, Lifecycle, DriverCode, ids}
use doom_os.Lifecycle.Records.{node_at}
use doom_os.Lifecycle.Names.{ids-set}
use doom_os.Lifecycle.Visit.{node, call_exit, exit_one, exit_down, exit_all}
use doom_os.Lifecycle.Steps.{mem, mem-snoc, IsOrder, start, next, IsOrdered, visit_of}

get_or-snoc : (js rest : List ℕ) (i : ℕ) → get_or (js ++ i ∷ rest) (length js) 0 ≡ i
get_or-snoc [] rest i = refl
get_or-snoc (j ∷ js) rest i = get_or-snoc js rest i

append_snoc : (js rest : List ℕ) (i : ℕ) → (js ++ i ∷ []) ++ rest ≡ js ++ i ∷ rest
append_snoc [] rest i = refl
append_snoc (j ∷ js) rest i = ap (λ ks. j ∷ ks) (append_snoc js rest i)

append_nil : (js : List ℕ) → js ++ [] ≡ js
append_nil [] = refl
append_nil (j ∷ js) = ap (λ ks. j ∷ ks) (append_nil js)

module _ {W : Type 0} (code : DriverCode W) (reg : Registry) (s : Lifecycle W) where
  -- The exit functions of the drivers of a list, the last first.
  abbrev pub exits : List ℕ → W → W
  exits [] w = w
  exits (i ∷ is) w = call_exit code reg (node s i).exit s.capabilities (exits is w)

  exits-snoc :
      (js : List ℕ) (i : ℕ) (w : W)
      → exits (js ++ i ∷ []) w ≡ exits js (call_exit code reg (node s i).exit s.capabilities w)
  exits-snoc [] i w = refl
  exits-snoc (j ∷ js) i w =
      ap (call_exit code reg (node s j).exit s.capabilities) (exits-snoc js i w)

  -- A state in which the drivers of `js`, of those of s, have yet to leave.
  record Leaving (js rest : List ℕ) (t : Lifecycle W) : Type 0 where
    listed : t.initialized ≡ js ++ rest
    same_exit : (j : ℕ) → (node t j).exit ≡ (node s j).exit
    same_visit : (j : ℕ) → visit_of t j ≡ visit_of s j
    same_built : t.built ≡ s.built
    same_capabilities : t.capabilities ≡ s.capabilities
    same_ids : ids t.nodes ≡ ids s.nodes
    marked : (j : ℕ) → (node t j).initialized ≡ mem j js

  inside : (t : Lifecycle W) (i : ℕ) → (node t i).initialized ≡ true → i < length t.nodes
  inside t i e = bound t.nodes i e
    where
      bound : (ns : List DriverNode) (i : ℕ) → (node_at ns i).initialized ≡ true → i < length ns
      bound [] i e = ground arith
      bound (n ∷ ns) zero e = omega arith
      bound (n ∷ ns) (suc i) e = omega (arith, bound ns i e)

  exit_one-Leaving :
      (js rest : List ℕ) (i : ℕ) (t : Lifecycle W)
      → Leaving (js ++ i ∷ []) rest t
      → mem i js ≡ false
      → Leaving js (i ∷ rest) (exit_one code reg i t)
        × ((exit_one code reg i t).world
            ≡ call_exit code reg (node s i).exit s.capabilities t.world)
  unfolding exit_one
  exit_one-Leaving js rest i t l off =
      let flag : (node t i).initialized ≡ true = ground (arith, l.marked i, mem-snoc i i js) in
      let here = inside t i flag in
      rw flag (
        record {
          listed = l.listed ∙ append_snoc js rest i;
          same_exit = λ j.
              let a = l.same_exit j in
              ground (
                arith,
                get_or-set t.nodes i j (record (node t i) { initialized = false })
                    (new_node no_driver),
              );
          same_visit = λ j.
              let a = l.same_visit j in
              ground (
                arith,
                get_or-set t.nodes i j (record (node t i) { initialized = false })
                    (new_node no_driver),
              );
          same_built = l.same_built;
          same_capabilities = l.same_capabilities;
          same_ids = ids-set t.nodes i _ refl ∙ l.same_ids;
          marked = λ j. ground (
            arith,
            get_or-set t.nodes i j (record (node t i) { initialized = false }) (new_node no_driver),
            l.marked j,
            mem-snoc j i js,
          );
        },
        ap (λ e. call_exit code reg e t.capabilities t.world) (l.same_exit i)
            ∙ ap (λ cs. call_exit code reg (node s i).exit cs t.world) l.same_capabilities,
      )

  exit_down-Leaving :
      {gone : List ℕ} (js : List ℕ)
      → IsOrder reg gone (ids s.nodes) js
      → (rest : List ℕ) (t : Lifecycle W) → Leaving js rest t
      → Leaving [] (js ++ rest) (exit_down code reg (length js) t)
        × ((exit_down code reg (length js) t).world ≡ exits js t.world)
  unfolding exit_down
  exit_down-Leaving _ start rest t l = (l, refl)
  exit_down-Leaving _ (next js i o off met) rest t l =
      let n : length (js ++ i ∷ []) ≡ suc (length js) = omega (arith, length-append js (i ∷ [])) in
      let at : get_or t.initialized (length js) 0 ≡ i =
        rw (l.listed ∙ append_snoc js rest i) (get_or-snoc js rest i) in
      let (l', w) = exit_one-Leaving js rest i t l off in
      let (l'', w') = exit_down-Leaving js o (i ∷ rest) (exit_one code reg i t) l' in
      let step : exit_down code reg (length (js ++ i ∷ [])) t
          ≡ exit_down code reg (length js) (exit_one code reg i t) =
        ap (λ k. exit_down code reg k t) n
        ∙ ap (λ k. exit_down code reg (length js) (exit_one code reg k t)) at in
      rw step (rw (append_snoc js rest i) l'', w' ∙ ap (exits js) w ∙ sym (exits-snoc js i t.world))

  -- What `exit_all` leaves, after the drivers have left.
  pub record Left (t : Lifecycle W) : Type 0 where
    pub world : t.world ≡ exits s.initialized s.world
    pub none_listed : t.initialized ≡ []
    pub none_registered : t.capabilities ≡ []
    pub none_initialized : (j : ℕ) → (node t j).initialized ≡ false
    pub not_all : t.initialized_all ≡ false
    pub same_visit : (j : ℕ) → visit_of t j ≡ visit_of s j
    pub same_built : t.built ≡ s.built
    pub same_ids : ids t.nodes ≡ ids s.nodes

  -- From a state in order `exit_all` runs the exit function of each driver that is initialised once,
  -- the driver that was initialised last first; then no driver and no capability is listed, and no
  -- driver is marked as initialised. The nodes keep what they say of their visit.
  pub exit_all_lem : {gone : List ℕ} → IsOrdered reg gone s → Left (exit_all code reg s)
  unfolding exit_all
  exit_all_lem o =
      let (l, w) = exit_down-Leaving s.initialized o.order [] s (record {
        listed = sym (append_nil s.initialized);
        same_exit = λ j. refl;
        same_visit = λ j. refl;
        same_built = refl;
        same_capabilities = refl;
        same_ids = refl;
        marked = o.marked;
      }) in
      record {
        world = w;
        none_listed = refl;
        none_registered = refl;
        none_initialized = l.marked;
        not_all = refl;
        same_visit = l.same_visit;
        same_built = l.same_built;
        same_ids = l.same_ids;
      }
