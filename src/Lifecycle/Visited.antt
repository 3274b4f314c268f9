-- ===== src/Lifecycle/Visited.antt =====
-- `visit` and `init_all` of kernel/device/lifecycle.cpp: they end, and the drivers are initialised
-- in the order of their requirements.
use doom_os.Base.{
  ℕ, zero, suc, ◌+◌, ◌≤◌, ◌<◌, ◌≡◌, ◌≢◌, refl, sym, ap, ◌∙◌, true, false, ◌||◌, List, [], ◌∷◌, ◌++◌,
  length, set, ◌==◌, if◌then◌else◌, arith, Bool-cases, inl, inr,
}
use doom_os.Lifecycle.{
  DriverNode, Registry, VisitState, not_visited, visiting, visited, Lifecycle, DriverCode, ok, err,
  ids,
}
use doom_os.Lifecycle.Visit.{
  Ended, returned, unfinished, ◌>>=◌, on_error, node, set_visit, set_initialized, run_driver,
  visit_capability_dependencies, visit_new, visit_by, visit, visit_all,
}
use doom_os.Lifecycle.Names.{id_at}
use doom_os.Lifecycle.Records.{node_at}
use doom_os.Lifecycle.Steps.{
  mem, mem-snoc, Requires, by_name, by_capability, next, is_new, is_new_le, count_new, visit_of,
  Follows, Follows-refl, Follows-trans, IsOrdered, Keeps, Keeps-bind, Keeps-imp, visit_of-set_visit,
  initialized-set_visit, ids-set_visit, length-set_visit, count_new-set_visit, list-set_visit,
  flags-set_visit,
}
use doom_os.Lifecycle.Order.{
  Visits, DriversVisited, CapabilitiesVisited, drivers-Keeps, capabilities-Keeps,
}
use doom_os.Lifecycle.Runs.{
  SameNodes, Runs, run_driver-Runs, visit_of-set_initialized, initialized-set_initialized,
  count_new-set_initialized, ids-set_initialized, length-set_initialized, list-set_initialized,
  flags-set_initialized,
}

module _ {W : Type 0} (reg : Registry) (gone : List ℕ) where
  same-IsOrdered : (s t : Lifecycle W) → SameNodes s t → IsOrdered reg gone s → IsOrdered reg gone t
  same-IsOrdered s t same o = record {
    order = rw (same.nodes, same.listed) o.order;
    listed = λ j. rw (same.nodes, same.listed) (o.listed j);
    marked = λ j. rw (same.nodes, same.listed) (o.marked j);
  }

  same-Follows : (s t : Lifecycle W) → SameNodes s t → Follows s t
  same-Follows s t same = record {
    same_ids = rw same.nodes refl;
    same_length = rw same.nodes refl;
    stays_visited = λ j e. rw same.nodes e;
    stays_visiting = λ j e. rw same.nodes e;
    fewer = rw same.nodes (omega arith);
    same_built = same.same_built;
    same_all = same.same_all;
  }

  -- A node that is being visited is not listed, and its state may change.
  unlisted :
      (t : Lifecycle W) (i : ℕ)
      → IsOrdered reg gone t
      → visit_of t i ≢ visited
      → (mem i t.initialized || mem i gone) ≡ false
  unlisted t i o e = elim (Bool-cases (mem i t.initialized || mem i gone)) [
    | inl listed ↦ absurd (e ((o.listed i).1 listed))
    | inr other ↦ other
  ]

  module _ (t : Lifecycle W) (i : ℕ) (v : VisitState) (inside : i < length t.nodes)
      (o : IsOrdered reg gone t) (open_ : visit_of t i ≢ visited) (v≢visited : v ≢ visited) where
    set_visit-IsOrdered : IsOrdered reg gone (set_visit i v t)
    set_visit-IsOrdered =
        let off = unlisted t i o open_ in
        record {
          order = rw (ids-set_visit t i v inside, list-set_visit t i v inside) o.order;
          listed = λ j.
              rw (list-set_visit t i v inside, visit_of-set_visit t i v inside j)
                (elim (Bool-cases (i == j)) [
                  | inl same ↦
                      let e : i ≡ j = ground arith in
                      rw same (λ x. absurd (v≢visited x), λ x. ground arith)
                  | inr other ↦ rw other (o.listed j)
                ]);
          marked = λ j.
              initialized-set_visit t i v inside j
              ∙ o.marked j
              ∙ ap (mem j) (sym (list-set_visit t i v inside));
        }

  -- From the visit of a node, back to the state before it.
  module _ (s t : Lifecycle W) (i : ℕ) (v : VisitState) (inside : i < length s.nodes)
      (fresh : visit_of s i ≡ not_visited) (f : Follows (set_visit i visiting s) t) where
    inside_later : i < length t.nodes
    inside_later = omega (arith, f.same_length, length-set_visit s i visiting inside)

    still_visiting : visit_of t i ≡ visiting
    still_visiting = f.stays_visiting i (ground (arith, visit_of-set_visit s i visiting inside i))

    closed-Follows : Follows s (set_visit i v t)
    closed-Follows = record {
      same_ids = ids-set_visit t i v inside_later ∙ f.same_ids ∙ ids-set_visit s i visiting inside;
      same_length =
          length-set_visit t i v inside_later
          ∙ f.same_length
          ∙ length-set_visit s i visiting inside;
      stays_visited = λ j e.
          let a = f.stays_visited j in
          ground (
            arith,
            visit_of-set_visit t i v inside_later j,
            visit_of-set_visit s i visiting inside j,
            a,
            fresh,
          );
      stays_visiting = λ j e.
          let a = f.stays_visiting j in
          ground (
            arith,
            visit_of-set_visit t i v inside_later j,
            visit_of-set_visit s i visiting inside j,
            a,
            fresh,
          );
      fewer =
          let a = count_new-set_visit t i v inside_later in
          let b = count_new-set_visit s i visiting inside in
          let a' : count_new (set_visit i v t).nodes + 0 ≡ count_new t.nodes + is_new v =
            rw still_visiting at a in
          let b' : count_new (set_visit i visiting s).nodes + 1 ≡ count_new s.nodes + 0 =
            rw fresh at b in
          omega (arith, f.fewer, is_new_le v);
      same_built =
          (flags-set_visit t i v inside_later).0
          ∙ f.same_built
          ∙ (flags-set_visit s i visiting inside).0;
      same_all =
          (flags-set_visit t i v inside_later).1
          ∙ f.same_all
          ∙ (flags-set_visit s i visiting inside).1;
    }

-- `set_visit` looks at the nodes and keeps the list.
same-set_visit :
    {W : Type 0} (s t : Lifecycle W) (i : ℕ) (v : VisitState)
    → SameNodes s t
    → SameNodes (set_visit i v s) (set_visit i v t)
unfolding set_visit
same-set_visit s t i v same = record {
  nodes = ap (λ (ns : List DriverNode). set ns i (record (node_at ns i) { visit = v })) same.nodes;
  listed = same.listed;
  same_built = same.same_built;
  same_all = same.same_all;
}

module _ {W : Type 0} (code : DriverCode W) (reg : Registry) (gone : List ℕ) where
  -- The end of `visit` of the node `i`, whose requirements are met in t.
  module _ (s t : Lifecycle W) (i : ℕ) (inside : i < length s.nodes)
      (fresh : visit_of s i ≡ not_visited) (f : Follows (set_visit i visiting s) t)
      (o : IsOrdered reg gone t)
      (met : (j : ℕ) → Requires reg (ids s.nodes) i j → visit_of t j ≡ visited) where
    here : i < length t.nodes
    here = inside_later reg gone s t i visiting inside fresh f

    unlisted_here : mem i t.initialized ≡ false
    unlisted_here =
        let off =
          unlisted reg gone t i o
            (λ e. let v = still_visiting reg gone s t i visiting inside fresh f in ground arith) in
        ground arith

    after : Lifecycle W
    after = set_visit i visited (set_initialized i t)

    visit_of-after : (j : ℕ) → visit_of after j ≡ (if i == j then visited else visit_of t j)
    unfolding after
    visit_of-after j = ground (
      arith,
      visit_of-set_visit (set_initialized i t) i visited (rw (length-set_initialized t i) here) j,
      visit_of-set_initialized t i here j,
    )

    list-after : after.initialized ≡ t.initialized ++ i ∷ []
    unfolding after
    list-after =
        list-set_visit (set_initialized i t) i visited (rw (length-set_initialized t i) here)
        ∙ list-set_initialized t i

    initialized-after :
        (j : ℕ) → (node after j).initialized ≡ (if i == j then true else (node t j).initialized)
    unfolding after
    initialized-after j =
        initialized-set_visit (set_initialized i t) i visited (rw (length-set_initialized t i) here)
          j
        ∙ initialized-set_initialized t i here j

    mem-after : (j : ℕ) → mem j after.initialized ≡ ((j == i) || mem j t.initialized)
    mem-after j = ap (mem j) list-after ∙ mem-snoc j i t.initialized

    ids-after : ids after.nodes ≡ ids t.nodes
    unfolding after
    ids-after =
        ids-set_visit (set_initialized i t) i visited (rw (length-set_initialized t i) here)
        ∙ ids-set_initialized t i

    after-Follows : Follows s after
    unfolding after
    after-Follows =
        let l : i < length (set_initialized i t).nodes = rw (length-set_initialized t i) here in
        record {
          same_ids = ids-after ∙ f.same_ids ∙ ids-set_visit s i visiting inside;
          same_length =
              length-set_visit (set_initialized i t) i visited l
              ∙ length-set_initialized t i
              ∙ f.same_length
              ∙ length-set_visit s i visiting inside;
          stays_visited = λ j e.
              let a = f.stays_visited j in
              ground (arith, visit_of-after j, visit_of-set_visit s i visiting inside j, a, fresh);
          stays_visiting = λ j e.
              let a = f.stays_visiting j in
              ground (arith, visit_of-after j, visit_of-set_visit s i visiting inside j, a, fresh);
          fewer =
              let a = count_new-set_visit (set_initialized i t) i visited l in
              let b = count_new-set_visit s i visiting inside in
              let b' : count_new (set_visit i visiting s).nodes + 1 ≡ count_new s.nodes + 0 =
                rw fresh at b in
              let c = count_new-set_initialized t i here in omega (arith, f.fewer);
          same_built =
              (flags-set_visit (set_initialized i t) i visited l).0
              ∙ (flags-set_initialized t i).0
              ∙ f.same_built
              ∙ (flags-set_visit s i visiting inside).0;
          same_all =
              (flags-set_visit (set_initialized i t) i visited l).1
              ∙ (flags-set_initialized t i).1
              ∙ f.same_all
              ∙ (flags-set_visit s i visiting inside).1;
        }

    after-IsOrdered : IsOrdered reg gone after
    after-IsOrdered = record {
      order =
          rw (ids-after, list-after)
            (next t.initialized i o.order unlisted_here (λ j r.
              (o.listed j).0 (met j (rw (f.same_ids ∙ ids-set_visit s i visiting inside) at r))));
      listed = λ j. ground (arith, visit_of-after j, mem-after j, o.listed j);
      marked = λ j. ground (arith, initialized-after j, mem-after j, o.marked j);
    }

    -- `run_driver` from there, and the mark that `visit` sets.
    run-Keeps :
        Keeps reg gone s
          (λ u. visit_of u i ≡ visited)
          (on_error (set_visit i not_visited) (run_driver code reg i t) >>= λ u.
            returned ok (set_visit i visited u))
    unfolding after
    run-Keeps = ran (run_driver code reg i t) (run_driver-Runs code reg i t)
      where
        ran :
            (r : Ended (Lifecycle W))
            → Runs i t r
            → Keeps reg gone s
                (λ u. visit_of u i ≡ visited)
                (on_error (set_visit i not_visited) r >>= λ u. returned ok (set_visit i visited u))
        ran (returned ok u) same =
            let k : SameNodes after (set_visit i visited u) =
              same-set_visit (set_initialized i t) u i visited same in
            let v : visit_of after i ≡ visited = ground (arith, visit_of-after i) in
            (
              Follows-trans s after _ after-Follows (same-Follows reg gone after _ k),
              same-IsOrdered reg gone after _ k after-IsOrdered,
              (same-Follows reg gone after _ k).stays_visited i v,
            )
        ran (returned (err e) u) same =
            let g = Follows-trans _ t u f (same-Follows reg gone t u same) in
            let n = still_visiting reg gone s u i not_visited inside fresh g in
            (
              closed-Follows reg gone s u i not_visited inside fresh g,
              set_visit-IsOrdered reg gone u i not_visited
                  (inside_later reg gone s u i not_visited inside fresh g)
                  (same-IsOrdered reg gone t u same o) (λ e. ground arith) (λ e. ground arith),
            )
        ran unfinished k = k

  visit_new-Keeps :
      (go : ℕ → Lifecycle W → Ended (Lifecycle W)) (bound i : ℕ) (s : Lifecycle W)
      → Visits code reg gone go bound
      → IsOrdered reg gone s
      → count_new s.nodes < bound + 1
      → i < length s.nodes
      → visit_of s i ≡ not_visited
      → Keeps reg gone s (λ u. visit_of u i ≡ visited) (visit_new code reg go i s)
  unfolding visit_new
  visit_new-Keeps go bound i s visits o few inside fresh = close _ (
      Keeps-bind reg gone s1 Named Met _
        (λ t.
          visit_capability_dependencies code reg go reg.require_capability_records
            (node t i).id.name t)
        (drivers-Keeps code reg gone go bound visits reg.require_driver_records (node s i).id.name
          s1 o1 few1)
        (λ t f ot named.
          Keeps-imp reg gone t _ Met _
            (capabilities-Keeps code reg gone go bound visits reg.require_capability_records
              (node t i).id.name t ot (omega (arith, f.fewer, few1)))
            (λ u g provided. meets t u f g named provided)))
    where
      s1 : Lifecycle W
      s1 = set_visit i visiting s

      same_ids : ids s1.nodes ≡ ids s.nodes
      same_ids = ids-set_visit s i visiting inside

      o1 : IsOrdered reg gone s1
      o1 =
          set_visit-IsOrdered reg gone s i visiting inside o (λ e. ground arith) (λ e. ground arith)

      few1 : count_new s1.nodes < bound
      few1 =
          let b = count_new-set_visit s i visiting inside in
          let b' : count_new (set_visit i visiting s).nodes + 1 ≡ count_new s.nodes + 0 =
            rw fresh at b in
          omega arith

      Named : Lifecycle W → Type 0
      Named =
          DriversVisited code reg gone go bound visits reg.require_driver_records (node s i).id.name
            s1

      Met : Lifecycle W → Type 0
      Met t = (j : ℕ) → Requires reg (ids s.nodes) i j → visit_of t j ≡ visited

      meets :
          (t u : Lifecycle W)
          → Follows s1 t
          → Follows t u
          → Named t
          → CapabilitiesVisited code reg gone go bound visits reg.require_capability_records
              (node t i).id.name
              t
              u
          → Met u
      meets t u f g named provided j (by_name r m same e) =
          g.stays_visited j (named r j m (rw (id_at s.nodes i) same) (rw same_ids e))
      meets t u f g named provided j (by_capability r key p m same k n offers e) =
          let same_ids' : ids t.nodes ≡ ids s.nodes = f.same_ids ∙ same_ids in
          provided r m (rw (id_at t.nodes i, same_ids') same) key k p j n offers (rw same_ids' e)

      close :
          (r : Ended (Lifecycle W))
          → Keeps reg gone s1 Met r
          → Keeps reg gone s
              (λ u. visit_of u i ≡ visited)
              (on_error (set_visit i not_visited) (r >>= (λ t. run_driver code reg i t)) >>= λ u.
                returned ok (set_visit i visited u))
      close (returned ok t) (f, ot, met) = run-Keeps s t i inside fresh f ot met
      close (returned (err e) t) (f, ot) =
          let n = still_visiting reg gone s t i not_visited inside fresh f in
          (
            closed-Follows reg gone s t i not_visited inside fresh f,
            set_visit-IsOrdered reg gone t i not_visited
                (inside_later reg gone s t i not_visited inside fresh f) ot (λ e. ground arith)
                (λ e. ground arith),
          )
      close unfinished k = k

  visit-Keeps :
      (fuel i : ℕ) (s : Lifecycle W)
      → IsOrdered reg gone s
      → count_new s.nodes < fuel
      → i < length s.nodes
      → Keeps reg gone s (λ u. visit_of u i ≡ visited) (visit code reg fuel i s)
  unfolding visit
  visit-Keeps zero i s o few inside = absurd (omega arith)
  visit-Keeps (suc fuel) i s o few inside =
      by_state (λ j t ot few' inside'. visit-Keeps fuel j t ot few' inside') (visit_of s i) refl
    where
      by_state :
          Visits code reg gone (visit code reg fuel) fuel
          → (v : VisitState) → visit_of s i ≡ v
          → Keeps reg gone s
              (λ u. visit_of u i ≡ visited)
              (visit_by code reg v (visit code reg fuel) i s)
      by_state visits visited e = (Follows-refl s, o, e)
      by_state visits visiting e = (Follows-refl s, o)
      by_state visits not_visited e =
          visit_new-Keeps (visit code reg fuel) fuel i s visits o (omega arith) inside e

  -- The loop of `init_all`: the nodes from `i` on.
  pub visit_all-Keeps :
      (fuel i rounds : ℕ) (s : Lifecycle W)
      → IsOrdered reg gone s
      → count_new s.nodes < fuel
      → i + rounds ≤ length s.nodes
      → Keeps reg gone s
          (λ u. (j : ℕ) → i ≤ j → j < i + rounds → visit_of u j ≡ visited)
          (visit_all code reg fuel i rounds s)
  unfolding visit_all
  visit_all-Keeps fuel i zero s o few inside = (Follows-refl s, o, λ j a b. absurd (omega arith))
  visit_all-Keeps fuel i (suc rounds) s o few inside =
      Keeps-bind reg gone s (λ u. visit_of u i ≡ visited) _ (visit code reg fuel i s)
        (λ t. visit_all code reg fuel (i + 1) rounds t) (visit-Keeps fuel i s o few (omega arith))
        (λ t f ot v.
          Keeps-imp reg gone t
            (λ u. (j : ℕ) → i + 1 ≤ j → j < i + 1 + rounds → visit_of u j ≡ visited) _ _
            (visit_all-Keeps fuel (i + 1) rounds t ot (omega (arith, f.fewer))
              (omega (arith, f.same_length)))
            (λ u g rest j a b. elim (Bool-cases (i == j)) [
              | inl here ↦ let e : i ≡ j = ground arith in g.stays_visited j (rw (sym e) v)
              | inr later ↦ rest j (ground arith) (omega arith)
            ]))
