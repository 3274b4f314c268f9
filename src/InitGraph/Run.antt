-- ===== src/InitGraph/Run.antt =====
-- The run of the components (kernel/init/init_graph.hpp): none starts before all that it depends on
-- are ready.
use doom_os.Base.{
  ℕ, ◌≡◌, ◌≢◌, ◌<◌, refl, sym, ap, ◌∙◌, Bool, true, false, List, [], ◌∷◌, ◌++◌, Option, none, some,
  arith, Bool-cases, inl, inr, if◌then◌else◌,
}
use mathlib.Core.List.{append-nil, append_assoc}
use doom_os.InitGraph.{
  list_contains, list_append, list_filter_out_accum, list_filter_out, Sorting, sorted, cyclic,
  unfinished, ◌>>=◌, sorted_components, runnable_components, Event, begin, ok, fail,
  run_component_silent, run_component_logged, run_silent, run_logged,
}
use mathlib.Core.Bool.{true≢false}
use doom_os.InitGraph.Sort.{IsSorted, sorted_components_lem}
use doom_os.InitGraph.Lists.{list_contains-append, list_contains-list_append}
use doom_os.InitGraph.Schedule.{IsWithin, IsSchedule, empty, next}

-- The components that are reported ready, in order.
abbrev pub ready : List Event → List ℕ
ready [] = []
ready (begin c ∷ es) = ready es
ready (ok c ∷ es) = c ∷ ready es
ready (fail c e ∷ es) = ready es

abbrev is_sorted : Sorting → Bool
is_sorted (sorted xs) = true
is_sorted cyclic = false
is_sorted unfinished = false

abbrev order_of : Sorting → List ℕ
order_of (sorted xs) = xs
order_of cyclic = []
order_of unfinished = []

sorted≢cyclic : (xs : List ℕ) → sorted xs ≢ cyclic
sorted≢cyclic xs e = true≢false (ap is_sorted e)

sorted≢unfinished : (xs : List ℕ) → sorted xs ≢ unfinished
sorted≢unfinished xs e = true≢false (ap is_sorted e)

sorted-injective : (xs ys : List ℕ) → sorted xs ≡ sorted ys → xs ≡ ys
sorted-injective xs ys e = ap order_of e

module _ (deps : ℕ → List ℕ) where
  -- Each component starts when all that it depends on are ready, `before` at the beginning.
  abbrev pub IsGuarded : List ℕ → List Event → Type 0
  IsGuarded before [] = Unit
  IsGuarded before (begin c ∷ es) = IsWithin (deps c) before × IsGuarded before es
  IsGuarded before (ok c ∷ es) = IsGuarded (list_append before c) es
  IsGuarded before (fail c e ∷ es) = IsGuarded before es

  -- The same of an order, from the front.
  abbrev pub Follows : List ℕ → List ℕ → Type 0
  Follows before [] = Unit
  Follows before (x ∷ xs) = IsWithin (deps x) before × Follows (list_append before x) xs

  Follows-append :
      (before xs : List ℕ) (x : ℕ)
      → Follows before xs
      → IsWithin (deps x) (before ++ xs)
      → Follows before (xs ++ x ∷ [])
  unfolding list_contains
  Follows-append before [] x f w =
      (λ t h. let e = list_contains-append t before [] in let k = w t h in ground arith, tt)
  Follows-append before (y ∷ xs) x f w = (
    f.0,
    Follows-append (list_append before y) xs x f.1 (λ t h.
        let a = list_contains-append t before (y ∷ xs) in
        let b = list_contains-append t (list_append before y) xs in
        let c = list_contains-list_append t before y in let k = w t h in ground arith),
  )

  IsSchedule-Follows : (xs : List ℕ) → IsSchedule deps xs → Follows [] xs
  IsSchedule-Follows xs empty = tt
  IsSchedule-Follows xs (next ys y new d s) = Follows-append [] ys y (IsSchedule-Follows ys s) d

  -- Leaving out what is ready keeps the rest in an order.
  abbrev keep : List ℕ → List ℕ → List ℕ
  keep [] excluded = []
  keep (x ∷ xs) excluded =
      if list_contains x excluded then keep xs excluded else x ∷ keep xs excluded

  grown :
      (before seen : List ℕ) (x t : ℕ)
      → IsWithin before seen
      → list_contains x seen ≡ true
      → list_contains t (list_append before x) ≡ true
      → list_contains t seen ≡ true
  grown before seen x t w k h =
      let e = list_contains-list_append t before x in
      elim (Bool-cases (list_contains t before)) [
        | inl old ↦ w t old
        | inr new ↦ let same : t ≡ x = ground arith in rw same k
      ]

  kept :
      (before seen : List ℕ) (x t : ℕ)
      → IsWithin before seen
      → list_contains t (list_append before x) ≡ true
      → list_contains t (list_append seen x) ≡ true
  kept before seen x t w h =
      let e = list_contains-list_append t before x in
      let d = list_contains-list_append t seen x in
      elim (Bool-cases (list_contains t before)) [
        | inl old ↦ let k = w t old in ground arith
        | inr new ↦ ground arith
      ]

  keep-Follows :
      (before seen xs excluded : List ℕ)
      → Follows before xs
      → IsWithin before seen
      → IsWithin excluded seen
      → Follows seen (keep xs excluded)
  keep-Follows before seen [] excluded f w v = tt
  keep-Follows before seen (x ∷ xs) excluded f w v = elim (Bool-cases (list_contains x excluded)) [
    | inl out ↦ rw out (
        keep-Follows (list_append before x) seen xs excluded f.1
          (λ t h. grown before seen x t w (v x out) h) v)
    | inr left ↦ rw left (
      (λ t h. w t (f.0 t h)),
      keep-Follows (list_append before x) (list_append seen x) xs excluded f.1
          (λ t h. kept before seen x t w h)
          (λ t h. let e = list_contains-list_append t seen x in let k = v t h in ground arith),
    )
  ]

  filter_out_accum-keep :
      (xs excluded accum : List ℕ)
      → list_filter_out_accum xs excluded accum ≡ accum ++ keep xs excluded
  unfolding list_filter_out_accum
  filter_out_accum-keep [] excluded accum = sym (append-nil accum)
  filter_out_accum-keep (x ∷ xs) excluded accum = elim (Bool-cases (list_contains x excluded)) [
    | inl out ↦ rw out (filter_out_accum-keep xs excluded accum)
    | inr left ↦ rw left (
        filter_out_accum-keep xs excluded (list_append accum x)
        ∙ append_assoc accum (x ∷ []) (keep xs excluded))
  ]

  filter_out-Follows :
      (xs excluded : List ℕ) → IsSchedule deps xs → Follows excluded (list_filter_out xs excluded)
  unfolding list_filter_out list_contains
  filter_out-Follows xs excluded s = rw (filter_out_accum-keep xs excluded []) (
      keep-Follows [] excluded xs excluded (IsSchedule-Follows xs s) (λ t h. absurd (ground arith))
        (λ t h. h))

  module _ {Backing : Type 0} (init : ℕ → Backing → Option ℕ × Backing) where
    -- A run of a list of components: none starts too early, those that are ready are the first of
    -- the list, and all of it if the run succeeds; the run without a logger is the same.
    pub record IsRun (before xs : List ℕ) (backing : Backing) (done : Bool) (backing' : Backing)
        (events : List Event) : Type 0 where
      pub guarded : IsGuarded before events
      pub left : List ℕ
      pub ready_first : xs ≡ ready events ++ left
      pub complete : done ≡ true → left ≡ []
      pub silent : run_silent init xs backing ≡ (done, backing')

    abbrev pub IsRunOf : List ℕ → List ℕ → Backing → Type 0
    IsRunOf before xs backing =
        let (done, backing', events) = run_logged init xs backing in
        IsRun before xs backing done backing' events

    run_next :
        (before : List ℕ) (x : ℕ) (xs : List ℕ) (backing : Backing) (r : Option ℕ × Backing)
        → init x backing ≡ r
        → IsWithin (deps x) before
        → ((b : Backing) → IsRunOf (list_append before x) xs b)
        → IsRunOf before (x ∷ xs) backing
    unfolding run_logged run_silent run_component_logged run_component_silent
    run_next before x xs backing (some error, b) e w rest = rw e record {
      guarded = (w, tt);
      left = x ∷ xs;
      ready_first = refl;
      complete = λ h. absurd (true≢false (sym h));
      silent = rw e refl;
    }
    run_next before x xs backing (none, b) e w rest =
        let r = rest b in
        rw e record {
          guarded = (w, r.guarded);
          left = r.left;
          ready_first = ap (λ ys. x ∷ ys) r.ready_first;
          complete = r.complete;
          silent = rw e r.silent;
        }

    run_logged-IsRun :
        (before xs : List ℕ) (backing : Backing) → Follows before xs → IsRunOf before xs backing
    unfolding run_logged run_silent
    run_logged-IsRun before [] backing f = record {
      guarded = tt;
      left = [];
      ready_first = refl;
      complete = λ h. refl;
      silent = refl;
    }
    run_logged-IsRun before (x ∷ xs) backing f =
        run_next before x xs backing (init x backing) refl f.0
          (λ b. run_logged-IsRun (list_append before x) xs b f.1)

    module _ (count : ℕ) (known : (c d : ℕ) → list_contains d (deps c) ≡ true → d < count) where
      -- Of a program with `count` components: the run of the components that `roots` need without
      -- those that `satisfied` need. Each of them starts when all that it depends on are ready, if
      -- those that `satisfied` needs were so before; those that become ready are the first of the
      -- order, and all of it if the run succeeds. The run without a logger does the same.
      pub run_graph_after-IsRun :
          (roots satisfied xs : List ℕ) (backing : Backing)
          → ((c : ℕ) → list_contains c roots ≡ true → c < count)
          → ((c : ℕ) → list_contains c satisfied ≡ true → c < count)
          → runnable_components deps count roots satisfied ≡ sorted xs
          → (before : List ℕ) × (sorted_components deps count satisfied ≡ sorted before)
            × IsRunOf before xs backing
      unfolding runnable_components
      run_graph_after-IsRun roots satisfied xs backing r q e =
          split (sorted_components deps count roots) (sorted_components deps count satisfied) refl
            (sorted_components_lem deps count known roots r) e
        where
          split :
              (a b : Sorting)
              → sorted_components deps count satisfied ≡ b
              → IsSorted deps roots a
              → (a >>= λ order. b >>= λ before. sorted (list_filter_out order before)) ≡ sorted xs
              → (before : List ℕ) × (sorted_components deps count satisfied ≡ sorted before)
                × IsRunOf before xs backing
          split cyclic b f s h = absurd (sorted≢cyclic xs (sym h))
          split unfinished b f s h = absurd s
          split (sorted order) cyclic f s h = absurd (sorted≢cyclic xs (sym h))
          split (sorted order) unfinished f s h = absurd (sorted≢unfinished xs (sym h))
          split (sorted order) (sorted before) f s h =
              let k : list_filter_out order before ≡ xs =
                sorted-injective (list_filter_out order before) xs h in
              (
                before,
                f,
                run_logged-IsRun before xs backing (rw k at (filter_out-Follows order before s.0)),
              )
