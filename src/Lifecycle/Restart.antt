-- ===== src/Lifecycle/Restart.antt =====
-- `init_all` after `exit_all` (kernel/device/lifecycle.cpp).
use doom_os.Base.{ℕ, zero, suc, ◌+◌, ◌<◌, ◌≡◌, refl, sym, ap, ◌∙◌, true, List, length, arith}
use doom_os.Lifecycle.{DriverId, Registry, visited, VisitState, Lifecycle, DriverCode, ok}
use doom_os.Lifecycle.Names.{length-ids}
use doom_os.Lifecycle.Visit.{Ended, returned, ◌>>=◌, visit, visit_by, visit_all, init_all, exit_all}
use doom_os.Lifecycle.Steps.{visit_of}
use doom_os.Lifecycle.Initialise.{IsReady, init_all-more, build_registry-built}
use doom_os.Lifecycle.Exit.{exit_all_lem}

module _ {W : Type 0} (code : DriverCode W) (reg : Registry) where
  visit-visited :
      (fuel i : ℕ) (s : Lifecycle W)
      → visit_of s i ≡ visited
      → visit code reg (suc fuel) i s ≡ returned ok s
  unfolding visit
  visit-visited fuel i s e =
      ap (λ (v : VisitState). visit_by code reg v (visit code reg fuel) i s) e

  visit_all-visited :
      (fuel i rounds : ℕ) (s : Lifecycle W)
      → ((j : ℕ) → j < i + rounds → visit_of s j ≡ visited)
      → visit_all code reg (suc fuel) i rounds s ≡ returned ok s
  unfolding visit_all
  visit_all-visited fuel i zero s all = refl
  visit_all-visited fuel i (suc rounds) s all =
      rw (visit-visited fuel i s (all i (omega arith)))
        (visit_all-visited fuel (i + 1) rounds s (λ j h. all j (omega arith)))

  -- Once all drivers have been initialised and have left, `init_all` reports success and does
  -- nothing but say that all are initialised: no driver's function runs and none is listed.
  pub init_all-exit_all :
      {gone : List ℕ} (s : Lifecycle W)
      → IsReady reg gone s
      → s.built ≡ true
      → s.initialized_all ≡ true
      → init_all code reg (exit_all code reg s)
        ≡ returned ok (record (exit_all code reg s) { initialized_all = true })
  init_all-exit_all s ready built all =
      let o = ready.ordered built in
      let left = exit_all_lem code reg s o in
      let t : Lifecycle W = exit_all code reg s in
      let count : length t.nodes ≡ length reg.drivers =
        sym (length-ids t.nodes)
        ∙ ap (λ (es : List DriverId). length es) (left.same_ids ∙ ready.drivers built) in
      let visits : (j : ℕ) → j < 0 + length t.nodes → visit_of t j ≡ visited =
        λ j h. left.same_visit j ∙ (o.listed j).1 (ready.complete all j (omega arith)) in
      let e : length t.nodes + 1 ≡ suc (length t.nodes) = omega arith in
      init_all-more code reg t t ok left.not_all
        (build_registry-built reg t (left.same_built ∙ built))
      ∙ ap
          (λ (m : Ended (Lifecycle W)).
            m >>= (λ u. returned ok (record u { initialized_all = true })))
          (ap (λ k. visit_all code reg k 0 (length t.nodes) t) e
            ∙ visit_all-visited (length t.nodes) 0 (length t.nodes) t visits)
