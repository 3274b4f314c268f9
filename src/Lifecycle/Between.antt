-- ===== src/Lifecycle/Between.antt =====
-- Any sequence of calls of `init_all` and `exit_all` (kernel/device/lifecycle.cpp).
use mathlib.Core.Bool.{true≢false}
use doom_os.Base.{
  ℕ, zero, suc, ◌≡◌, refl, sym, ap, ◌∙◌, false, ◌||◌, List, [], ◌∷◌, ◌++◌, length, get_or, arith,
  Bool-cases, inl, inr,
}
use doom_os.Lifecycle.{Registry, Lifecycle, DriverCode, InitResult, ok, err}
use doom_os.Lifecycle.Visit.{returned, node, exit_one, exit_down, init_all, exit_all}
use doom_os.Lifecycle.Steps.{mem, start}
use doom_os.Lifecycle.Initialise.{
  IsReady, at_start, at_start-IsReady, Initialises, IsReady-Initialises,
}
use doom_os.Lifecycle.Exit.{exit_all_lem}

mem-append : (i : ℕ) (js ks : List ℕ) → mem i (js ++ ks) ≡ (mem i js || mem i ks)
mem-append i [] ks = refl
mem-append i (j ∷ js) ks = let e = mem-append i js ks in ground arith

module _ {W : Type 0} (code : DriverCode W) (reg : Registry) where
  -- The states between calls, from the start of the kernel on. `gone` are the drivers that were
  -- initialised when `exit_all` was called.
  pub data IsBetween : List ℕ → Lifecycle W → Type 0 where
    starts : (w : W) → IsBetween [] (at_start w)
    inits :
        (gone : List ℕ) (s t : Lifecycle W) (r : InitResult)
        → IsBetween gone s
        → init_all code reg s ≡ returned r t
        → IsBetween gone t
    exits :
        (gone : List ℕ) (s : Lifecycle W)
        → IsBetween gone s
        → IsBetween (s.initialized ++ gone) (exit_all code reg s)

  exit_one-built : (i : ℕ) (s : Lifecycle W) → (exit_one code reg i s).built ≡ s.built
  unfolding exit_one
  exit_one-built i s = elim (Bool-cases (node s i).initialized) [
    | inl here ↦ rw here refl
    | inr other ↦ rw other refl
  ]

  exit_down-built : (n : ℕ) (s : Lifecycle W) → (exit_down code reg n s).built ≡ s.built
  unfolding exit_down
  exit_down-built zero s = refl
  exit_down-built (suc n) s =
      exit_down-built n (exit_one code reg (get_or s.initialized n 0) s)
      ∙ exit_one-built (get_or s.initialized n 0) s

  exit_all-built : (s : Lifecycle W) → (exit_all code reg s).built ≡ s.built
  unfolding exit_all
  exit_all-built s = exit_down-built (length s.initialized) s

  exit_all-reset :
      (s : Lifecycle W)
      → ((exit_all code reg s).initialized_all ≡ false) × ((exit_all code reg s).initialized ≡ [])
  unfolding exit_all
  exit_all-reset s = (refl, refl)

  exit_all-IsReady :
      (gone : List ℕ) (s : Lifecycle W)
      → IsReady reg gone s
      → IsReady reg (s.initialized ++ gone) (exit_all code reg s)
  exit_all-IsReady gone s ready = record {
    unbuilt = λ e.
        let u = ready.unbuilt (sym (exit_all-built s) ∙ e) in
        let (all, none_listed) = exit_all-reset s in
        (all, none_listed, ap (λ js. js ++ gone) u.1 ∙ u.2);
    ordered = λ e.
        let o = ready.ordered (sym (exit_all-built s) ∙ e) in
        let left = exit_all_lem code reg s o in
        record {
          order = rw left.none_listed start;
          listed = λ j.
              rw (left.none_listed, left.same_visit j, mem-append j s.initialized gone)
                (o.listed j);
          marked = λ j. left.none_initialized j ∙ ap (mem j) (sym left.none_listed);
        };
    drivers = λ e.
        let b = sym (exit_all-built s) ∙ e in
        (exit_all_lem code reg s (ready.ordered b)).same_ids ∙ ready.drivers b;
    complete = λ e. absurd (true≢false (sym e ∙ (exit_all-reset s).0));
  }

  pub IsBetween-IsReady : (gone : List ℕ) (s : Lifecycle W) → IsBetween gone s → IsReady reg gone s
  IsBetween-IsReady _ _ (starts w) = at_start-IsReady reg w
  IsBetween-IsReady _ _ (exits gone s b) = exit_all-IsReady gone s (IsBetween-IsReady gone s b)
  IsBetween-IsReady _ _ (inits gone s t r b e) =
      ended r (rw e at (IsReady-Initialises code reg gone s (IsBetween-IsReady gone s b)))
    where
      ended : (r : InitResult) → Initialises code reg gone (returned r t) → IsReady reg gone t
      ended ok i = i.0
      ended (err x) i = i.0

  -- After any sequence of calls of `init_all`, which may have failed, and of `exit_all` since the
  -- kernel's start, `init_all` ends, for drivers' functions that return and do not call the lifecycle
  -- themselves. Those that are gone are the drivers that were initialised when `exit_all` was called.
  -- The drivers that are initialised afterwards stand each once and after those that they require, by
  -- name or as providers of a capability, and that are not gone. When it succeeds each driver of the
  -- registry is initialised or gone, so without an `exit_all` all are initialised.
  pub init_all_lem :
      (gone : List ℕ) (s : Lifecycle W)
      → IsBetween gone s
      → Initialises code reg gone (init_all code reg s)
  init_all_lem gone s b = IsReady-Initialises code reg gone s (IsBetween-IsReady gone s b)
