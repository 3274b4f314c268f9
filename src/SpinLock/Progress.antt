-- ===== src/SpinLock/Progress.antt =====
-- A thread that calls `lock` (kernel/sync/spinlock.hpp) can always get it.
use doom_os.Base.{ℕ, ◌≡◌, refl, sym, ap, ◌∙◌, true, false, ◌==◌, ◌⊎◌, inl, inr, arith, Bool-cases}
use mathlib.Core.Bool.{true≢false}
use doom_os.SpinLock.{
  compare_exchange, try_lock, unlock, is_locked, Place, outside, trying, waiting, inside, System,
  at_start, move, after_try, after_load, tries, loads, leaves, Steps, stay, then_step,
}
use doom_os.SpinLock.Safety.{is_inside, free, taken, move-same, move-other, Steps-IsSafe}

-- A state in which the thread t is inside comes after s.
abbrev pub CanEnter : System → ℕ → Type 0
CanEnter s t = (s' : System) × Steps s s' × (s'.place t ≡ inside)

-- With the lock free, a thread at `try_lock` is inside after that step,
trying-CanEnter :
    (s u : System) (t : ℕ) → Steps s u → u.state ≡ 0 → u.place t ≡ trying → CanEnter s t
unfolding after_try try_lock compare_exchange
trying-CanEnter s u t r z e =
    let k : (u.state == 0) ≡ true = ground arith in
    (after_try u t, then_step u (after_try u t) r (tries t e), rw k (move-same u.place t inside))

-- and one that waits leaves its loop first.
waiting-CanEnter :
    (s u : System) (t : ℕ) → Steps s u → u.state ≡ 0 → u.place t ≡ waiting → CanEnter s t
unfolding after_load is_locked
waiting-CanEnter s u t r z e =
    let k : (u.state == 1) ≡ false = ground arith in
    trying-CanEnter s (after_load u t) t (then_step u (after_load u t) r (loads t e)) z
      (rw k (move-same u.place t trying))

-- A thread that is on its way into `lock`, before `try_lock` or in the inner loop, can get inside,
-- whatever the other threads did before: if another thread holds the lock, after that one leaves.
pub lock_lem :
    (s : System)
    → Steps at_start s
    → (t : ℕ) → (s.place t ≡ trying) ⊎ (s.place t ≡ waiting)
    → CanEnter s t
unfolding unlock
lock_lem s r t w = elim (Steps-IsSafe s r) [
  | free z none_inside ↦ elim w [
    | inl e ↦ trying-CanEnter s s t stay z e
    | inr e ↦ waiting-CanEnter s s t stay z e
  ]
  | taken owner z i only ↦
      let u : System = record { state = unlock s.state; place = move s.place owner outside } in
      let out : Steps s u = then_step s u stay (leaves owner i) in
      elim w [
        | inl e ↦
            trying-CanEnter s u t out refl
              (move-other s.place owner outside t (apart trying e owner i refl) ∙ e)
        | inr e ↦
            waiting-CanEnter s u t out refl
              (move-other s.place owner outside t (apart waiting e owner i refl) ∙ e)
      ]
]
  where
    apart :
        (p : Place)
        → s.place t ≡ p
        → (owner : ℕ) → s.place owner ≡ inside
        → is_inside p ≡ false
        → (t == owner) ≡ false
    apart p e owner i f = elim (Bool-cases (t == owner)) [
      | inr other ↦ other
      | inl same ↦
          let k : owner ≡ t = ground arith in
          absurd (true≢false (sym (ap is_inside (rw k at i)) ∙ ap is_inside e ∙ f))
    ]
