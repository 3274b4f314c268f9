-- ===== src/SpinLock/Safety.antt =====
-- The spin lock (kernel/sync/spinlock.hpp) keeps all threads but one out.
use doom_os.Base.{ℕ, ◌≡◌, refl, sym, ap, ◌∙◌, Bool, true, false, ◌==◌, inl, inr, arith, Bool-cases}
use mathlib.Core.Bool.{true≢false}
use doom_os.SpinLock.{
  compare_exchange, try_lock, unlock, is_locked, Place, outside, trying, waiting, inside, System,
  at_start, move, after_try, after_load, Step, enters, tries, loads, leaves, Steps, stay, then_step,
}

abbrev pub is_inside : Place → Bool
is_inside inside = true
is_inside outside = false
is_inside trying = false
is_inside waiting = false

-- The lock is free and no thread is inside, or it is taken and one thread is.
pub data IsSafe (s : System) : Type 0 where
  free : s.state ≡ 0 → ((t : ℕ) → is_inside (s.place t) ≡ false) → IsSafe s
  taken :
      (owner : ℕ)
      → s.state ≡ 1
      → s.place owner ≡ inside
      → ((t : ℕ) → is_inside (s.place t) ≡ true → t ≡ owner)
      → IsSafe s

pub move-same : (place : ℕ → Place) (t : ℕ) (p : Place) → move place t p t ≡ p
unfolding move
move-same place t p = let e : (t == t) ≡ true = ground arith in rw e refl

pub move-other :
    (place : ℕ → Place) (t : ℕ) (p : Place) (u : ℕ) → (u == t) ≡ false → move place t p u ≡ place u
unfolding move
move-other place t p u e = rw e refl

-- A move of a thread that is not inside to a place that is not inside.
move-IsSafe :
    (s : System) (t : ℕ) (p : Place)
    → is_inside (s.place t) ≡ false
    → is_inside p ≡ false
    → IsSafe s
    → IsSafe (record s { place = move s.place t p })
move-IsSafe s t p e f (free z none_inside) = free z (λ u. elim (Bool-cases (u == t)) [
  | inl same ↦ let k : u ≡ t = ground arith in rw (k, move-same s.place t p) f
  | inr other ↦ rw (move-other s.place t p u other) (none_inside u)
])
move-IsSafe s t p e f (taken owner z i only) =
    let apart : (owner == t) ≡ false = elim (Bool-cases (owner == t)) [
      | inr other ↦ other
      | inl same ↦
          let k : owner ≡ t = ground arith in
          absurd (true≢false (sym (ap is_inside (rw k at i)) ∙ e))
    ] in
    taken owner z (move-other s.place t p owner apart ∙ i) (λ u h. elim (Bool-cases (u == t)) [
      | inl same ↦
          let k : u ≡ t = ground arith in
          absurd (true≢false (sym (rw (k, move-same s.place t p) at h) ∙ f))
      | inr other ↦ only u (rw (move-other s.place t p u other) at h)
    ])

Step-IsSafe : (s s' : System) → IsSafe s → Step s s' → IsSafe s'
unfolding after_try after_load try_lock compare_exchange unlock
Step-IsSafe s s' safe (enters t e) = move-IsSafe s t trying (ap is_inside e) refl safe
Step-IsSafe s s' safe (loads t e) = elim (Bool-cases (is_locked s.state)) [
  | inl locked ↦ rw locked (move-IsSafe s t waiting (ap is_inside e) refl safe)
  | inr unlocked ↦ rw unlocked (move-IsSafe s t trying (ap is_inside e) refl safe)
]
Step-IsSafe s s' (free z none_inside) (tries t e) =
    let k : (s.state == 0) ≡ true = ground arith in
    rw k (
      taken t refl (move-same s.place t inside) (λ u h. elim (Bool-cases (u == t)) [
        | inl same ↦ ground arith
        | inr other ↦
            absurd
              (true≢false (sym (rw (move-other s.place t inside u other) at h) ∙ none_inside u))
      ]))
Step-IsSafe s s' (taken owner z i only) (tries t e) =
    let k : (s.state == 0) ≡ false = ground arith in
    rw k (move-IsSafe s t waiting (ap is_inside e) refl (taken owner z i only))
Step-IsSafe s s' (free z none_inside) (leaves t e) =
    absurd (true≢false (sym (ap is_inside e) ∙ none_inside t))
Step-IsSafe s s' (taken owner z i only) (leaves t e) = free refl (λ u. elim (Bool-cases (u == t)) [
  | inl same ↦ let k : u ≡ t = ground arith in rw (k, move-same s.place t outside) refl
  | inr other ↦
      rw (move-other s.place t outside u other) (elim (Bool-cases (is_inside (s.place u))) [
        | inr out ↦ out
        | inl both ↦ let a = only u both in let b = only t (ap is_inside e) in absurd (ground arith)
      ])
])

pub Steps-IsSafe : (s : System) → Steps at_start s → IsSafe s
Steps-IsSafe s stay = free refl (λ t. refl)
Steps-IsSafe s (then_step u v r step) = Step-IsSafe u v (Steps-IsSafe u r) step

-- However the steps of the threads are ordered, no two threads are in the scope of a guard of the
-- same lock at a time, and `is_locked` holds while one is.
pub spinlock_guard_lem :
    (s : System)
    → Steps at_start s
    → (t u : ℕ) → s.place t ≡ inside
    → s.place u ≡ inside
    → (t ≡ u) × (is_locked s.state ≡ true)
unfolding is_locked
spinlock_guard_lem s r t u e f = elim (Steps-IsSafe s r) [
  | free z none_inside ↦ absurd (true≢false (sym (ap is_inside e) ∙ none_inside t))
  | taken owner z i only ↦ (only t (ap is_inside e) ∙ sym (only u (ap is_inside f)), ground arith)
]
