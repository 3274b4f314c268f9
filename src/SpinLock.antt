-- ===== src/SpinLock.antt =====
-- kernel/sync/spinlock.hpp: the spin lock, its guard, and the threads that use them. An access to the
-- lock's byte is one step, as the atomic operations of kernel/sync/atomic.hpp make it; memory orders
-- are not modelled.
pub mod Safety
pub mod Progress
mod Tests
use doom_os.Base.{ℕ, ◌≡◌, Bool, true, false, ◌==◌, if◌then◌else◌}

abbrev pub spinlock_unlocked : ℕ
spinlock_unlocked = 0

abbrev pub spinlock_locked : ℕ
spinlock_locked = 1

-- `compare_exchange` of an atomic that holds `value`: whether it was as expected, and what it holds
-- afterwards.
unfoldable pub compare_exchange : ℕ → ℕ → ℕ → Bool × ℕ
compare_exchange expected desired value =
    if value == expected then (true, desired) else (false, value)

unfoldable pub try_lock : ℕ → Bool × ℕ
try_lock state = compare_exchange spinlock_unlocked spinlock_locked state

unfoldable pub unlock : ℕ → ℕ
unlock state = spinlock_unlocked

unfoldable pub is_locked : ℕ → Bool
is_locked state = state == spinlock_locked

-- Where a thread is: not in the guard's scope, before `try_lock`, in the inner loop of `lock`, or in
-- the guard's scope.
pub data Place : Type 0 where
  outside trying waiting inside : Place

pub record System : Type 0 where
  pub state : ℕ
  pub place : ℕ → Place

abbrev pub at_start : System
at_start = record { state = spinlock_unlocked; place = λ t. outside }

unfoldable pub move : (ℕ → Place) → ℕ → Place → ℕ → Place
move place t p u = if u == t then p else place u

-- `lock` at `try_lock`
unfoldable pub after_try : System → ℕ → System
after_try s t =
    let (done, state') = try_lock s.state in
    record { state = state'; place = move s.place t (if done then inside else waiting) }

-- `lock` at the load of the inner loop
unfoldable pub after_load : System → ℕ → System
after_load s t = record s { place = move s.place t (if is_locked s.state then waiting else trying) }

-- One step of the thread t: the constructor of the guard is called, `lock` goes on, or the guard's
-- destructor unlocks.
pub data Step (s : System) : System → Type 0 where
  enters : (t : ℕ) → s.place t ≡ outside → Step s (record s { place = move s.place t trying })
  tries : (t : ℕ) → s.place t ≡ trying → Step s (after_try s t)
  loads : (t : ℕ) → s.place t ≡ waiting → Step s (after_load s t)
  leaves :
      (t : ℕ)
      → s.place t ≡ inside
      → Step s (record { state = unlock s.state; place = move s.place t outside })

-- Runs of the threads, in any order.
pub data Steps (s : System) : System → Type 0 where
  stay : Steps s s
  then_step : (u v : System) → Steps s u → Step u v → Steps s v
