-- ===== src/SpinLock/Tests.antt =====
-- Two threads at the spin lock of kernel/sync/spinlock.hpp, and the theorems in that state.
use doom_os.Base.{ℕ, ◌≡◌, refl, true, inr}
use doom_os.SpinLock.{
  compare_exchange, try_lock, is_locked, trying, waiting, inside, System, at_start, move, after_try,
  enters, tries, Steps, stay, then_step,
}
use doom_os.SpinLock.Safety.{spinlock_guard_lem}
use doom_os.SpinLock.Progress.{CanEnter, lock_lem}

-- Thread 3 holds the lock; thread 5 has tried to take it and waits.
abbrev entered : System
entered = record at_start { place = move at_start.place 3 trying }

abbrev taken_once : System
taken_once = after_try entered 3

abbrev entered_too : System
entered_too = record taken_once { place = move taken_once.place 5 trying }

abbrev contended : System
contended = after_try entered_too 5

contended_reached : Steps at_start contended
unfolding move after_try try_lock compare_exchange
contended_reached =
    then_step entered_too contended
      (then_step taken_once entered_too
        (then_step entered taken_once (then_step at_start entered stay (enters 3 refl))
          (tries 3 refl))
        (enters 5 refl))
      (tries 5 refl)

contended_inside : contended.place 3 ≡ inside
unfolding move after_try try_lock compare_exchange
contended_inside = refl

contended_waits : contended.place 5 ≡ waiting
unfolding move after_try try_lock compare_exchange
contended_waits = refl

abbrev holder : ℕ
holder = 3

spinlock_guard_example : (holder ≡ holder) × (is_locked contended.state ≡ true)
spinlock_guard_example =
    spinlock_guard_lem contended contended_reached holder holder contended_inside contended_inside

lock_example : CanEnter contended 5
lock_example = lock_lem contended contended_reached 5 (inr contended_waits)
