-- ===== src/Examples/Locks.antt =====
-- A task that waits and is woken by another thread, with one other task in the run queue.
use unico.Common.{ℕ, refl, Bool, true, false}
use unico.Sched.{Task, State, empty, notified, waiting}
use unico.Sched.Lock.{
  Holder, nobody, waiter, waker, Place, locking, deciding, spinning, parked, carried, Shared,
  WaitStep, call, take_empty, park, WakeStep, replace, pop, by_wait, by_wake, by_others, at_first,
  Reachable, initial, after,
}
use unico.Sched.Lock.Progress.{CanReturn, woken-CanReturn}
use unico.Sched.Lock.Exclusion.{IsExclusive, Reachable-IsExclusive, IsStuck, spinning-IsStuck}

abbrev U : Type 0
U = Unit {0}

abbrev task : Task U
task = record { co = record { cx = 4096 }; metadata = tt }

abbrev shared : Holder → State U → Place → ℕ → Bool → Shared U
shared l v p n b = record { lock = l; state = v; place = p; others = n; woken = b }

reaches_lock : Reachable task (shared nobody empty locking 1 false)
reaches_lock =
    after (at_first task 1) (shared nobody empty locking 1 false) (initial 1)
      (by_wait (call refl refl))

reaches_decision : Reachable task (shared waiter empty deciding 1 false)
reaches_decision =
    after (shared nobody empty locking 1 false) (shared waiter empty deciding 1 false) reaches_lock
      (by_wait (WaitStep.acquire refl refl refl))

reaches_loop : Reachable task (shared waiter empty spinning 1 false)
reaches_loop =
    after (shared waiter empty deciding 1 false) (shared waiter empty spinning 1 false)
      reaches_decision (by_wait (take_empty refl refl refl))

reaches_park : Reachable task (shared nobody (waiting task) parked 0 false)
reaches_park =
    after (shared waiter empty spinning 1 false) (shared nobody (waiting task) parked 0 false)
      reaches_loop (by_wait (park 0 refl refl refl))

reaches_wake : Reachable task (shared waker (waiting task) parked 0 false)
reaches_wake =
    after (shared nobody (waiting task) parked 0 false) (shared waker (waiting task) parked 0 false)
      reaches_park (by_wake (WakeStep.acquire refl refl))

reaches_carried : Reachable task (shared nobody notified carried 0 true)
reaches_carried =
    after (shared waker (waiting task) parked 0 false) (shared nobody notified carried 0 true)
      reaches_wake (by_wake (replace refl refl))

Reachable-IsExclusive_example : IsExclusive task (shared nobody notified carried 0 true)
Reachable-IsExclusive_example = Reachable-IsExclusive task reaches_carried

reaches_empty : Reachable task (shared waiter empty spinning 0 false)
reaches_empty =
    after (shared waiter empty spinning 1 false) (shared waiter empty spinning 0 false) reaches_loop
      (by_others (pop 0 refl refl))

spinning-IsStuck_example : IsStuck task (shared waiter empty spinning 0 false)
spinning-IsStuck_example =
    spinning-IsStuck task (shared waiter empty spinning 0 false) reaches_empty refl refl

woken-CanReturn_example : CanReturn task (shared nobody notified carried 0 true)
woken-CanReturn_example =
    woken-CanReturn task (shared nobody notified carried 0 true) reaches_carried refl
