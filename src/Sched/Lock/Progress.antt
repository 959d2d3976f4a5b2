-- ===== src/Sched/Lock/Progress.antt =====
-- A woken task returns from `wait`.
use unico.Common.{ℕ, ◌≡◌, ◌≢◌, refl, sym, subst, Bool, true}
use unico.Sched.{Task, State, notified}
use unico.Sched.Lock.{
  Holder, nobody, waiter, waker, Place, running, locking, deciding, spinning, parked, carried,
  queued, panicking, Shared, WaitStep, take_notified, DequeueStep, continue_loop, WakeStep, replace,
  enqueue, Reachable,
}
use unico.Sched.Lock.Exclusion.{Fits, IsExclusive, Reachable-IsExclusive}

module _ {Meta : Type 0} (task : Task Meta) where
  -- The last state, and one from which steps of the task, of its wakers, and of whoever takes the task
  -- out of the run queue lead to it.
  pub data OwnSteps (u : Shared Meta) : Shared Meta → Type 0 where
    stay : OwnSteps u u
    waits : (s t : Shared Meta) → WaitStep task s t → OwnSteps u t → OwnSteps u s
    wakes : (s t : Shared Meta) → WakeStep task s t → OwnSteps u t → OwnSteps u s
    dequeues : (s t : Shared Meta) → DequeueStep task s t → OwnSteps u t → OwnSteps u s

  -- Such steps let `wait` return.
  abbrev pub CanReturn : Shared Meta → Type 0
  CanReturn s = (t : Shared Meta) × OwnSteps t s × (t.place ≡ running)

  -- A state with a wake-up.
  abbrev woken_at : Place → Holder → ℕ → Bool → Shared Meta
  woken_at p l n b = record { lock = l; state = notified; place = p; others = n; woken = b }

  first_wait : (s t : Shared Meta) → WaitStep task s t → CanReturn t → CanReturn s
  first_wait s t x (u, y, e) = (u, waits s t x y, e)

  first_wake : (s t : Shared Meta) → WakeStep task s t → CanReturn t → CanReturn s
  first_wake s t x (u, y, e) = (u, wakes s t x y, e)

  first_dequeue : (s t : Shared Meta) → DequeueStep task s t → CanReturn t → CanReturn s
  first_dequeue s t x (u, y, e) = (u, dequeues s t x y, e)

  deciding-CanReturn : (l : Holder) (n : ℕ) (b : Bool) → CanReturn (woken_at deciding l n b)
  deciding-CanReturn l n b = (_, waits _ _ (take_notified refl refl refl) stay, refl)

  locking-CanReturn :
      (l : Holder) (n : ℕ) (b : Bool) → l ≢ waiter → CanReturn (woken_at locking l n b)
  locking-CanReturn nobody n b f =
      first_wait (woken_at locking nobody n b) (woken_at deciding waiter n b)
        (WaitStep.acquire refl refl refl) (deciding-CanReturn waiter n b)
  locking-CanReturn waker n b f =
      first_wake (woken_at locking waker n b) (woken_at locking nobody n true) (replace refl refl) (
        first_wait (woken_at locking nobody n true) (woken_at deciding waiter n true)
          (WaitStep.acquire refl refl refl) (deciding-CanReturn waiter n true))
  locking-CanReturn waiter n b f = absurd (f refl)

  queued-CanReturn :
      (l : Holder) (n : ℕ) (b : Bool) → l ≢ waiter → CanReturn (woken_at queued l n b)
  queued-CanReturn l n b f =
      first_dequeue (woken_at queued l n b) (woken_at locking l n b) (continue_loop refl refl)
        (locking-CanReturn l n b f)

  Fits-CanReturn :
      (p : Place) (l : Holder) (n : ℕ) (b : Bool)
      → Fits task p l notified
      → CanReturn (woken_at p l n b)
  Fits-CanReturn running l n b f = (woken_at running l n b, stay, refl)
  Fits-CanReturn locking l n b f = locking-CanReturn l n b f.0
  Fits-CanReturn deciding l n b f = deciding-CanReturn l n b
  Fits-CanReturn spinning l n b f = absurd (cc f.1)
  Fits-CanReturn parked l n b f = absurd (cc f.1)
  Fits-CanReturn carried l n b f =
      first_wake (woken_at carried l n b) (woken_at queued l n b) (enqueue refl refl)
        (queued-CanReturn l n b f.0)
  Fits-CanReturn queued l n b f = queued-CanReturn l n b f.0
  Fits-CanReturn panicking l n b f = absurd f

  -- Whatever has happened, once a wake-up has come since the last return of `wait`, steps of the task, of
  -- its wakers, and, if the task is in the run queue, of whoever takes it out and switches to it, let
  -- `wait` return.
  pub woken-CanReturn : (s : Shared Meta) → Reachable task s → s.woken ≡ true → CanReturn s
  woken-CanReturn s r e =
      let w : IsExclusive task s = Reachable-IsExclusive task r in
      subst
        (λ (v : State Meta). CanReturn (record {
          lock = s.lock;
          state = v;
          place = s.place;
          others = s.others;
          woken = s.woken;
        }))
        (sym (w.kept e))
        (Fits-CanReturn s.place s.lock s.others s.woken
          (subst (λ (v : State Meta). Fits task s.place s.lock v) (w.kept e) w.fits))
