-- ===== src/Sched/Lock/Exclusion.antt =====
-- No interleaving of `wait` and `wake` panics, has the task at two places, or loses a wake-up.
use unico.Common.{◌≡◌, ◌≢◌, refl, sym, subst, true, arith}
use unico.Sched.{Task, State, empty, notified, waiting}
use unico.Sched.Lock.{
  Holder, nobody, waiter, waker, Place, running, locking, deciding, spinning, parked, carried,
  queued, panicking, Shared, WaitStep, call, take_notified, take_empty, take_waiting, park,
  DequeueStep, continue_loop, by_dequeue, replaced, WakeStep, replace, enqueue, OtherStep, push,
  pop, Step, by_wait, by_wake, by_others, Reachable, initial, after,
}

-- What the place of the task says of the lock and of the state.
abbrev pub Fits : {Meta : Type 0} → Task Meta → Place → Holder → State Meta → Type 0
Fits task running l v = (l ≢ waiter) × ((t : Task _) → v ≢ waiting t)
Fits task locking l v = (l ≢ waiter) × ((t : Task _) → v ≢ waiting t)
Fits task deciding l v = (l ≡ waiter) × ((t : Task _) → v ≢ waiting t)
Fits task spinning l v = (l ≡ waiter) × (v ≡ empty)
Fits task parked l v = (l ≢ waiter) × (v ≡ waiting task)
Fits task carried l v = (l ≢ waiter) × (v ≡ notified)
Fits task queued l v = (l ≢ waiter) × (v ≡ notified)
Fits task panicking l v = ⊥

pub record IsExclusive {Meta : Type 0} (task : Task Meta) (s : Shared Meta) : Type 0 where
  pub fits : Fits task s.place s.lock s.state
  pub kept : s.woken ≡ true → s.state ≡ notified

module _ {Meta : Type 0} (task : Task Meta) where
  placed :
      (s : Shared Meta) (p : Place) → IsExclusive task s → s.place ≡ p → Fits task p s.lock s.state
  placed s p w e = subst (λ (p : Place). Fits task p s.lock s.state) e w.fits

  WaitStep-IsExclusive :
      (s t : Shared Meta) → IsExclusive task s → WaitStep task s t → IsExclusive task t
  WaitStep-IsExclusive s t w (call p e) =
      subst (IsExclusive task) (sym e) (record { fits = placed s running w p; kept = w.kept })
  WaitStep-IsExclusive s t w (WaitStep.acquire p l e) =
      let f = placed s locking w p in
      subst (IsExclusive task) (sym e) (record { fits = (refl, f.1); kept = w.kept })
  WaitStep-IsExclusive s t w (take_notified p q e) =
      subst (IsExclusive task) (sym e) (record { fits = (λ h. cc, λ o h. cc); kept = λ h. cc })
  WaitStep-IsExclusive s t w (take_empty p q e) =
      let f = placed s deciding w p in
      subst (IsExclusive task) (sym e) (record { fits = (f.0, q); kept = w.kept })
  WaitStep-IsExclusive s t w (take_waiting o p q e) =
      let f = placed s deciding w p in absurd (f.1 o q)
  WaitStep-IsExclusive s t w (park n p q e) =
      let f = placed s spinning w p in
      subst (IsExclusive task) (sym e)
        (record { fits = (λ h. cc, refl); kept = λ h. absurd (cc (f.1, w.kept h)) })

  -- A waker that gets the lock.
  Fits-waker : (p : Place) (v : State Meta) → Fits task p nobody v → Fits task p waker v
  Fits-waker running v f = (λ h. cc, f.1)
  Fits-waker locking v f = (λ h. cc, f.1)
  Fits-waker deciding v f = absurd (cc (f.0))
  Fits-waker spinning v f = absurd (cc (f.0))
  Fits-waker parked v f = (λ h. cc, f.1)
  Fits-waker carried v f = (λ h. cc, f.1)
  Fits-waker queued v f = (λ h. cc, f.1)
  Fits-waker panicking v f = f

  -- The exchange of the state.
  Fits-replaced :
      (p : Place) (v : State Meta)
      → Fits task p waker v
      → Fits task (replaced task v p) nobody notified
  Fits-replaced running empty f = (λ h. cc, λ o h. cc)
  Fits-replaced running notified f = (λ h. cc, λ o h. cc)
  Fits-replaced running (waiting o) f = absurd (f.1 o refl)
  Fits-replaced locking empty f = (λ h. cc, λ o h. cc)
  Fits-replaced locking notified f = (λ h. cc, λ o h. cc)
  Fits-replaced locking (waiting o) f = absurd (f.1 o refl)
  Fits-replaced deciding empty f = absurd (cc (f.0))
  Fits-replaced deciding notified f = absurd (cc (f.0))
  Fits-replaced deciding (waiting o) f = absurd (cc (f.0))
  Fits-replaced spinning empty f = absurd (cc (f.0))
  Fits-replaced spinning notified f = absurd (cc (f.0))
  Fits-replaced spinning (waiting o) f = absurd (cc (f.0))
  Fits-replaced parked empty f = absurd (cc (f.1))
  Fits-replaced parked notified f = absurd (cc (f.1))
  Fits-replaced parked (waiting o) f = (λ h. cc, refl)
  Fits-replaced carried empty f = (λ h. cc, refl)
  Fits-replaced carried notified f = (λ h. cc, refl)
  Fits-replaced carried (waiting o) f = (λ h. cc, refl)
  Fits-replaced queued empty f = (λ h. cc, refl)
  Fits-replaced queued notified f = (λ h. cc, refl)
  Fits-replaced queued (waiting o) f = (λ h. cc, refl)
  Fits-replaced panicking v f = absurd f

  WakeStep-IsExclusive :
      (s t : Shared Meta) → IsExclusive task s → WakeStep task s t → IsExclusive task t
  WakeStep-IsExclusive s t w (WakeStep.acquire l e) = subst (IsExclusive task) (sym e) (record {
    fits =
        Fits-waker s.place s.state (subst (λ (h : Holder). Fits task s.place h s.state) l w.fits);
    kept = w.kept;
  })
  WakeStep-IsExclusive s t w (replace l e) = subst (IsExclusive task) (sym e) (record {
    fits =
        Fits-replaced s.place s.state
          (subst (λ (h : Holder). Fits task s.place h s.state) l w.fits);
    kept = λ h. refl;
  })
  WakeStep-IsExclusive s t w (enqueue p e) =
      subst (IsExclusive task) (sym e) (record { fits = placed s carried w p; kept = w.kept })

  DequeueStep-IsExclusive :
      (s t : Shared Meta) → IsExclusive task s → DequeueStep task s t → IsExclusive task t
  DequeueStep-IsExclusive s t w (continue_loop p e) =
      let f = placed s queued w p in
      subst (IsExclusive task) (sym e) (record { fits = (f.0, λ o h. cc (f.1, h)); kept = w.kept })

  OtherStep-IsExclusive :
      (s t : Shared Meta) → IsExclusive task s → OtherStep task s t → IsExclusive task t
  OtherStep-IsExclusive s t w (push e) =
      subst (IsExclusive task) (sym e) (record { fits = w.fits; kept = w.kept })
  OtherStep-IsExclusive s t w (pop n q e) =
      subst (IsExclusive task) (sym e) (record { fits = w.fits; kept = w.kept })

  Step-IsExclusive : (s t : Shared Meta) → IsExclusive task s → Step task s t → IsExclusive task t
  Step-IsExclusive s t w (by_wait x) = WaitStep-IsExclusive s t w x
  Step-IsExclusive s t w (by_wake x) = WakeStep-IsExclusive s t w x
  Step-IsExclusive s t w (by_dequeue x) = DequeueStep-IsExclusive s t w x
  Step-IsExclusive s t w (by_others x) = OtherStep-IsExclusive s t w x

  -- However the steps of a waiting task, of its wakers and of other threads are interleaved, `wait`
  -- does not panic, the lock and the state tell where the task is, so that it is at one place, and a
  -- wake-up since the last return of `wait` stands in the state, so that a woken task is not parked.
  pub Reachable-IsExclusive : {s : Shared Meta} → Reachable task s → IsExclusive task s
  Reachable-IsExclusive (initial n) = record { fits = (λ h. cc, λ o h. cc); kept = λ h. cc }
  Reachable-IsExclusive (after s t x y) = Step-IsExclusive s t (Reachable-IsExclusive x) y

  -- What may still happen while the waiting task looks for a next task in an empty queue: only another
  -- thread can do a step, and no waker of the task can.
  pub record IsStuck (s : Shared Meta) : Type 0 where
    pub wait_blocked : (t : Shared Meta) → ¬ (WaitStep task s t)
    pub wake_blocked : (t : Shared Meta) → ¬ (WakeStep task s t)

  -- While a waiting task looks for a next task and the run queue is empty, neither it nor any waker of
  -- it does a step, whatever happened before: the lock that it holds keeps the wakers out.
  pub spinning-IsStuck :
      (s : Shared Meta) → Reachable task s → s.place ≡ spinning → s.others ≡ 0 → IsStuck s
  spinning-IsStuck s r p z =
      let w = Reachable-IsExclusive r in
      let f = placed s spinning w p in
      record {
        wait_blocked = λ t x. stuck_wait s t p z x;
        wake_blocked = λ t x. stuck_wake s t p f.0 x;
      }
    where
      stuck_wait : (s t : Shared Meta) → s.place ≡ spinning → s.others ≡ 0 → WaitStep task s t → ⊥
      stuck_wait s t p z (call q e) = cc
      stuck_wait s t p z (WaitStep.acquire q l e) = cc
      stuck_wait s t p z (take_notified q v e) = cc
      stuck_wait s t p z (take_empty q v e) = cc
      stuck_wait s t p z (take_waiting o q v e) = cc
      stuck_wait s t p z (park n q v e) = omega arith

      stuck_wake :
          (s t : Shared Meta) → s.place ≡ spinning → s.lock ≡ waiter → WakeStep task s t → ⊥
      stuck_wake s t p l (WakeStep.acquire h e) = cc
      stuck_wake s t p l (replace h e) = cc
      stuck_wake s t p l (enqueue q e) = cc
