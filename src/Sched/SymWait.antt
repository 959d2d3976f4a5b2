-- ===== src/Sched/SymWait.antt =====
-- async/src/sym.rs, `SymWait`: a task waits on a future. The future is a parameter: a state, with a poll
-- that may change the memory which the tasks share, where it finds the task's waker.
use unico.Common.{some_inj, subst, ℕ, zero, suc, ◌≡◌, refl, Option, none, some, inl, inr}
use unico.Context.Machine.{
  Machine, Reaches, Reaches-trans, get, put, stop, undefined, run, step_code,
}
use unico.Ful.Effect.{Payload, World, Program, M, pure, ◌>>=◌, ◌>>◌}
use unico.Ful.Effect.Steps.{at}
use unico.Future.{Poll-cases, Poll, pending, ready}
use unico.Sched.{Scheduler, State, empty, notified, waiting, Slot, modify_user, wait}

-- The poll of the future, with the shared memory.
abbrev pub polled :
    {P Cell U T F : Type 0} → (F → U → (Poll T × F) × U) → F → M P Cell U (Poll T × F)
polled poll_future future k h =
    get λ w.
      put (modify_user (λ u. (poll_future future u).1) w) (k (poll_future future w.user_state).0)

module _ {Meta P Cell U T F : Type 0} (s : Scheduler Meta U) (slot : Slot Meta U)
    (poll_future : F → U → (Poll T × F) × U) (waits spins : ℕ) where
  -- `SymWait::wait`, with a count of polls; a wait that has used them up has no result.
  unfoldable pub sym_wait : ℕ → F → M P Cell U T
  sym_wait zero future = λ k h. stop undefined
  sym_wait (suc n) future = do
    r ← polled poll_future future
    elim r.0 [
      | ready output ↦ pure output
      | pending ↦ do wait s slot (suc waits) spins; sym_wait n r.1
    ]

module _ {Meta U T F : Type 0} (slot : Slot Meta U) (poll_future : F → U → (Poll T × F) × U) where
  abbrev after_poll : State Meta → Option (T × U) → Option (T × U)
  after_poll notified rest = rest
  after_poll empty rest = none
  after_poll (waiting task) rest = none

  -- The polls of a future that wakes the task by the end of each poll that is pending, one after
  -- another: its output, and the memory afterwards.
  unfoldable pub settle : ℕ → F → U → Option (T × U)
  settle zero f u = none
  settle (suc n) f u =
      let rest = settle n (poll_future f u).0.1 (slot.write empty (poll_future f u).1) in
      elim (poll_future f u).0.0 [
        | ready output ↦ some (output, (poll_future f u).1)
        | pending ↦ after_poll (slot.read (poll_future f u).1) rest
      ]

after_poll-notified :
    {Meta U T : Type 0} (slot : Slot Meta U) {F : Type 0} (poll_future : F → U → (Poll T × F) × U)
    (v : State Meta) (rest : Option (T × U)) {x : T × U}
    → after_poll slot poll_future v rest ≡ some x
    → (v ≡ notified) × (rest ≡ some x)
after_poll-notified slot q notified rest e = (refl, e)
after_poll-notified slot q empty rest e = cc
after_poll-notified slot q (waiting task) rest e = cc

module _ {Meta P Cell U T F : Type 0} (s : Scheduler Meta U) (slot : Slot Meta U)
    (poll_future : F → U → (Poll T × F) × U) (waits spins : ℕ) (context_at : ℕ → ℕ → Option ℕ)
    (m : Machine (World Cell U) (Payload P)) where
  -- A `wait` that finds a wake-up.
  wait-notified :
      (w : World Cell U) (k : Unit {0} → Program P Cell U) (h : Payload P → Program P Cell U)
      → slot.read w.user_state ≡ notified
      → Reaches context_at
          (at m w (wait s slot (suc waits) spins k h))
          (at m (modify_user (slot.write empty) w) (k tt))
  unfolding wait run step_code
  wait-notified w k h e = record { rounds = 2; ends = rw (wait, e, run, step_code) refl }

  -- The memory after a poll.
  abbrev polled_in : F → World Cell U → World Cell U
  polled_in f w = modify_user (λ u. (poll_future f u).1) w

  poll-pending :
      (n : ℕ) (f : F) (w : World Cell U) (k : T → Program P Cell U)
      (h : Payload P → Program P Cell U)
      → (poll_future f w.user_state).0.0 ≡ pending
      → Reaches context_at (at m w (sym_wait s slot poll_future waits spins (suc n) f k h)) (
          at m (polled_in f w) (
            wait s slot
              (suc waits)
              spins
              (λ _. sym_wait s slot poll_future waits spins n (poll_future f w.user_state).0.1 k h)
              h))
  unfolding sym_wait run step_code
  poll-pending n f w k h q = record { rounds = 2; ends = rw (q, run, step_code) refl }

  poll-ready :
      (n : ℕ) (f : F) (w : World Cell U) (o : T) (k : T → Program P Cell U)
      (h : Payload P → Program P Cell U)
      → (poll_future f w.user_state).0.0 ≡ ready o
      → Reaches context_at
          (at m w (sym_wait s slot poll_future waits spins (suc n) f k h))
          (at m (polled_in f w) (k o))
  unfolding sym_wait run step_code
  poll-ready n f w o k h q = record { rounds = 2; ends = rw (q, run, step_code) refl }

  -- Where every pending poll has woken the task, as many polls as the future needs are enough for
  -- `SymWait::wait` to return the future's output, without a switch to another task.
  pub sym_wait-settle :
      (n : ℕ) (f : F) (w : World Cell U) (t : T) (u : U) (k : T → Program P Cell U)
      (h : Payload P → Program P Cell U)
      → settle slot poll_future n f w.user_state ≡ some (t, u)
      → Reaches context_at
          (at m w (sym_wait s slot poll_future waits spins n f k h))
          (at m (record w { user_state = u }) (k t))
  unfolding settle
  sym_wait-settle zero f w t u k h e = cc
  sym_wait-settle (suc n) f w t u k h e = elim (Poll-cases (poll_future f w.user_state).0.0) [
    | inr (o, q) ↦
        subst
          (λ (x : T × U).
            Reaches context_at (at m w (sym_wait s slot poll_future waits spins (suc n) f k h))
              (at m (record w { user_state = x.1 }) (k x.0)))
          (some_inj (rw (q, settle) at e)) (poll-ready n f w o k h q)
    | inl q ↦
        let (v, r) = after_poll-notified slot poll_future _ _ (rw (q, settle) at e) in
        Reaches-trans context_at (poll-pending n f w k h q) (
          Reaches-trans context_at (wait-notified (polled_in f w) _ h v) (
            sym_wait-settle n (poll_future f w.user_state).0.1
              (modify_user (slot.write empty) (polled_in f w)) t u k h r))
  ]
