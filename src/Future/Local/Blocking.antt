-- ===== src/Future/Local/Blocking.antt =====
-- `wait` outside of `sync`: `block_on` gives the future's output, and cannot be nested.
use unico.Common.{
  ◌∙◌, ℕ, zero, suc, ◌≡◌, ◌≤◌, refl, subst, sym, Option, none, some, arith, false, true, inl, inr,
  some_inj,
}
use unico.Context.Machine.{Machine, Reaches, Reaches-trans, run, step_code, get, put}
use unico.Ful.Effect.{Payload, World, Program, M}
use unico.Ful.Effect.Steps.{at}
use unico.Ful.Asym.{Cell}
use unico.Future.{Poll, Poll-cases, pending, ready}
use unico.Future.Local.{Local, with_rest, with_borrowed, poll_until_ready, block_on, wait}

module _ {Cell W V : Type 0} where
  -- The thread outside of `sync` and `block_on`.
  abbrev pub idle : V → World Cell (Local W V) → World Cell (Local W V)
  idle v w = record w { user_state = record { cx = none; borrowed = false; rest = v } }

  -- The same, while `block_on` runs.
  abbrev pub blocked : V → World Cell (Local W V) → World Cell (Local W V)
  blocked v w = record w { user_state = record { cx = none; borrowed = true; rest = v } }

module _ {P W V T Cell F : Type 0} (poll_shared : W → F → V → (Poll T × F) × V) where
  -- A poll that reads and changes the state that other threads share.
  abbrev pub shared_polls : W → F → M P Cell (Local W V) (Poll T × F)
  shared_polls waker future k h = get λ w.
      put (with_rest (poll_shared waker future w.user_state.rest).1 w)
        (k (poll_shared waker future w.user_state.rest).0)

module _ {W V T F : Type 0} (poll_shared : W → F → V → (Poll T × F) × V) (cached : W)
    (park : V → V) where
  -- The output after at most so many polls, with a pause after each, and the shared state then.
  unfoldable pub outcome : ℕ → F → V → Option (T × V)
  outcome zero future v = none
  outcome (suc n) future v =
      let later =
        outcome n (poll_shared cached future v).0.1 (park (poll_shared cached future v).1) in
      elim (poll_shared cached future v).0.0 [
        | ready output ↦ some (output, (poll_shared cached future v).1)
        | pending ↦ later
      ]

  outcome_pending :
      (n : ℕ) (future : F) (v : V)
      → (poll_shared cached future v).0.0 ≡ pending
      → outcome n (poll_shared cached future v).0.1 (park (poll_shared cached future v).1)
        ≡ outcome (suc n) future v
  unfolding outcome
  outcome_pending n future v q = rw (outcome, q) refl

  outcome_ready :
      (n : ℕ) (future : F) (v : V) (o : T)
      → (poll_shared cached future v).0.0 ≡ ready o
      → outcome (suc n) future v ≡ some (o, (poll_shared cached future v).1)
  unfolding outcome
  outcome_ready n future v o q = rw (outcome, q) refl

module _ {P W V T C F : Type 0} (poll_shared : W → F → V → (Poll T × F) × V) (exhausted : P)
    (cached : W) (park : V → V) (context_at : ℕ → ℕ → Option ℕ)
    (m : Machine (World (Cell P (Unit {0}) W C) (Local W V)) (Payload P)) where
  -- What follows a poll.
  abbrev polled :
      ℕ
      → F
      → (T → Program P (Cell P (Unit {0}) W C) (Local W V))
      → (Payload P → Program P (Cell P (Unit {0}) W C) (Local W V))
      → Poll T
      → Program P (Cell P (Unit {0}) W C) (Local W V)
  polled rounds future k h p = elim p [
    | ready output ↦ k output
    | pending ↦ get λ w.
        put (with_rest (park w.user_state.rest) w)
          (poll_until_ready (shared_polls poll_shared) exhausted cached park rounds future k h)
  ]

  poll_once :
      (rounds : ℕ) (future : F) (w : World (Cell P (Unit {0}) W C) (Local W V)) (v : V)
      (k : T → Program P (Cell P (Unit {0}) W C) (Local W V))
      (h : Payload P → Program P (Cell P (Unit {0}) W C) (Local W V)) (p : Poll T)
      → (poll_shared cached future v).0.0 ≡ p
      → Reaches context_at
          (at m (blocked v w) (
            poll_until_ready
              (shared_polls poll_shared)
              exhausted
              cached
              park
              (suc rounds)
              future
              k
              h))
          (at m
            (blocked (poll_shared cached future v).1 w)
            (polled rounds (poll_shared cached future v).0.1 k h p))
  unfolding poll_until_ready run step_code
  poll_once rounds future w v k h p q =
      subst
        (λ (x : Poll T).
          Reaches context_at
            (at m (blocked v w) (
              poll_until_ready (shared_polls poll_shared) exhausted cached park (suc rounds) future
                k h))
            (at m (blocked (poll_shared cached future v).1 w)
              (polled rounds (poll_shared cached future v).0.1 k h x)))
        q (record { rounds = 2; ends = refl })

  parked :
      (rounds : ℕ) (future : F) (w : World (Cell P (Unit {0}) W C) (Local W V)) (v : V)
      (k : T → Program P (Cell P (Unit {0}) W C) (Local W V))
      (h : Payload P → Program P (Cell P (Unit {0}) W C) (Local W V))
      → Reaches context_at (at m (blocked v w) (polled rounds future k h pending)) (
          at m
            (blocked (park v) w)
            (poll_until_ready (shared_polls poll_shared) exhausted cached park rounds future k h))
  unfolding run step_code
  parked rounds future w v k h = record { rounds = 2; ends = refl }

  -- The end of `block_on`.
  abbrev release :
      Program P (Cell P (Unit {0}) W C) (Local W V) → Program P (Cell P (Unit {0}) W C) (Local W V)
  release c = get λ w. put (with_borrowed false w) c

  poll_until_ready-Reaches :
      (n rounds : ℕ) (future : F) (w : World (Cell P (Unit {0}) W C) (Local W V)) (v : V) (t : T)
      (v' : V) (k : T → Program P (Cell P (Unit {0}) W C) (Local W V))
      (h : Payload P → Program P (Cell P (Unit {0}) W C) (Local W V))
      → outcome poll_shared cached park n future v ≡ some (t, v')
      → n ≤ rounds
      → Reaches context_at
          (at m
            (blocked v w)
            (poll_until_ready (shared_polls poll_shared) exhausted cached park rounds future k h))
          (at m (blocked v' w) (k t))
  unfolding outcome
  poll_until_ready-Reaches zero rounds future w v t v' k h e l = cc
  poll_until_ready-Reaches (suc n) zero future w v t v' k h e l = absurd (omega (arith, l))
  poll_until_ready-Reaches (suc n) (suc rounds) future w v t v' k h e l =
      elim (Poll-cases (poll_shared cached future v).0.0) [
        | inl q ↦ Reaches-trans context_at (poll_once rounds future w v k h pending q) (
            Reaches-trans context_at
              (parked rounds (poll_shared cached future v).0.1 w (poll_shared cached future v).1 k
                h)
              (poll_until_ready-Reaches n rounds (poll_shared cached future v).0.1 w
                (park (poll_shared cached future v).1) t v' k h
                (outcome_pending poll_shared cached park n future v q ∙ e) (omega (arith, l))))
        | inr (o, q) ↦
            subst
              (λ (x : T × V).
                Reaches context_at
                  (at m (blocked v w) (
                    poll_until_ready (shared_polls poll_shared) exhausted cached park (suc rounds)
                      future k h))
                  (at m (blocked x.1 w) (k x.0)))
              (some_inj (sym (outcome_ready poll_shared cached park n future v o q) ∙ e))
              (poll_once rounds future w v k h (ready o) q)
      ]

  -- Outside of `sync` and of another `block_on`, a wait on a future whose polls change only the future and
  -- the shared state, and that is ready after at most `n` polls, with a pause after each of the others, returns: with its output, on the thread as it
  -- was, and with what the polls and the pauses made of the shared state.
  pub wait-Reaches :
      (n rounds : ℕ) (future : F) (w : World (Cell P (Unit {0}) W C) (Local W V)) (v : V) (t : T)
      (v' : V) (k : T → Program P (Cell P (Unit {0}) W C) (Local W V))
      (h : Payload P → Program P (Cell P (Unit {0}) W C) (Local W V))
      → outcome poll_shared cached park n future v ≡ some (t, v')
      → n ≤ rounds
      → Reaches context_at
          (at m
            (idle v w)
            (wait (shared_polls poll_shared) exhausted cached park rounds future k h))
          (at m (idle v' w) (k t))
  unfolding wait block_on run step_code
  wait-Reaches n rounds future w v t v' k h e l =
      Reaches-trans context_at (record { rounds = 4; ends = refl })
        (Reaches-trans context_at
          (poll_until_ready-Reaches n rounds future w v t v' (λ a. release (k a))
            (λ x. release (h x)) e l)
          (record { rounds = 2; ends = refl }))
