-- ===== src/Future.antt =====
-- async/src/asym.rs: stackful futures. An `Asym` is a generator that is resumed with the waker of each
-- poll; a future that its main function waits on is a state with a poll function, a parameter.
pub mod Polls
pub mod Local
pub mod Awaited
use unico.Common.{Bool, refl, inr, inl, ◌⊎◌, ◌≡◌, ℕ, zero, suc}
use unico.Stack.{Stack}
use unico.Ful.Raw.{TaskLayouts}
use unico.Ful.Effect.{Program, Co, Payload, user, M, pure, ◌>>=◌, throw}
use unico.Ful.Coroutine.{Built}
use unico.Ful.Asym.{Cell, CoroutineState, yielded, complete, Gn, resume_gn, yield_, build_unchecked}

pub data Poll (T : Type 0) : Type 0 where
  pending : Poll T
  ready : T → Poll T

pub Poll-cases : {T : Type 0} (p : Poll T) → (p ≡ pending) ⊎ ((t : T) × (p ≡ ready t))
Poll-cases pending = inl refl
Poll-cases (ready t) = inr (t, refl)

-- `AsymContext`: the yield handle's address, and the waker.
pub record AsymContext (W : Type 0) : Type 0 where
  pub y : ℕ
  pub waker : W

abbrev pub to_poll : {T : Type 0} → CoroutineState (Unit {0}) T → Poll T
to_poll (yielded tt) = pending
to_poll (complete output) = ready output

module _ {P W T U : Type 0} where
  -- `Asym::build_unchecked`, where `needs_drop` is whether the output's type has a destructor.
  unfoldable pub build :
      (needs_drop : Bool)
      → TaskLayouts
      → Stack
      → (Payload P → M P (Cell P (Unit {0}) W T) U Co)
      → (AsymContext W → M P (Cell P (Unit {0}) W T) U T)
      → M P (Cell P (Unit {0}) W T) U (Built Gn)
  build needs_drop ls stack hook arg =
      build_unchecked needs_drop ls stack hook (λ y waker. arg (record { y = y; waker = waker }))

  -- `<Asym as Future>::poll`
  unfoldable pub poll : Gn → W → M P (Cell P (Unit {0}) W T) U (Poll T × Gn)
  poll gn waker = do r ← resume_gn gn waker; pure (to_poll r.0, r.1)

module _ {P W T C F U : Type 0} (poll_future : W → F → M P (Cell P (Unit {0}) W C) U (Poll T × F))
    (exhausted : P) where
  -- The loop of `wait_with` with a count of polls; a wait that has used them up panics. Both ends give
  -- the context as well, as the loop leaves it.
  unfoldable pub wait_loop :
      ℕ
      → F
      → AsymContext W
      → (T × AsymContext W → Program P (Cell P (Unit {0}) W C) U)
      → (Payload P × AsymContext W → Program P (Cell P (Unit {0}) W C) U)
      → Program P (Cell P (Unit {0}) W C) U
  wait_loop zero future cx k h = h (user exhausted, cx)
  wait_loop (suc n) future cx k h =
      poll_future cx.waker future
        (λ x. elim x.0 [
          | ready output ↦ k (output, cx)
          | pending ↦
              yield_ cx.y tt (λ waker. wait_loop n x.1 (record { y = cx.y; waker = waker }) k h)
                (λ e. h (e, cx))
        ])
        (λ e. h (e, cx))

  -- `AsymWait::wait_with`
  unfoldable pub wait_with : ℕ → F → AsymContext W → M P (Cell P (Unit {0}) W C) U T
  wait_with n future cx k h = wait_loop n future cx (λ x. k x.0) (λ x. h x.0)
