-- ===== src/Future/Local.antt =====
-- async/src/asym.rs: `sync`, `wait`, the thread's `CX` and `block_on`, on one thread. The cached waker,
-- what parking does to the state that other threads share, and the polls are parameters.
pub mod Lent
pub mod Blocking
pub mod Nested
use unico.Common.{ℕ, zero, suc, Bool, true, false, Option, none, some, if◌then◌else◌}
use unico.Context.Machine.{get, put}
use unico.Stack.{Stack}
use unico.Ful.Raw.{TaskLayouts}
use unico.Ful.Effect.{Payload, user, message, World, Program, M, pure, ◌>>=◌, throw}
use unico.Ful.Asym.{Cell, Gn}
use unico.Ful.Builder.{new, expect}
use unico.Future.{Poll, pending, ready, AsymContext, build, wait_loop}

-- What is the thread's own: `CX`, and whether the cached waker is borrowed. `rest` is everything else.
pub record Local (W V : Type 0) : Type 0 where
  pub cx : Option (AsymContext W)
  pub borrowed : Bool
  pub rest : V

-- `SetCxGuard`
pub record SetCxGuard (W : Type 0) : Type 0 where
  pub inner : Option (AsymContext W)

module _ {Cell W V : Type 0} where
  abbrev pub with_cx : Option (AsymContext W) → World Cell (Local W V) → World Cell (Local W V)
  with_cx cx w = record w { user_state = record w.user_state { cx = cx } }

  abbrev pub with_borrowed : Bool → World Cell (Local W V) → World Cell (Local W V)
  with_borrowed b w = record w { user_state = record w.user_state { borrowed = b } }

  abbrev pub with_rest : V → World Cell (Local W V) → World Cell (Local W V)
  with_rest v w = record w { user_state = record w.user_state { rest = v } }

module _ {P Cell W V : Type 0} where
  -- `CX.replace(cx)`; `CX.take()` replaces by `None`, and `CX.set(cx)` ignores the old value.
  abbrev pub replace_cx : Option (AsymContext W) → M P Cell (Local W V) (Option (AsymContext W))
  replace_cx cx k h = get λ w. put (with_cx cx w) (k w.user_state.cx)

  -- `<SetCxGuard as Drop>::drop`
  unfoldable pub drop_guard : SetCxGuard W → M P Cell (Local W V) (Unit {0})
  drop_guard guard k h = get λ w. put (with_cx guard.inner w) (k tt)

  -- A scope with a guard: it is dropped on return and when a panic unwinds.
  abbrev pub guarded : {A : Type 0} → SetCxGuard W → M P Cell (Local W V) A → M P Cell (Local W V) A
  guarded guard m k h = m (λ a. drop_guard guard (λ _. k a) h) (λ e. drop_guard guard (λ _. h e) h)

  -- The closure that `sync` gives to `sync_with`: it lends its context to `func`.
  unfoldable pub with_context :
      {T : Type 0} → M P Cell (Local W V) T → AsymContext W → M P Cell (Local W V) T
  with_context func cx = do old ← replace_cx (some cx); guarded (record { inner = old }) func

  -- `CACHE.with_borrow_mut`: a second borrow panics.
  abbrev pub with_borrow_mut : {A : Type 0} → M P Cell (Local W V) A → M P Cell (Local W V) A
  with_borrow_mut m k h = get λ w.
      if w.user_state.borrowed
      then h message
      else put (with_borrowed true w) (
          m (λ a. get λ w'. put (with_borrowed false w') (k a))
            (λ e. get λ w'. put (with_borrowed false w') (h e)))

  module _ {T F : Type 0} (poll_future : W → F → M P Cell (Local W V) (Poll T × F)) (exhausted : P)
      (cached : W) (park : V → V) where
    -- The loop of `block_on` with a count of polls; one that has used them up panics.
    unfoldable pub poll_until_ready : ℕ → F → M P Cell (Local W V) T
    poll_until_ready zero future k h = h (user exhausted)
    poll_until_ready (suc n) future k h =
        poll_future cached future
          (λ x. elim x.0 [
            | ready output ↦ k output
            | pending ↦
                get λ w. put (with_rest (park w.user_state.rest) w) (poll_until_ready n x.1 k h)
          ])
          h

    unfoldable pub block_on : ℕ → F → M P Cell (Local W V) T
    block_on n future = with_borrow_mut (poll_until_ready n future)

module _ {P W V T C F : Type 0}
    (poll_future : W → F → M P (Cell P (Unit {0}) W C) (Local W V) (Poll T × F)) (exhausted : P)
    (cached : W) (park : V → V) where
  -- `self.wait_with(guard.0.insert(cx))`: the wait changes the context in the guard.
  unfoldable pub wait_guarded : ℕ → F → AsymContext W → M P (Cell P (Unit {0}) W C) (Local W V) T
  wait_guarded n future cx k h =
      wait_loop poll_future exhausted n future cx
        (λ x. drop_guard (record { inner = some x.1 }) (λ _. k x.0) h)
        (λ x. drop_guard (record { inner = some x.1 }) (λ _. h x.0) h)

  -- `AsymWait::wait`
  unfoldable pub wait : ℕ → F → M P (Cell P (Unit {0}) W C) (Local W V) T
  wait n future = do
    taken ← replace_cx none
    elim taken [
      | some cx ↦ wait_guarded n future cx
      | none ↦ block_on poll_future exhausted cached park n future
    ]

-- `AsymBuilder`
pub record AsymBuilder (P W T U : Type 0) : Type 0 where
  pub func : AsymContext W → M P (Cell P (Unit {0}) W T) U T

module _ {P W T U : Type 0} where
  unfoldable pub sync_with : (AsymContext W → M P (Cell P (Unit {0}) W T) U T) → AsymBuilder P W T U
  sync_with func = record { func = func }

  -- `<AsymBuilder as IntoFuture>::into_future`, where `needs_drop` is whether the output's type has a
  -- destructor.
  unfoldable pub into_future :
      (needs_drop : Bool)
      → TaskLayouts
      → M P (Cell P (Unit {0}) W T) U Stack
      → AsymBuilder P W T U
      → M P (Cell P (Unit {0}) W T) U Gn
  into_future needs_drop ls global b = do
    stack ← (new global).stack
    r ← build needs_drop ls stack (new global).panic_hook b.func
    expect r

unfoldable pub sync :
    {P W V T : Type 0} → M P (Cell P (Unit {0}) W T) (Local W V) T → AsymBuilder P W T (Local W V)
sync func = sync_with (with_context func)
