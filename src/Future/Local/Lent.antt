-- ===== src/Future/Local/Lent.antt =====
-- `sync` and `wait`: the context that a wait takes out of `CX`, and what `CX` holds afterwards.
use unico.Common.{ℕ, ◌≡◌, refl, Option, none, some}
use unico.Context.Machine.{Machine, Reaches, run, step_code}
use unico.Ful.Effect.{Payload, World, Program, M}
use unico.Ful.Effect.Steps.{at}
use unico.Ful.Asym.{Cell}
use unico.Future.{Poll, AsymContext, wait_loop}
use unico.Future.Local.{
  sync_with, with_context, Local, with_cx, sync, drop_guard, wait, wait_guarded,
}

module _ {P W V T C F : Type 0}
    (poll_future : W → F → M P (Cell P (Unit {0}) W C) (Local W V) (Poll T × F)) (exhausted : P)
    (cached : W) (park : V → V) (context_at : ℕ → ℕ → Option ℕ)
    (m : Machine (World (Cell P (Unit {0}) W C) (Local W V)) (Payload P))
    (w : World (Cell P (Unit {0}) W C) (Local W V)) (n : ℕ) (future : F) where
  -- `wait_with` runs on the context `cx` while `CX` is empty. When it ends, by a return or a panic, with
  -- the context `cx'`, on whatever machine and memory, `CX` is set to `after cx'`.
  pub record Lent (before : Machine (World (Cell P (Unit {0}) W C) (Local W V)) (Payload P))
      (cx : AsymContext W) (after : AsymContext W → Option (AsymContext W))
      (k : T → Program P (Cell P (Unit {0}) W C) (Local W V))
      (h : Payload P → Program P (Cell P (Unit {0}) W C) (Local W V)) : Type 0 where
    pub on_return : T × AsymContext W → Program P (Cell P (Unit {0}) W C) (Local W V)
    pub on_panic : Payload P × AsymContext W → Program P (Cell P (Unit {0}) W C) (Local W V)
    pub reaches :
        Reaches context_at before
          (at m (with_cx none w) (wait_loop poll_future exhausted n future cx on_return on_panic))
    pub returns :
        (m' : Machine (World (Cell P (Unit {0}) W C) (Local W V)) (Payload P))
        (w' : World (Cell P (Unit {0}) W C) (Local W V)) (t : T) (cx' : AsymContext W)
        → Reaches context_at (at m' w' (on_return (t, cx'))) (at m' (with_cx (after cx') w') (k t))
    pub unwinds :
        (m' : Machine (World (Cell P (Unit {0}) W C) (Local W V)) (Payload P))
        (w' : World (Cell P (Unit {0}) W C) (Local W V)) (e : Payload P) (cx' : AsymContext W)
        → Reaches context_at (at m' w' (on_panic (e, cx'))) (at m' (with_cx (after cx') w') (h e))

  -- Where `CX` holds a context, a wait takes it out, and puts it back with its last waker.
  pub wait-Lent :
      (cx : AsymContext W) (k : T → Program P (Cell P (Unit {0}) W C) (Local W V))
      (h : Payload P → Program P (Cell P (Unit {0}) W C) (Local W V))
      → w.user_state.cx ≡ some cx
      → Lent (at m w (wait poll_future exhausted cached park n future k h)) cx (λ cx'. some cx') k h
  unfolding wait wait_guarded drop_guard run step_code
  wait-Lent cx k h e = record {
    on_return = λ x. drop_guard (record { inner = some x.1 }) (λ _. k x.0) h;
    on_panic = λ x. drop_guard (record { inner = some x.1 }) (λ _. h x.0) h;
    reaches = record { rounds = 2; ends = rw (e, wait, run, step_code) refl };
    returns = λ m' w' t cx'. record { rounds = 2; ends = refl };
    unwinds = λ m' w' t cx'. record { rounds = 2; ends = refl };
  }

module _ {P W V T F : Type 0}
    (poll_future : W → F → M P (Cell P (Unit {0}) W T) (Local W V) (Poll T × F)) (exhausted : P)
    (cached : W) (park : V → V) (context_at : ℕ → ℕ → Option ℕ)
    (m : Machine (World (Cell P (Unit {0}) W T) (Local W V)) (Payload P))
    (w : World (Cell P (Unit {0}) W T) (Local W V)) (n : ℕ) (future : F) where
  -- A `sync` function that waits, on the context `cx` and in any state of the thread: the wait runs as
  -- `wait_with` on `cx`, with `CX` empty when it begins, and when it ends, by a return or a panic, on whatever machine and
  -- memory, `CX` is set to what it held when the function began.
  pub sync-Lent :
      (cx : AsymContext W) (k : T → Program P (Cell P (Unit {0}) W T) (Local W V))
      (h : Payload P → Program P (Cell P (Unit {0}) W T) (Local W V))
      → Lent poll_future exhausted cached park context_at m w n future
          (at m w ((sync (wait poll_future exhausted cached park n future)).func cx k h))
          cx
          (λ cx'. w.user_state.cx)
          k
          h
  unfolding sync sync_with with_context wait wait_guarded drop_guard run step_code
  sync-Lent cx k h = record {
    on_return = λ x.
        drop_guard (record { inner = some x.1 })
          (λ _. drop_guard (record { inner = w.user_state.cx }) (λ _. k x.0) h)
          (λ e. drop_guard (record { inner = w.user_state.cx }) (λ _. h e) h);
    on_panic = λ x.
        drop_guard (record { inner = some x.1 })
          (λ _. drop_guard (record { inner = w.user_state.cx }) (λ _. h x.0) h)
          (λ e. drop_guard (record { inner = w.user_state.cx }) (λ _. h e) h);
    reaches = record { rounds = 4; ends = refl };
    returns = λ m' w' t cx'. record { rounds = 4; ends = refl };
    unwinds = λ m' w' t cx'. record { rounds = 4; ends = refl };
  }
