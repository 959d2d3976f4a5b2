-- ===== src/Future/Local/Nested.antt =====
-- `wait` inside of a poll that `block_on` makes.
use unico.Common.{Option, ℕ, suc, refl}
use unico.Context.Machine.{Machine, Reaches, run, step_code}
use unico.Ful.Effect.{Payload, message, World, Program, M, ◌>>=◌}
use unico.Ful.Effect.Steps.{at}
use unico.Ful.Asym.{Cell}
use unico.Future.{Poll}
use unico.Future.Local.{Local, poll_until_ready, block_on, wait}
use unico.Future.Local.Blocking.{idle}

module _ {P W V T T' C F F' : Type 0}
    (poll_inner : W → F' → M P (Cell P (Unit {0}) W C) (Local W V) (Poll T' × F')) (exhausted : P)
    (cached : W) (park : V → V) where
  -- A future each of whose polls waits on an inner future before it goes on.
  abbrev pub waiting_polls :
      ℕ
      → (F → F')
      → (T' → F → M P (Cell P (Unit {0}) W C) (Local W V) (Poll T × F))
      → W
      → F
      → M P (Cell P (Unit {0}) W C) (Local W V) (Poll T × F)
  waiting_polls rounds inner after waker future = do
    t ← wait poll_inner exhausted cached park rounds (inner future)
    after t future

  module _ (context_at : ℕ → ℕ → Option ℕ)
      (m : Machine (World (Cell P (Unit {0}) W C) (Local W V)) (Payload P))
      (w : World (Cell P (Unit {0}) W C) (Local W V)) (rounds : ℕ) (inner : F → F')
      (after : T' → F → M P (Cell P (Unit {0}) W C) (Local W V) (Poll T × F)) where
    -- Outside of `sync`, a wait on a future whose poll itself waits on another future panics, whatever
    -- the futures are, and leaves the thread as it was.
    pub wait-wait :
        (n : ℕ) (future : F) (v : V) (k : T → Program P (Cell P (Unit {0}) W C) (Local W V))
        (h : Payload P → Program P (Cell P (Unit {0}) W C) (Local W V))
        → Reaches context_at
            (at m
              (idle v w)
              (wait (waiting_polls rounds inner after) exhausted cached park (suc n) future k h))
            (at m (idle v w) (h message))
    unfolding wait block_on poll_until_ready run step_code
    wait-wait n future v k h = record { rounds = 9; ends = refl }
