-- ===== src/Sched/Fifo.antt =====
-- async/src/sym.rs: tasks that yield, over a queue that is first in first out (the scheduler of the
-- tests there). A task changes the shared state and yields, some times, and ends.
pub mod Ring
pub mod Slice
pub mod Pass
pub mod Turns
pub mod Plan
pub mod Freed
pub mod Whole
pub mod Spawned
pub mod Tasks
use unico.Common.{ℕ, zero, suc, Bool, true, false, Option, none, some, List, [], ◌∷◌, ◌++◌}
use unico.Context.Machine.{get, put, stop, undefined}
use unico.Ful.Effect.{Payload, World, Program, M, pure, ◌>>=◌, ◌>>◌}
use unico.Sched.{Task, Scheduler, modify_user, yield_now}

-- The shared state: the run queue, and everything else.
pub record Fifo (V : Type 0) : Type 0 where
  pub queue : List (Task (Unit {0}))
  pub rest : V

module _ {V : Type 0} where
  -- `pop_front`
  abbrev pub pop : Fifo V → Option (Task (Unit {0})) × Fifo V
  pop u = elim u.queue [ [] ↦ (none, u) | task ∷ tasks ↦ (some task, record u { queue = tasks }) ]

  -- `Fifo`; switching `()` does nothing.
  abbrev pub fifo : Scheduler (Unit {0}) (Fifo V)
  fifo = record {
    switch = λ metadata u. (metadata, u);
    enqueue = λ task u. record u { queue = u.queue ++ task ∷ [] };
    dequeue = pop;
  }

pub data Job (V : Type 0) : Type 0 where
  ends : Job V
  steps : (V → V) → Job V → Job V

module _ {Cell V : Type 0} where
  abbrev pub changed : (V → V) → World Cell (Fifo V) → World Cell (Fifo V)
  changed f w = modify_user (λ u. record u { rest = f u.rest }) w

  abbrev pub queued : List (Task (Unit {0})) → World Cell (Fifo V) → World Cell (Fifo V)
  queued q w = modify_user (λ u. record u { queue = q }) w

module _ {P Cell V : Type 0} where
  abbrev pub modify : (V → V) → M P Cell (Fifo V) (Unit {0})
  modify f k h = get λ w. put (changed f w) (k tt)

  -- The closure that a task runs.
  unfoldable pub run_job : Job V → M P Cell (Fifo V) (Unit {0})
  run_job ends = pure tt
  run_job (steps f j) = do modify f; _ ← yield_now fifo; run_job j

  -- `while sched.yield_now() {}`, with a count of rounds.
  unfoldable pub yield_all : ℕ → M P Cell (Fifo V) (Unit {0})
  yield_all zero = λ k h. stop undefined
  yield_all (suc n) = do
    more ← yield_now fifo
    let again = yield_all n
    elim more [ true ↦ again | false ↦ pure tt ]
