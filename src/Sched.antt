-- ===== src/Sched.antt =====
-- async/src/sym.rs and async/src/sym/cx.rs: tasks over symmetric coroutines, scheduling, and waiting.
pub mod Wait
pub mod Yield
pub mod Lock
pub mod SymWait
pub mod Fifo
use unico.Common.{ℕ, zero, suc, Bool, true, false, Option, none, some, List, [], ◌∷◌}
use unico.Context.Machine.{get, put, stop, undefined}
use unico.Ful.Raw.{TaskLayouts}
use unico.Ful.Effect.{Co, Payload, message, World, M, pure, ◌>>=◌, ◌>>◌, throw}
use unico.Ful.Sym.{resume_with}
use unico.Ful.Coroutine.{Built, built, failed}
use unico.Ful.Builder.{Builder, spawn}

pub record Task (Meta : Type 0) : Type 0 where
  pub co : Co
  pub metadata : Meta

-- `Scheduler` with its `Switch` metadata. The scheduler and the "current" state that metadata are switched
-- with stand in the state `U`, which the tasks share.
pub record Scheduler (Meta U : Type 0) : Type 0 where
  pub switch : Meta → U → Meta × U
  pub enqueue : Task Meta → U → U
  pub dequeue : U → Option (Task Meta) × U

-- `State` of cx.rs
pub data State (Meta : Type 0) : Type 0 where
  empty : State Meta
  notified : State Meta
  waiting : Task Meta → State Meta

-- `self.state` of a `SchedContext`: how it stands in the shared state.
pub record Slot (Meta U : Type 0) : Type 0 where
  pub read : U → State Meta
  pub write : State Meta → U → U

abbrev pub modify_user : {Cell U : Type 0} → (U → U) → World Cell U → World Cell U
modify_user f w = record w { user_state = f w.user_state }

-- `wake_by_ref`. The lock is held only for the exchange of the state.
unfoldable pub wake : {Meta U : Type 0} → Scheduler Meta U → Slot Meta U → U → U
wake s slot u = elim (slot.read u) [
  | waiting task ↦ s.enqueue task (slot.write notified u)
  | _ ↦ slot.write notified u
]

module _ {Meta P Cell U : Type 0} (s : Scheduler Meta U) where
  -- `Task::resume`; the closure takes the task that the caller becomes.
  unfoldable pub resume : Task Meta → (Task Meta → U → U) → M P Cell U (Unit {0})
  resume task f = do
    other ← resume_with task.co (λ co w. (
      none,
      modify_user
          (λ u.
            let (metadata, v) = s.switch task.metadata u in
            f (record { co = co; metadata = metadata }) v)
          w,
    ))
    elim other [ none ↦ pure tt | some co ↦ throw message ]

  -- `self.dequeue()`
  abbrev pub dequeue_next : M P Cell U (Option (Task Meta))
  dequeue_next k h =
      get λ w. put (modify_user (λ u. (s.dequeue u).1) w) (k (s.dequeue w.user_state).0)

  unfoldable pub try_schedule : (Task Meta → U → U) → M P Cell U Bool
  try_schedule f = do
    next ← dequeue_next
    elim next [ some task ↦ do resume task f; pure true | none ↦ pure false ]

  unfoldable pub yield_now : M P Cell U Bool
  yield_now = try_schedule (λ task u. s.enqueue task u)

  -- The spinning loops have a count of rounds; a loop that has used them up has no result.
  unfoldable pub schedule : ℕ → (Task Meta → U → U) → M P Cell U (Unit {0})
  schedule zero f = λ k h. stop undefined
  schedule (suc n) f = do
    next ← dequeue_next
    let again = schedule n f
    elim next [ some task ↦ resume task f | none ↦ again ]

  -- `let _ = metadata.switch()`
  abbrev pub switch_to : Meta → M P Cell U (Unit {0})
  switch_to metadata k h = get λ w. put (modify_user (λ u. (s.switch metadata u).1) w) (k tt)

  -- The end of the closure that `spawn` runs: the next task's coroutine, after the switch to its
  -- metadata.
  unfoldable pub leave : ℕ → M P Cell U Co
  leave zero = λ k h. stop undefined
  leave (suc n) = do
    next ← dequeue_next
    let again = leave n
    elim next [ some task ↦ do switch_to task.metadata; pure task.co | none ↦ again ]

  -- `SchedulerExt::spawn`
  unfoldable pub spawn_task :
      ℕ
      → TaskLayouts
      → Builder P Cell U
      → Meta
      → M P Cell U (Unit {0})
      → M P Cell U (Built (Task Meta))
  spawn_task rounds ls builder metadata f = do
    r ←
        spawn ls builder
          (λ other. elim other [ none ↦ do f; leave rounds | some co ↦ throw message ])
    elim r [
      | built co ↦ pure (built (record { co = co; metadata = metadata }))
      | failed e ↦ pure (failed e)
    ]

  module _ (slot : Slot Meta U) where
    -- `mem::take(&mut *state)`
    abbrev pub take_state : M P Cell U (State Meta)
    take_state k h = get λ w. put (modify_user (slot.write empty) w) (k (slot.read w.user_state))

    -- `SchedContext::wait`, on one thread. The lock that it holds until the closure has run is in Sched/Lock.
    unfoldable pub wait : ℕ → ℕ → M P Cell U (Unit {0})
    wait zero spins = λ k h. stop undefined
    wait (suc n) spins = do
      state ← take_state
      let again = wait n spins
      elim state [
        | notified ↦ pure tt
        | empty ↦ do schedule spins (λ task. slot.write (waiting task)); again
        | waiting task ↦ throw message
      ]
