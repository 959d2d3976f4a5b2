-- ===== src/Sched/Fifo/Spawned.antt =====
-- A main program that spawns tasks (`SchedulerExt::spawn`), enqueues them, and yields until they end.
use unico.Common.{false, ℕ, suc, ◌≡◌, ◌≢◌, refl, Option, none, some, List, [], ◌∷◌, ◌++◌}
use unico.Context.Machine.{
  enter, update, Arrival, Machine, Reaches, Reaches-trans, stop, aborted, get, put,
}
use unico.Stack.{Stack}
use unico.Ful.Raw.{TaskLayouts, from_ptr, placed, place}
use unico.Ful.Effect.{Co, Payload, message, World, Program, M, pure, ◌>>=◌, ◌>>◌, throw}
use unico.Ful.Effect.Steps.{get-Reaches, put-Reaches}
use unico.Ful.Coroutine.{entry, Built, built, failed, run_caught, new_on}
use unico.Ful.Coroutine.Creation.{
  waits, leave as exit_to, taken, new_on_imp-spawned, spawned, first, first_waits,
}
use unico.Ful.Sym.{build_unchecked}
use unico.Ful.Builder.{this_stack, spawn, spawn_unchecked}
use unico.Sched.{Task, modify_user, spawn_task, leave}
use unico.Sched.Fifo.{Fifo, fifo, Job, queued, run_job}
use unico.Sched.Fifo.Ring.{
  Entry, task_of, Apart, Apart-append, Distinct-rotate, Parked-append, Parked-created,
}
use unico.Sched.Fifo.Slice.{running}
use unico.Sched.Fifo.Pass.{Ring}

-- What a task is spawned with, and where its record and its context come to lie.
pub record Birth (P Cell V : Type 0) : Type 0 where
  pub ls : TaskLayouts
  pub stack : Stack
  pub hook : Payload P → M P Cell (Fifo V) Co
  pub job : Job V
  pub task : ℕ
  pub rest : ℕ
  pub cx : ℕ

module _ {P Cell V : Type 0} where
  abbrev pub entry_of : Birth P Cell V → Entry P Cell V
  entry_of b = record {
    cx = b.cx;
    ls = b.ls;
    task = b.task;
    unwound = λ e. run_caught (λ k h. h e) b.hook (exit_to b.ls b.task) (λ _. stop aborted);
    job = b.job;
  }

  -- `sched.enqueue(task)`
  abbrev pub enqueue : Task (Unit {0}) → M P Cell (Fifo V) (Unit {0})
  enqueue task k h = get λ w. put (modify_user (fifo.enqueue task) w) (k tt)

  abbrev pub enqueue_built : Built (Task (Unit {0})) → M P Cell (Fifo V) (Unit {0})
  enqueue_built (built task) = enqueue task
  enqueue_built (failed e) = throw message

  abbrev pub spawn_one : ℕ → Birth P Cell V → M P Cell (Fifo V) (Unit {0})
  spawn_one rounds b = do
    r ←
        spawn_task fifo (suc rounds) b.ls
          (record { stack = this_stack b.stack; panic_hook = b.hook }) tt (run_job b.job)
    enqueue_built r

  abbrev pub spawn_all : ℕ → List (Birth P Cell V) → M P Cell (Fifo V) (Unit {0})
  spawn_all rounds [] = pure tt
  spawn_all rounds (b ∷ bs) = do spawn_one rounds b; spawn_all rounds bs

  -- The stacks hold the records, and the contexts are accepted and apart from each other, from those of
  -- the tasks in the queue, and from the main program's.
  unfoldable pub AreReady :
      (ℕ → ℕ → Option ℕ) → ℕ → List (Entry P Cell V) → List (Birth P Cell V) → Type 0
  AreReady context_at main es [] = Unit {0}
  AreReady context_at main es (b ∷ bs) =
      (place b.ls b.stack.pointer b.stack.layout ≡ placed b.task b.rest)
      × (context_at b.stack.pointer b.rest ≡ some b.cx)
      × (b.cx ≢ main)
      × Apart b.cx es
      × AreReady context_at main (es ++ entry_of b ∷ []) bs

module _ {P Cell V : Type 0} (rounds : ℕ) (context_at : ℕ → ℕ → Option ℕ) (main : ℕ)
    (conts : ℕ → Option (Arrival (World Cell (Fifo V)) (Payload P) → Program P Cell (Fifo V)))
    (w : World Cell (Fifo V)) (b : Birth P Cell V)
    (fits : place b.ls b.stack.pointer b.stack.layout ≡ placed b.task b.rest)
    (accepted : context_at b.stack.pointer b.rest ≡ some b.cx) (new : b.cx ≢ main) where
  abbrev here : Machine (World Cell (Fifo V)) (Payload P)
  here = running conts main w (stop aborted)

  -- What the new task's coroutine runs.
  abbrev main_function : Option Co → M P Cell (Fifo V) Co
  main_function other = elim other [
    | none ↦ do run_job b.job; leave fifo (suc rounds)
    | some co ↦ throw message
  ]

  abbrev task_built : Built Co → M P Cell (Fifo V) (Built (Task (Unit {0})))
  task_built r = elim r [
    | built co ↦ pure (built (record { co = co; metadata = tt }))
    | failed e ↦ pure (failed e)
  ]

  -- The continuations after the creation.
  abbrev after_creation :
      (Option Co → Program P Cell (Fifo V))
      → (Payload P → Program P Cell (Fifo V))
      → ℕ
      → Option (Arrival (World Cell (Fifo V)) (Payload P) → Program P Cell (Fifo V))
  after_creation k h =
      (spawned context_at here w b.ls b.stack b.hook b.task b.rest b.cx fits accepted new
        main_function k h).conts

  -- What follows the creation of the coroutine in `spawn`.
  abbrev finish_spawn :
      (Unit {0} → Program P Cell (Fifo V))
      → (Payload P → Program P Cell (Fifo V))
      → Built (Option Co)
      → Program P Cell (Fifo V)
  finish_spawn k h r = taken r (λ c. task_built c (λ t. enqueue_built t k h) h) h

  -- The main program with the new task.
  abbrev pub made :
      (Unit {0} → Program P Cell (Fifo V))
      → (Payload P → Program P Cell (Fifo V))
      → Machine (World Cell (Fifo V)) (Payload P)
  made k h = running (after_creation (λ o. finish_spawn k h (built o)) h) main w (stop aborted)

  pub spawn_one-Reaches :
      (q : List (Task (Unit {0}))) (k : Unit {0} → Program P Cell (Fifo V))
      (h : Payload P → Program P Cell (Fifo V))
      → Reaches context_at (running conts main (queued q w) (spawn_one rounds b k h)) (
          running
            (after_creation (λ o. finish_spawn k h (built o)) h)
            main
            (queued
              (q ++ task_of (entry_of b) ∷ [])
              (record w { tasks = update w.tasks (from_ptr b.ls b.task).stack (some b.stack) }))
            (k tt))
  unfolding spawn_task spawn spawn_unchecked build_unchecked new_on
  spawn_one-Reaches q k h =
      Reaches-trans context_at
        (new_on_imp-spawned context_at here (queued q w) b.ls b.stack b.hook b.task b.rest b.cx fits
          accepted new main_function (finish_spawn k h) h)
        (Reaches-trans context_at (get-Reaches context_at (made k h) _ _)
          (put-Reaches context_at (made k h) _ _ _))

  -- The queue with the new task.
  pub made-Ring :
      (es : List (Entry P Cell V)) (k : Unit {0} → Program P Cell (Fifo V))
      (h : Payload P → Program P Cell (Fifo V))
      → Apart b.cx es
      → Ring rounds conts main es
      → Ring rounds (made k h).conts main (es ++ entry_of b ∷ [])
  unfolding run_job
  made-Ring es k h a r = record {
    apart = Apart-append main es (entry_of b ∷ []) r.apart (new, tt);
    distinct = Distinct-rotate es (entry_of b) a r.distinct;
    parked =
        Parked-append (suc rounds) (made k h).conts es (entry_of b ∷ [])
          (Parked-created (suc rounds) conts b.cx main
            (some (enter (entry b.ls false b.hook main_function)))
            (some (waits (λ o. finish_spawn k h (built o)) h)) none
            (some (
              first context_at here w b.ls b.stack b.hook b.task b.rest b.cx fits accepted new
                main_function))
            none es a r.apart r.parked)
          (
            (
              first context_at here w b.ls b.stack b.hook b.task b.rest b.cx fits accepted new
                  main_function,
              first_waits context_at here w b.ls b.stack b.hook b.task b.rest b.cx fits accepted new
                  main_function (λ o. finish_spawn k h (built o)) h,
              refl,
            ),
            tt,
          );
  }
