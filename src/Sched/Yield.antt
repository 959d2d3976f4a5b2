-- ===== src/Sched/Yield.antt =====
-- `yield_now`: the running task goes to the scheduler, and the next one goes on.
use mathlib.Core.Option.{Option}
use unico.Common.{ℕ, ◌≡◌, Bool, true, none, some}
use mathlib.Core.Option
use unico.Context.Machine.{null, transfer, Arrival, Machine, Reaches, Reaches-trans}
use unico.Ful.Effect.{Payload, message, World, Program, pure, throw, ◌>>=◌, arrived}
use unico.Ful.Effect.Steps.{at, switched, get-Reaches, put-Reaches, resume_with-Reaches}
use unico.Ful.Coroutine.{from_inner, map}
use unico.Ful.Sym.{resume_with, resume_payloaded_with}
use unico.Sched.{Task, Scheduler, resume, try_schedule, yield_now}

module _ {P Cell U : Type 0} (k : Bool → Program P Cell U) (h : Payload P → Program P Cell U) where
  -- What a task that has yielded does when it is resumed: it must find that its resumer kept nothing.
  abbrev pub yielder : Arrival (World Cell U) (Payload P) → Program P Cell U
  yielder =
      arrived
        (λ t.
          (do
            _ ← (elim (Option.map from_inner t.context) [
              | none ↦ pure tt
              | some co ↦ throw message
            ])
            pure true)
            k h)
        h

module _ {Meta P Cell U : Type 0} (s : Scheduler Meta U) (context_at : ℕ → ℕ → Option ℕ)
    (m : Machine (World Cell U) (Payload P)) (w : World Cell U) (k : Bool → Program P Cell U)
    (h : Payload P → Program P Cell U) where
  -- The task that the caller becomes.
  abbrev pub yielded_task : Task Meta → U → Task Meta
  yielded_task task u = record {
    co = from_inner m.running;
    metadata = (s.switch task.metadata u).0;
  }

  -- Where the scheduler has a next task, whose stack is suspended, `yield_now` enqueues the running
  -- task with the switched metadata and continues that stack, which gets no coroutine in exchange.
  pub yield_now-Reaches :
      (task : Task Meta) (u : U) (target : Arrival (World Cell U) (Payload P) → Program P Cell U)
      → s.dequeue w.user_state ≡ (some task, u)
      → m.conts task.co.cx ≡ some target
      → Reaches context_at (at m w (yield_now s k h)) (
          at
            (switched m task.co.cx (yielder k h))
            (record w { user_state = s.enqueue (yielded_task task u) (s.switch task.metadata u).1 })
            (target (transfer (record { context = none; data_ptr = null }))))
  unfolding yield_now try_schedule resume resume_with resume_payloaded_with map
  yield_now-Reaches task u target e f = Reaches-trans context_at (get-Reaches context_at m w _) (
      rw e (
        Reaches-trans context_at (put-Reaches context_at m w (record w { user_state = u }) _) (
          resume_with-Reaches context_at m (record w { user_state = u }) task.co.cx null _
            (yielder k h) f)))
