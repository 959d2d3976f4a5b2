-- ===== src/Sched/Fifo/Slice.antt =====
-- One turn of a task on the machine, until the next one in the queue goes on.
use unico.Common.{
  subst, Bool, ℕ, suc, ◌≡◌, refl, Option, none, some, Option-cases, inl, inr, List, [], ◌∷◌, ◌++◌,
}
use unico.Context.Machine.{
  null, transfer, update, Arrival, Machine, Reaches, Reaches-trans, stop, aborted,
}
use unico.Stack.{Stack}
use unico.Stack
use unico.Ful.Raw.{from_ptr}
use unico.Ful.Effect.{Payload, World, Program, arrived}
use unico.Ful.Effect.Steps.{get-Reaches, put-Reaches, resume_with-Reaches}
use unico.Ful.Coroutine.{release, exit_map}
use unico.Sched.{Task, leave}
use unico.Sched.Yield.{yielder, yield_now-Reaches}
use unico.Sched.Fifo.{Fifo, fifo, Job, ends, steps, changed, queued, run_job}
use unico.Sched.Fifo.Ring.{Entry, task_of, resumed}

module _ {Cell V : Type 0} where
  release-queued :
      (slot : ℕ) (q : List (Task (Unit {0}))) (w : World Cell (Fifo V))
      → release slot (queued q w) ≡ queued q (release slot w)
  release-queued slot q w = elim (Option-cases (w.tasks slot)) [
    | inl e ↦ rw (release, e) refl
    | inr (s, e) ↦ elim (Option-cases (Stack.drop s w.heap)) [
      | inl d ↦ rw (release, e, d) refl
      | inr (h, d) ↦ rw (release, e, d) refl
    ]
  ]

module _ {P Cell V : Type 0} where
  abbrev pub with_job : Entry P Cell V → Job V → Entry P Cell V
  with_job e j = record e { job = j }

  -- The entries after the turn of `e`: what is left of it goes to the end.
  abbrev pub put_back : List (Entry P Cell V) → Entry P Cell V → Job V → List (Entry P Cell V)
  put_back es e ends = es
  put_back es e (steps f j) = es ++ with_job e j ∷ []

  -- The same of the queue.
  abbrev pub back_in : List (Task (Unit {0})) → Entry P Cell V → Job V → List (Task (Unit {0}))
  back_in q e ends = q
  back_in q e (steps f j) = q ++ task_of e ∷ []

  abbrev pub running :
      (ℕ → Option (Arrival (World Cell (Fifo V)) (Payload P) → Program P Cell (Fifo V)))
      → ℕ
      → World Cell (Fifo V)
      → Program P Cell (Fifo V)
      → Machine (World Cell (Fifo V)) (Payload P)
  running conts c w code = record { conts = conts; running = c; world = w; code = code }

  -- The memory after it: the state has changed, or the task's stack is freed.
  abbrev pub world_after : Entry P Cell V → Job V → World Cell (Fifo V) → World Cell (Fifo V)
  world_after e ends w = release (from_ptr e.ls e.task).stack w
  world_after e (steps f j) w = changed f w

  -- What the stack of `e` does when it is next resumed.
  abbrev pub GoesOn :
      ℕ
      → Entry P Cell V
      → Job V
      → (Arrival (World Cell (Fifo V)) (Payload P) → Program P Cell (Fifo V))
      → Type 0
  GoesOn rounds e ends v = Unit {0}
  GoesOn rounds e (steps f j) v =
      v (transfer (record { context = none; data_ptr = null })) ≡ resumed rounds (with_job e j)

  -- The next task in the queue is at `c` and waits with `target`.
  module _ (rounds : ℕ) (context_at : ℕ → ℕ → Option ℕ)
      (conts : ℕ → Option (Arrival (World Cell (Fifo V)) (Payload P) → Program P Cell (Fifo V)))
      (t : Task (Unit {0})) (q : List (Task (Unit {0}))) (w : World Cell (Fifo V))
      (target : Arrival (World Cell (Fifo V)) (Payload P) → Program P Cell (Fifo V))
      (waits : conts t.co.cx ≡ some target) where
    abbrev here : Entry P Cell V → Machine (World Cell (Fifo V)) (Payload P)
    here e = running conts e.cx w (stop aborted)

    -- What follows a `yield_now` of a task.
    abbrev continue : Entry P Cell V → Job V → Bool → Program P Cell (Fifo V)
    continue e j more = resumed (suc rounds) (with_job e j)

    -- The turn of `e`.
    pub record Sliced (e : Entry P Cell V) (j : Job V) : Type 0 where
      pub left : Arrival (World Cell (Fifo V)) (Payload P) → Program P Cell (Fifo V)
      pub reaches :
          Reaches context_at
            (running conts e.cx (queued (t ∷ q) w) (resumed (suc rounds) (with_job e j)))
            (running
              (update (update conts e.cx (some left)) t.co.cx none)
              t.co.cx
              (queued (back_in q e j) (world_after e j w))
              (target (transfer (record { context = none; data_ptr = null }))))
      pub goes_on : GoesOn (suc rounds) e j left

    pub slice : (e : Entry P Cell V) (j : Job V) → Sliced e j
    unfolding run_job leave exit_map
    slice e ends = record {
      left = arrived (λ _. stop aborted) (λ _. stop aborted);
      reaches =
          subst
            (λ (x : World Cell (Fifo V)).
              Reaches context_at
                (running conts e.cx (queued (t ∷ q) w) (resumed (suc rounds) (with_job e ends)))
                (running
                  (update
                    (update conts e.cx (some (arrived (λ _. stop aborted) (λ _. stop aborted))))
                    t.co.cx none)
                  t.co.cx x (target (transfer (record { context = none; data_ptr = null })))))
            (release-queued (from_ptr e.ls e.task).stack q w)
            (Reaches-trans context_at (get-Reaches context_at (here e) (queued (t ∷ q) w) _) (
              Reaches-trans context_at
                (put-Reaches context_at (here e) (queued (t ∷ q) w) (queued q w) _)
                (Reaches-trans context_at (get-Reaches context_at (here e) (queued q w) _) (
                  Reaches-trans context_at
                    (put-Reaches context_at (here e) (queued q w) (queued q w) _)
                    (resume_with-Reaches context_at (here e) (queued q w) t.co.cx e.task
                      (exit_map e.ls) (arrived (λ _. stop aborted) (λ _. stop aborted)) waits)))));
      goes_on = tt;
    }
    slice e (steps f j) = record {
      left = yielder (continue e j) e.unwound;
      reaches = Reaches-trans context_at (get-Reaches context_at (here e) (queued (t ∷ q) w) _) (
          Reaches-trans context_at
            (put-Reaches context_at (here e) (queued (t ∷ q) w) (queued (t ∷ q) (changed f w)) _)
            (yield_now-Reaches fifo context_at (here e) (queued (t ∷ q) (changed f w))
              (continue e j) e.unwound t (record { queue = q; rest = f w.user_state.rest }) target
              refl waits));
      goes_on = refl;
    }
