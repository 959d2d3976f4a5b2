-- ===== src/Sched/Fifo/Tasks.antt =====
-- The whole program: tasks are spawned, and the main program yields until they have ended.
use unico.Common.{◌⊎◌, inl, ℕ, suc, ◌≤◌, ◌≡◌, refl, sym, subst, Option, some, List, [], ◌∷◌, ◌++◌}
use mathlib.Core.List.{append_assoc, append-nil}
use unico.Context.Machine.{update, Arrival, Machine, Reaches, Reaches-trans, run}
use unico.Ful.Raw.{from_ptr}
use unico.Ful.Effect.{Payload, World, Program, M, ◌>>◌}
use unico.Sched.{Task}
use unico.Sched.Fifo.{Fifo, queued, yield_all}
use unico.Sched.Fifo.Ring.{Entry, task_of, tasks, tasks-append}
use unico.Sched.Fifo.Slice.{running}
use unico.Sched.Fifo.Pass.{Ring}
use unico.Sched.Fifo.Freed.{IsFreed, Listed}
use unico.Sched.Fifo.Plan.{jobs, play, most}
use unico.Sched.Fifo.Whole.{Played, Played-after, yield_all-Played}
use unico.Sched.Fifo.Spawned.{
  Birth, entry_of, spawn_all, AreReady, spawn_one-Reaches, made-Ring, made,
}

module _ {P Cell V : Type 0} where
  abbrev pub entries : List (Birth P Cell V) → List (Entry P Cell V)
  entries [] = []
  entries (b ∷ bs) = entry_of b ∷ entries bs

  -- The memory with the handle of the new task's stack.
  abbrev made_world : World Cell (Fifo V) → Birth P Cell V → World Cell (Fifo V)
  made_world w b = record w { tasks = update w.tasks (from_ptr b.ls b.task).stack (some b.stack) }

  -- Spawns and enqueues the tasks, and then yields at most so many times.
  unfoldable pub run_tasks : ℕ → ℕ → List (Birth P Cell V) → M P Cell (Fifo V) (Unit {0})
  run_tasks rounds n bs = do spawn_all rounds bs; yield_all n

  module _ (rounds : ℕ) (context_at : ℕ → ℕ → Option ℕ) (main : ℕ) where
    -- The main program goes on with these tasks in the queue.
    pub record SpawnedAll (before : Machine (World Cell (Fifo V)) (Payload P))
        (code : Program P Cell (Fifo V)) (es : List (Entry P Cell V)) (state : V) : Type 0 where
      pub conts : ℕ → Option (Arrival (World Cell (Fifo V)) (Payload P) → Program P Cell (Fifo V))
      pub world : World Cell (Fifo V)
      pub reaches : Reaches context_at before (running conts main (queued (tasks es) world) code)
      pub ring : Ring rounds conts main es
      pub state_eq : world.user_state.rest ≡ state

    SpawnedAll-after :
        {a b : Machine (World Cell (Fifo V)) (Payload P)} {code : Program P Cell (Fifo V)}
        {es : List (Entry P Cell V)} {state : V}
        → Reaches context_at a b
        → SpawnedAll b code es state
        → SpawnedAll a code es state
    SpawnedAll-after r s = record {
      conts = s.conts;
      world = s.world;
      reaches = Reaches-trans context_at r s.reaches;
      ring = s.ring;
      state_eq = s.state_eq;
    }

    spawn_all-SpawnedAll :
        (bs : List (Birth P Cell V)) (es : List (Entry P Cell V))
        (conts : ℕ → Option (Arrival (World Cell (Fifo V)) (Payload P) → Program P Cell (Fifo V)))
        (w : World Cell (Fifo V)) (k : Unit {0} → Program P Cell (Fifo V))
        (h : Payload P → Program P Cell (Fifo V))
        → AreReady context_at main es bs
        → Ring rounds conts main es
        → SpawnedAll
            (running conts main (queued (tasks es) w) (spawn_all rounds bs k h))
            (k tt)
            (es ++ entries bs)
            w.user_state.rest
    unfolding AreReady run
    spawn_all-SpawnedAll [] es conts w k h a r =
        subst
          (λ (x : List (Entry P Cell V)).
            SpawnedAll (running conts main (queued (tasks es) w) (k tt)) (k tt) x w.user_state.rest)
          (sym (append-nil es))
          (record {
            conts = conts;
            world = w;
            reaches = record { rounds = 0; ends = refl };
            ring = r;
            state_eq = refl;
          })
    spawn_all-SpawnedAll (b ∷ bs) es conts w k h (f, c, n, d, a) r =
        SpawnedAll-after
          (spawn_one-Reaches rounds context_at main conts w b f c n (tasks es)
            (λ _. spawn_all rounds bs k h) h)
          (subst
            (λ (x : List (Entry P Cell V)).
              SpawnedAll
                (running
                  (made rounds context_at main conts w b f c n (λ _. spawn_all rounds bs k h)
                    h).conts
                  main (queued (tasks es ++ task_of (entry_of b) ∷ []) (made_world w b))
                  (spawn_all rounds bs k h))
                (k tt) x w.user_state.rest)
            (append_assoc es (entry_of b ∷ []) (entries bs))
            (subst
              (λ (q : List (Task (Unit {0}))).
                SpawnedAll
                  (running
                    (made rounds context_at main conts w b f c n (λ _. spawn_all rounds bs k h)
                      h).conts
                    main (queued q (made_world w b)) (spawn_all rounds bs k h))
                  (k tt) ((es ++ entry_of b ∷ []) ++ entries bs) w.user_state.rest)
              (tasks-append es (entry_of b ∷ []))
              (spawn_all-SpawnedAll bs (es ++ entry_of b ∷ [])
                (made rounds context_at main conts w b f c n (λ _. spawn_all rounds bs k h) h).conts
                (made_world w b) k h a
                (made-Ring rounds context_at main conts w b f c n es (λ _. spawn_all rounds bs k h)
                  h d r))))

    -- A main program that spawns tasks on stacks that hold their records and contexts, enqueues them, and
    -- yields, comes to an end after as many rounds as the longest job has turns and one more: on its own
    -- stack, with an empty queue, with the state that the jobs make of it in turn, and with the tasks' stack
    -- handles freed, unless freed memory was used.
    pub run_tasks-Played :
        (n : ℕ) (bs : List (Birth P Cell V))
        (conts : ℕ → Option (Arrival (World Cell (Fifo V)) (Payload P) → Program P Cell (Fifo V)))
        (w : World Cell (Fifo V)) (k : Unit {0} → Program P Cell (Fifo V))
        (h : Payload P → Program P Cell (Fifo V))
        → AreReady context_at main [] bs
        → most (jobs (entries bs)) ≤ n
        → Played rounds context_at main
            (running conts main (queued [] w) (run_tasks rounds (suc n) bs k h))
            (k tt)
            (play n (jobs (entries bs)) w.user_state.rest)
            (λ slot. Listed slot (entries bs))
    unfolding run_tasks
    run_tasks-Played n bs conts w k h a l =
        let s : SpawnedAll _ (yield_all (suc n) k h) (entries bs) w.user_state.rest =
          spawn_all-SpawnedAll bs [] conts w (λ _. yield_all (suc n) k h) h a
            (record { apart = tt; distinct = tt; parked = tt }) in
        Played-after rounds context_at main (λ slot. Listed slot (entries bs)) s.reaches
          (λ slot f. inl f)
          (subst
            (λ (v : V).
              Played rounds context_at main
                (running s.conts main (queued (tasks (entries bs)) s.world) (yield_all (suc n) k h))
                (k tt) (play n (jobs (entries bs)) v)
                (λ slot. Listed slot (entries bs) ⊎ IsFreed slot s.world))
            s.state_eq
            (yield_all-Played rounds context_at main n (entries bs) s.conts s.world k h s.ring l))
