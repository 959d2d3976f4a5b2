-- ===== src/Sched/Fifo/Whole.antt =====
-- A main program that yields until the scheduler has no other task.
use unico.Common.{
  inr, inl, ◌⊎◌, ℕ, zero, suc, ◌≤◌, ◌≡◌, ◌∙◌, refl, sym, subst, Bool, true, false, Option, none,
  some, List, [], ◌∷◌, ◌++◌, arith,
}
use mathlib.Core.List.{append-nil}
use unico.Context.Machine.{
  null, transfer, update, Arrival, Machine, Reaches, Reaches-trans, stop, aborted, run, step_code,
}
use unico.Ful.Effect.{pure, M, Payload, World, Program}
use unico.Ful.Effect.Steps.{update_self, update_other}
use unico.Sched.{yield_now, try_schedule}
use unico.Sched.Yield.{yielder, yield_now-Reaches}
use unico.Sched.Fifo.{Fifo, fifo, Job, queued, yield_all}
use unico.Sched.Fifo.Ring.{Entry, task_of, tasks, resumed, Apart, Parked-update}
use unico.Sched.Fifo.Slice.{running}
use unico.Sched.Fifo.Pass.{main_task, pass, Ring}
use unico.Sched.Fifo.Turns.{Passed, Passed-after, pass-Passed}
use unico.Sched.Fifo.Freed.{IsFreed, Listed, pass-Kept}
use unico.Sched.Fifo.Plan.{count_pos, play_nil, jobs, play, most, pass-round, round-shorter}

module _ {P Cell V : Type 0} (rounds : ℕ) (context_at : ℕ → ℕ → Option ℕ) (main : ℕ) where
  switched_to :
      (conts : ℕ → Option (Arrival (World Cell (Fifo V)) (Payload P) → Program P Cell (Fifo V)))
      (e : Entry P Cell V) (es : List (Entry P Cell V)) (w : World Cell (Fifo V))
      (k : Bool → Program P Cell (Fifo V)) (h : Payload P → Program P Cell (Fifo V))
      (target : Arrival (World Cell (Fifo V)) (Payload P) → Program P Cell (Fifo V))
      → conts e.cx ≡ some target
      → target (transfer (record { context = none; data_ptr = null })) ≡ resumed (suc rounds) e
      → Reaches context_at (running conts main (queued (tasks (e ∷ es)) w) (yield_now fifo k h)) (
          running
            (update (update conts main (some (yielder k h))) e.cx none)
            e.cx
            (queued (tasks es ++ main_task main ∷ []) w)
            (resumed (suc rounds) e))
  switched_to conts e es w k h target f g =
      subst
        (λ (c : Program P Cell (Fifo V)).
          Reaches context_at (running conts main (queued (tasks (e ∷ es)) w) (yield_now fifo k h)) (
            running (update (update conts main (some (yielder k h))) e.cx none) e.cx
              (queued (tasks es ++ main_task main ∷ []) w) c))
        g
        (yield_now-Reaches fifo context_at (running conts main w (stop aborted))
          (queued (tasks (e ∷ es)) w) k h (task_of e)
          (record { queue = tasks es; rest = w.user_state.rest }) target refl f)

  -- The last turn, where no task is in the queue.
  yield_now-last :
      (conts : ℕ → Option (Arrival (World Cell (Fifo V)) (Payload P) → Program P Cell (Fifo V)))
      (w : World Cell (Fifo V)) (k : Bool → Program P Cell (Fifo V))
      (h : Payload P → Program P Cell (Fifo V))
      → Reaches context_at
          (running conts main (queued [] w) (yield_now fifo k h))
          (running conts main (queued [] w) (k false))
  unfolding yield_now try_schedule run step_code
  yield_now-last conts w k h = record { rounds = 2; ends = refl }

  -- A turn of the main program, where a task is in the queue.
  yield_now-Passed :
      (conts : ℕ → Option (Arrival (World Cell (Fifo V)) (Payload P) → Program P Cell (Fifo V)))
      (e : Entry P Cell V) (es : List (Entry P Cell V)) (w : World Cell (Fifo V))
      (k : Bool → Program P Cell (Fifo V)) (h : Payload P → Program P Cell (Fifo V))
      → Ring rounds conts main (e ∷ es)
      → Passed rounds context_at main
          (yielder k h)
          (running conts main (queued (tasks (e ∷ es)) w) (yield_now fifo k h))
          (pass (e ∷ es) [] w)
  yield_now-Passed conts e es w k h r =
      let (target, f, g) = r.parked.0 in
      Passed-after rounds context_at main (yielder k h) (switched_to conts e es w k h target f g) (
        pass-Passed rounds context_at main (yielder k h) es [] e
          (update (update conts main (some (yielder k h))) e.cx none) w
          (subst (Ring rounds (update (update conts main (some (yielder k h))) e.cx none) e.cx)
            (sym (append-nil es))
            (record {
              apart = r.distinct.0;
              distinct = r.distinct.1;
              parked =
                  Parked-update (suc rounds) (update conts main (some (yielder k h))) e.cx none es
                    r.distinct.0
                    (Parked-update (suc rounds) conts main (some (yielder k h)) es r.apart.1
                      r.parked.1);
            }))
          (r.apart.0, subst (Apart main) (sym (append-nil es)) r.apart.1)
          (update_other (update conts main (some (yielder k h))) e.cx main none r.apart.0
            ∙ update_self conts main (some (yielder k h))))

  -- The main program has gone on on its own stack with an empty queue and such a state, and these
  -- stacks are freed.
  pub record Played (before : Machine (World Cell (Fifo V)) (Payload P))
      (code : Program P Cell (Fifo V)) (state : V) (Ends : ℕ → Type 0) : Type 0 where
    pub machine : Machine (World Cell (Fifo V)) (Payload P)
    pub reaches : Reaches context_at before machine
    pub code_eq : machine.code ≡ code
    pub running_eq : machine.running ≡ main
    pub queue_eq : machine.world.user_state.queue ≡ []
    pub state_eq : machine.world.user_state.rest ≡ state
    pub freed : (slot : ℕ) → Ends slot → IsFreed slot machine.world

  pub Played-after :
      {a b : Machine (World Cell (Fifo V)) (Payload P)} {code : Program P Cell (Fifo V)} {state : V}
      {Ends : ℕ → Type 0} (Starts : ℕ → Type 0)
      → Reaches context_at a b
      → ((slot : ℕ) → Starts slot → Ends slot)
      → Played b code state Ends
      → Played a code state Starts
  Played-after Starts r f p = record {
    machine = p.machine;
    reaches = Reaches-trans context_at r p.reaches;
    code_eq = p.code_eq;
    running_eq = p.running_eq;
    queue_eq = p.queue_eq;
    state_eq = p.state_eq;
    freed = λ slot s. p.freed slot (f slot s);
  }

  -- What the loop does with the result of a `yield_now`.
  abbrev more_or_end : ℕ → Bool → M P Cell (Fifo V) (Unit {0})
  more_or_end n more = elim more [ true ↦ yield_all n | false ↦ pure tt ]

  pub yield_all-Played :
      (n : ℕ) (es : List (Entry P Cell V))
      (conts : ℕ → Option (Arrival (World Cell (Fifo V)) (Payload P) → Program P Cell (Fifo V)))
      (w : World Cell (Fifo V)) (k : Unit {0} → Program P Cell (Fifo V))
      (h : Payload P → Program P Cell (Fifo V))
      → Ring rounds conts main es
      → most (jobs es) ≤ n
      → Played
          (running conts main (queued (tasks es) w) (yield_all (suc n) k h))
          (k tt)
          (play n (jobs es) w.user_state.rest)
          (λ slot. Listed slot es ⊎ IsFreed slot w)
  unfolding yield_all play
  yield_all-Played n [] conts w k h r l = record {
    machine = running conts main (queued [] w) (k tt);
    reaches = yield_now-last conts w (λ more. more_or_end n more k h) h;
    code_eq = refl;
    running_eq = refl;
    queue_eq = refl;
    state_eq = sym (play_nil n w.user_state.rest);
    freed = λ slot s. elim s [ inl l ↦ elim l [ ] | inr f ↦ f ];
  }
  yield_all-Played zero (e ∷ es) conts w k h r l = absurd (omega (arith, l, count_pos e.job))
  yield_all-Played (suc n) (e ∷ es) conts w k h r l =
      let p : Passed rounds context_at main (yielder (λ more. more_or_end (suc n) more k h) h) _
          (pass (e ∷ es) [] w) =
        yield_now-Passed conts e es w (λ more. more_or_end (suc n) more k h) h r in
      Played-after (λ slot. Listed slot (e ∷ es) ⊎ IsFreed slot w) p.reaches
        (λ slot s. pass-Kept slot (e ∷ es) [] w (elim s [ inl l ↦ inl l | inr f ↦ inr (inr f) ]))
        (subst
          (λ (x : List (Job V) × V).
            Played
              (running p.conts main (queued (tasks (pass (e ∷ es) [] w).0) (pass (e ∷ es) [] w).1)
                (yield_all (suc n) k h))
              (k tt) (play n x.0 x.1)
              (λ slot. Listed slot (pass (e ∷ es) [] w).0 ⊎ IsFreed slot (pass (e ∷ es) [] w).1))
          (pass-round (e ∷ es) [] w)
          (yield_all-Played n (pass (e ∷ es) [] w).0 p.conts (pass (e ∷ es) [] w).1 k h p.ring (
            subst (λ (x : List (Job V) × V). most x.0 ≤ n) (sym (pass-round (e ∷ es) [] w))
              (round-shorter (jobs (e ∷ es)) n w.user_state.rest l))))
