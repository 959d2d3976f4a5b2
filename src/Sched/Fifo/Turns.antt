-- ===== src/Sched/Fifo/Turns.antt =====
-- From one turn of the main program to its next, and a main program that yields until no task is left.
use unico.Common.{ℕ, suc, ◌≡◌, ◌∙◌, sym, ap, subst, Option, none, some, List, [], ◌∷◌, ◌++◌}
use unico.Context.Machine.{null, transfer, update, Arrival, Machine, Reaches, Reaches-trans}
use unico.Ful.Effect.{Payload, World, Program}
use unico.Ful.Effect.Steps.{update_other}
use unico.Sched.{Task}
use unico.Sched.Fifo.{Fifo, queued, Job}
use unico.Sched.Fifo.Ring.{Entry, task_of, tasks, resumed, Apart}
use unico.Sched.Fifo.Slice.{GoesOn, put_back, back_in, world_after, running, Sliced, slice}
use unico.Sched.Fifo.Pass.{
  main_task, pass, put_back-append, back_in-tasks, back_in-append, Apart-put_back,
  Distinct-put_back, Parked-put_back, Ring,
}

queue_after :
    {P Cell V : Type 0} (todo done : List (Entry P Cell V)) (main : ℕ) (e : Entry P Cell V)
    (j : Job V)
    → back_in (tasks todo ++ main_task main ∷ tasks done) e j
      ≡ tasks todo ++ main_task main ∷ tasks (put_back done e j)
queue_after todo done main e j =
    back_in-append (tasks todo) (tasks done) (main_task main) e j
    ∙ ap (λ (q : List (Task (Unit {0}))). tasks todo ++ main_task main ∷ q) (back_in-tasks done e j)

module _ {P Cell V : Type 0} (rounds : ℕ) (context_at : ℕ → ℕ → Option ℕ) (main : ℕ)
    (target : Arrival (World Cell (Fifo V)) (Payload P) → Program P Cell (Fifo V)) where
  -- The main program goes on, with what is left of the tasks in the queue.
  pub record Passed (before : Machine (World Cell (Fifo V)) (Payload P))
      (result : List (Entry P Cell V) × World Cell (Fifo V)) : Type 0 where
    pub conts : ℕ → Option (Arrival (World Cell (Fifo V)) (Payload P) → Program P Cell (Fifo V))
    pub reaches : Reaches context_at before (
        running conts main
          (queued (tasks result.0) result.1)
          (target (transfer (record { context = none; data_ptr = null }))))
    pub ring : Ring rounds conts main result.0

  module _
      (conts : ℕ → Option (Arrival (World Cell (Fifo V)) (Payload P) → Program P Cell (Fifo V)))
      (e : Entry P Cell V) (v : Arrival (World Cell (Fifo V)) (Payload P) → Program P Cell (Fifo V))
      (others : List (Entry P Cell V)) where
    -- The next task goes on.
    next-Ring :
        (next : Entry P Cell V)
        → GoesOn (suc rounds) e e.job v
        → Ring rounds conts e.cx (next ∷ others)
        → Ring rounds
            (update (update conts e.cx (some v)) next.cx none)
            next.cx
            (put_back others e e.job)
    next-Ring next g r = record {
      apart = Apart-put_back next.cx others e e.job r.distinct.0 (λ q. r.apart.0 (sym q));
      distinct = Distinct-put_back others e e.job r.apart.1 r.distinct.1;
      parked =
          Parked-put_back rounds conts v next.cx others e e.job (λ q. r.apart.0 (sym q)) r.apart.1
            r.distinct.0 g r.parked.1;
    }

    main-Ring :
        GoesOn (suc rounds) e e.job v
        → Ring rounds conts e.cx others
        → Apart main (e ∷ others)
        → Ring rounds (update (update conts e.cx (some v)) main none) main (put_back others e e.job)
    main-Ring g r a = record {
      apart = Apart-put_back main others e e.job a.1 a.0;
      distinct = Distinct-put_back others e e.job r.apart r.distinct;
      parked = Parked-put_back rounds conts v main others e e.job a.0 r.apart a.1 g r.parked;
    }

  -- The same machine, with a queue and code that are equal.
  moved :
      (before : Machine (World Cell (Fifo V)) (Payload P))
      (conts : ℕ → Option (Arrival (World Cell (Fifo V)) (Payload P) → Program P Cell (Fifo V)))
      (c : ℕ) (w : World Cell (Fifo V)) {q q' : List (Task (Unit {0}))}
      {code code' : Program P Cell (Fifo V)}
      → q ≡ q'
      → code ≡ code'
      → Reaches context_at before (running conts c (queued q w) code)
      → Reaches context_at before (running conts c (queued q' w) code')
  moved before conts c w {q} {q'} {code} {code'} a b r =
      subst
        (λ (x : Program P Cell (Fifo V)).
          Reaches context_at before (running conts c (queued q' w) x))
        b
        (subst
          (λ (x : List (Task (Unit {0}))).
            Reaches context_at before (running conts c (queued x w) code))
          a r)

  pub Passed-after :
      {a b : Machine (World Cell (Fifo V)) (Payload P)}
      {result : List (Entry P Cell V) × World Cell (Fifo V)}
      → Reaches context_at a b
      → Passed b result
      → Passed a result
  Passed-after r p = record {
    conts = p.conts;
    reaches = Reaches-trans context_at r p.reaches;
    ring = p.ring;
  }

  next_Reaches :
      (todo done : List (Entry P Cell V)) (e next : Entry P Cell V)
      (conts : ℕ → Option (Arrival (World Cell (Fifo V)) (Payload P) → Program P Cell (Fifo V)))
      (w : World Cell (Fifo V))
      (target' : Arrival (World Cell (Fifo V)) (Payload P) → Program P Cell (Fifo V))
      (f : conts next.cx ≡ some target')
      → target' (transfer (record { context = none; data_ptr = null })) ≡ resumed (suc rounds) next
      → (s : Sliced rounds context_at conts
          (task_of next)
          (tasks todo ++ main_task main ∷ tasks done)
          w
          target'
          f
          e
          e.job)
      → Reaches context_at
          (running conts e.cx
            (queued (task_of next ∷ (tasks todo ++ main_task main ∷ tasks done)) w)
            (resumed (suc rounds) e))
          (running
            (update (update conts e.cx (some s.left)) next.cx none)
            next.cx
            (queued
              (tasks todo ++ main_task main ∷ tasks (put_back done e e.job))
              (world_after e e.job w))
            (resumed (suc rounds) next))
  next_Reaches todo done e next conts w target' f g s =
      moved
        (running conts e.cx (queued (task_of next ∷ (tasks todo ++ main_task main ∷ tasks done)) w)
          (resumed (suc rounds) e))
        (update (update conts e.cx (some s.left)) next.cx none) next.cx (world_after e e.job w)
        (queue_after todo done main e e.job) g s.reaches

  pub pass-Passed :
      (todo done : List (Entry P Cell V)) (e : Entry P Cell V)
      (conts : ℕ → Option (Arrival (World Cell (Fifo V)) (Payload P) → Program P Cell (Fifo V)))
      (w : World Cell (Fifo V))
      → Ring rounds conts e.cx (todo ++ done)
      → Apart main (e ∷ (todo ++ done))
      → conts main ≡ some target
      → Passed
          (running conts e.cx
            (queued (tasks todo ++ main_task main ∷ tasks done) w)
            (resumed (suc rounds) e))
          (pass (e ∷ todo) done w)
  unfolding pass
  pass-Passed [] done e conts w r a c =
      let s : Sliced rounds context_at conts (main_task main) (tasks done) w target c e e.job =
        slice rounds context_at conts (main_task main) (tasks done) w target c e e.job in
      record {
        conts = update (update conts e.cx (some s.left)) main none;
        reaches =
            moved
              (running conts e.cx (queued (main_task main ∷ tasks done) w) (resumed (suc rounds) e))
              (update (update conts e.cx (some s.left)) main none) main (world_after e e.job w)
              (back_in-tasks done e e.job)
              (λ i. target (transfer (record { context = none; data_ptr = null }))) s.reaches;
        ring = main-Ring conts e s.left done s.goes_on r a;
      }
  pass-Passed (next ∷ todo) done e conts w r a c =
      let (target', f, g) = r.parked.0 in
      let s : Sliced rounds context_at conts (task_of next)
          (tasks todo ++ main_task main ∷ tasks done) w target' f e e.job =
        slice rounds context_at conts (task_of next) (tasks todo ++ main_task main ∷ tasks done) w
          target' f e e.job in
      Passed-after (next_Reaches todo done e next conts w target' f g s) (
        pass-Passed todo (put_back done e e.job) next
          (update (update conts e.cx (some s.left)) next.cx none) (world_after e e.job w)
          (subst (Ring rounds (update (update conts e.cx (some s.left)) next.cx none) next.cx)
            (put_back-append todo done e e.job)
            (next-Ring conts e s.left (todo ++ done) next s.goes_on r))
          (
            a.1.0,
            subst (Apart main) (put_back-append todo done e e.job)
                (Apart-put_back main (todo ++ done) e e.job a.1.1 a.0),
          )
          (update_other (update conts e.cx (some s.left)) next.cx main none a.1.0
            ∙ update_other conts e.cx main (some s.left) a.0
            ∙ c))
