-- ===== src/Sched/Fifo/Pass.antt =====
-- A turn of every task in the queue, between two turns of the main program.
use unico.Common.{ℕ, suc, ◌≡◌, ◌≢◌, ◌∙◌, refl, sym, Option, none, some, List, [], ◌∷◌, ◌++◌}
use mathlib.Core.List.{append_assoc}
use unico.Context.Machine.{update, Arrival}
use unico.Ful.Effect.{Payload, World, Program}
use unico.Ful.Effect.Steps.{update_self, update_other}
use unico.Ful.Coroutine.{from_inner}
use unico.Sched.{Task}
use unico.Sched.Fifo.{Fifo, Job, ends, steps}
use unico.Sched.Fifo.Ring.{
  Entry, task_of, tasks, tasks-append, Apart, Distinct, Parked, Apart-append, Distinct-rotate,
  Parked-append, Parked-update,
}
use unico.Sched.Fifo.Slice.{with_job, put_back, back_in, world_after, GoesOn}

-- The main program in the queue.
abbrev pub main_task : ℕ → Task (Unit {0})
main_task main = record { co = from_inner main; metadata = tt }

module _ {P Cell V : Type 0} where
  -- A turn of each entry in the order of the queue; the second list has those that had theirs.
  unfoldable pub pass :
      List (Entry P Cell V)
      → List (Entry P Cell V)
      → World Cell (Fifo V)
      → List (Entry P Cell V) × World Cell (Fifo V)
  pass [] done w = (done, w)
  pass (e ∷ es) done w = pass es (put_back done e e.job) (world_after e e.job w)

  pub put_back-append :
      (xs ys : List (Entry P Cell V)) (e : Entry P Cell V) (j : Job V)
      → put_back (xs ++ ys) e j ≡ xs ++ put_back ys e j
  put_back-append xs ys e ends = refl
  put_back-append xs ys e (steps f j) = append_assoc xs ys (with_job e j ∷ [])

  pub back_in-tasks :
      (es : List (Entry P Cell V)) (e : Entry P Cell V) (j : Job V)
      → back_in (tasks es) e j ≡ tasks (put_back es e j)
  back_in-tasks es e ends = refl
  back_in-tasks es e (steps f j) = sym (tasks-append es (with_job e j ∷ []))

  pub back_in-append :
      (q q' : List (Task (Unit {0}))) (t : Task (Unit {0})) (e : Entry P Cell V) (j : Job V)
      → back_in (q ++ t ∷ q') e j ≡ q ++ t ∷ back_in q' e j
  back_in-append q q' t e ends = refl
  back_in-append q q' t e (steps f j) = append_assoc q (t ∷ q') (task_of e ∷ [])

  pub Apart-put_back :
      (c : ℕ) (es : List (Entry P Cell V)) (e : Entry P Cell V) (j : Job V)
      → Apart c es
      → e.cx ≢ c
      → Apart c (put_back es e j)
  Apart-put_back c es e ends a n = a
  Apart-put_back c es e (steps f j) a n = Apart-append c es (with_job e j ∷ []) a (n, tt)

  pub Distinct-put_back :
      (es : List (Entry P Cell V)) (e : Entry P Cell V) (j : Job V)
      → Apart e.cx es
      → Distinct es
      → Distinct (put_back es e j)
  Distinct-put_back es e ends a d = d
  Distinct-put_back es e (steps f j) a d = Distinct-rotate es (with_job e j) a d

  module _ (rounds : ℕ) where
    -- The entries are suspended and apart from each other and from the context that runs.
    pub record Ring
        (conts : ℕ → Option (Arrival (World Cell (Fifo V)) (Payload P) → Program P Cell (Fifo V)))
        (current : ℕ) (others : List (Entry P Cell V)) : Type 0 where
      pub apart : Apart current others
      pub distinct : Distinct others
      pub parked : Parked (suc rounds) conts others

    -- The turn of `e` ends, and the context `c` goes on.
    pub Parked-put_back :
        (conts : ℕ → Option (Arrival (World Cell (Fifo V)) (Payload P) → Program P Cell (Fifo V)))
        (v : Arrival (World Cell (Fifo V)) (Payload P) → Program P Cell (Fifo V)) (c : ℕ)
        (es : List (Entry P Cell V)) (e : Entry P Cell V) (j : Job V)
        → e.cx ≢ c
        → Apart e.cx es
        → Apart c es
        → GoesOn (suc rounds) e j v
        → Parked (suc rounds) conts es
        → Parked (suc rounds) (update (update conts e.cx (some v)) c none) (put_back es e j)
    Parked-put_back conts v c es e ends n a b g p =
        Parked-update (suc rounds) (update conts e.cx (some v)) c none es b
          (Parked-update (suc rounds) conts e.cx (some v) es a p)
    Parked-put_back conts v c es e (steps f j) n a b g p =
        Parked-append (suc rounds) (update (update conts e.cx (some v)) c none) es
          (with_job e j ∷ [])
          (Parked-update (suc rounds) (update conts e.cx (some v)) c none es b
            (Parked-update (suc rounds) conts e.cx (some v) es a p))
          (
            (
              v,
              update_other (update conts e.cx (some v)) c e.cx none (λ r. n (sym r))
                  ∙ update_self conts e.cx (some v),
              g,
            ),
            tt,
          )
