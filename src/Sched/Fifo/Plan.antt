-- ===== src/Sched/Fifo/Plan.antt =====
-- What a queue of jobs comes to without contexts: each has a turn in each round, until it ends.
use unico.Common.{
  ℕ, zero, suc, max, ◌-◌, ◌≤◌, ◌≡◌, ◌∙◌, refl, ap, Option-cases, inl, inr, List, [], ◌∷◌, ◌++◌,
  arith,
}
use unico.Stack
use unico.Ful.Raw.{from_ptr}
use unico.Ful.Effect.{World}
use unico.Ful.Coroutine.{release}
use unico.Sched.Fifo.{Fifo, Job, ends, steps}
use unico.Sched.Fifo.Ring.{Entry}
use unico.Sched.Fifo.Slice.{put_back, world_after, with_job}
use unico.Sched.Fifo.Pass.{pass}

module _ {V : Type 0} where
  -- The jobs after a turn of one of them, and the state.
  abbrev pub back_job : List (Job V) → Job V → List (Job V)
  back_job js ends = js
  back_job js (steps f j) = js ++ j ∷ []

  abbrev pub state_after : Job V → V → V
  state_after ends v = v
  state_after (steps f j) v = f v

  abbrev pub round : List (Job V) → List (Job V) → V → List (Job V) × V
  round [] done v = (done, v)
  round (j ∷ js) done v = round js (back_job done j) (state_after j v)

  -- At most so many rounds.
  unfoldable pub play : ℕ → List (Job V) → V → V
  play zero js v = v
  play (suc n) js v = play n (round js [] v).0 (round js [] v).1

  -- How many turns a job takes.
  abbrev pub count : Job V → ℕ
  count ends = 1
  count (steps f j) = suc (count j)

  abbrev pub most : List (Job V) → ℕ
  most [] = 0
  most (j ∷ js) = max (count j) (most js)

  pub play_nil : (n : ℕ) (v : V) → play n [] v ≡ v
  unfolding play
  play_nil zero v = refl
  play_nil (suc n) v = play_nil n v

  pub count_pos : (j : Job V) → 1 ≤ count j
  count_pos ends = omega arith
  count_pos (steps f j) = omega arith

  most-append : (js : List (Job V)) (j : Job V) → most (js ++ j ∷ []) ≤ max (most js) (count j)
  most-append [] j = omega arith
  most-append (x ∷ xs) j = ground (arith, most-append xs j)

  most-back_job :
      (js : List (Job V)) (j : Job V) → most (back_job js j) ≤ max (most js) (count j - 1)
  most-back_job js ends = omega arith
  most-back_job js (steps f j) = let e = most-append js j in ground arith

  most-round :
      (js done : List (Job V)) (v : V) → most (round js done v).0 ≤ max (most js - 1) (most done)
  most-round [] done v = omega arith
  most-round (j ∷ js) done v =
      ground (arith, most-round js (back_job done j) (state_after j v), most-back_job done j)

  -- A round shortens every job.
  pub round-shorter :
      (js : List (Job V)) (n : ℕ) (v : V) → most js ≤ suc n → most (round js [] v).0 ≤ n
  round-shorter js n v l = let e = most-round js [] v in ground arith

module _ {P Cell V : Type 0} where
  abbrev pub jobs : List (Entry P Cell V) → List (Job V)
  jobs [] = []
  jobs (e ∷ es) = e.job ∷ jobs es

  jobs-append :
      (es : List (Entry P Cell V)) (e : Entry P Cell V)
      → jobs (es ++ e ∷ []) ≡ jobs es ++ e.job ∷ []
  jobs-append [] e = refl
  jobs-append (x ∷ xs) e = ap (λ (js : List (Job V)). x.job ∷ js) (jobs-append xs e)

  jobs-put_back :
      (es : List (Entry P Cell V)) (e : Entry P Cell V) (j : Job V)
      → jobs (put_back es e j) ≡ back_job (jobs es) j
  jobs-put_back es e ends = refl
  jobs-put_back es e (steps f j) = jobs-append es (with_job e j)

  rest_after :
      (e : Entry P Cell V) (j : Job V) (w : World Cell (Fifo V))
      → (world_after e j w).user_state.rest ≡ state_after j w.user_state.rest
  rest_after e ends w = elim (Option-cases (w.tasks (from_ptr e.ls e.task).stack)) [
    | inl q ↦ rw (release, q) refl
    | inr (s, q) ↦ elim (Option-cases (Stack.drop s w.heap)) [
      | inl d ↦ rw (release, q, d) refl
      | inr (h, d) ↦ rw (release, q, d) refl
    ]
  ]
  rest_after e (steps f j) w = refl

  -- A turn of every task in the queue is a round of their jobs.
  pub pass-round :
      (es done : List (Entry P Cell V)) (w : World Cell (Fifo V))
      → (jobs (pass es done w).0, (pass es done w).1.user_state.rest)
        ≡ round (jobs es) (jobs done) w.user_state.rest
  unfolding pass
  pass-round [] done w = refl
  pass-round (e ∷ es) done w =
      pass-round es (put_back done e e.job) (world_after e e.job w)
      ∙ (λ i. round (jobs es) (jobs-put_back done e e.job i) (rest_after e e.job w i))
