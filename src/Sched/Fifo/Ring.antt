-- ===== src/Sched/Fifo/Ring.antt =====
-- The suspended tasks of a queue on the machine.
use unico.Common.{ℕ, ◌≡◌, ◌≢◌, ◌∙◌, refl, ap, sym, Option, none, some, List, [], ◌∷◌, ◌++◌}
use unico.Context.Machine.{null, transfer, update, Arrival, Code, stop, aborted}
use unico.Ful.Raw.{TaskLayouts}
use unico.Ful.Effect.{Co, Payload, World, Program, arrived}
use unico.Ful.Effect.Steps.{update_other}
use unico.Ful.Coroutine.{exit_map, from_inner}
use unico.Sched.{Task, leave}
use unico.Sched.Fifo.{Fifo, fifo, Job, run_job}

-- A task between two turns: its context, its coroutine's record, what its stack does when it unwinds,
-- and what is left of its job.
pub record Entry (P Cell V : Type 0) : Type 0 where
  pub cx : ℕ
  pub ls : TaskLayouts
  pub task : ℕ
  pub unwound : Payload P → Program P Cell (Fifo V)
  pub job : Job V

module _ {P Cell V : Type 0} where
  abbrev pub task_of : Entry P Cell V → Task (Unit {0})
  task_of e = record { co = from_inner e.cx; metadata = tt }

  abbrev pub tasks : List (Entry P Cell V) → List (Task (Unit {0}))
  tasks [] = []
  tasks (e ∷ es) = task_of e ∷ tasks es

  pub tasks-append : (xs ys : List (Entry P Cell V)) → tasks (xs ++ ys) ≡ tasks xs ++ tasks ys
  tasks-append [] ys = refl
  tasks-append (x ∷ xs) ys = ap (λ (q : List (Task (Unit {0}))). task_of x ∷ q) (tasks-append xs ys)

  -- The end of the entry function.
  abbrev pub exits : Entry P Cell V → Co → Program P Cell (Fifo V)
  exits e next =
      Code.resume_with next.cx e.task (exit_map e.ls)
        (arrived (λ _. stop aborted) (λ _. stop aborted))

  -- The rest of the task, when it is its turn.
  abbrev pub resumed : ℕ → Entry P Cell V → Program P Cell (Fifo V)
  resumed rounds e = run_job e.job (λ _. leave fifo rounds (exits e) e.unwound) e.unwound

  -- No entry has the context `c`.
  abbrev pub Apart : ℕ → List (Entry P Cell V) → Type 0
  Apart c [] = Unit {0}
  Apart c (e ∷ es) = (e.cx ≢ c) × Apart c es

  abbrev pub Distinct : List (Entry P Cell V) → Type 0
  Distinct [] = Unit {0}
  Distinct (e ∷ es) = Apart e.cx es × Distinct es

  -- Every entry is suspended, and goes on when it is resumed without a coroutine.
  abbrev pub Parked :
      ℕ
      → (ℕ → Option (Arrival (World Cell (Fifo V)) (Payload P) → Program P Cell (Fifo V)))
      → List (Entry P Cell V)
      → Type 0
  Parked rounds conts [] = Unit {0}
  Parked rounds conts (e ∷ es) =
      ((target : Arrival (World Cell (Fifo V)) (Payload P) → Program P Cell (Fifo V)) × (conts e.cx
          ≡ some target)
        × (target (transfer (record { context = none; data_ptr = null })) ≡ resumed rounds e))
      × Parked rounds conts es

  pub Apart-append :
      (c : ℕ) (xs ys : List (Entry P Cell V)) → Apart c xs → Apart c ys → Apart c (xs ++ ys)
  Apart-append c [] ys a b = b
  Apart-append c (x ∷ xs) ys a b = (a.0, Apart-append c xs ys a.1 b)

  -- The first entry goes to the end.
  pub Distinct-rotate :
      (xs : List (Entry P Cell V)) (e : Entry P Cell V)
      → Apart e.cx xs
      → Distinct xs
      → Distinct (xs ++ e ∷ [])
  Distinct-rotate [] e a d = (tt, tt)
  Distinct-rotate (x ∷ xs) e a d =
      (Apart-append x.cx xs (e ∷ []) d.0 (λ q. a.0 (sym q), tt), Distinct-rotate xs e a.1 d.1)

  module _ (rounds : ℕ) where
    pub Parked-append :
        (conts : ℕ → Option (Arrival (World Cell (Fifo V)) (Payload P) → Program P Cell (Fifo V)))
        (xs ys : List (Entry P Cell V))
        → Parked rounds conts xs
        → Parked rounds conts ys
        → Parked rounds conts (xs ++ ys)
    Parked-append conts [] ys a b = b
    Parked-append conts (x ∷ xs) ys a b = (a.0, Parked-append conts xs ys a.1 b)

    -- Changing the continuation of another context keeps the entries suspended.
    pub Parked-update :
        (conts : ℕ → Option (Arrival (World Cell (Fifo V)) (Payload P) → Program P Cell (Fifo V)))
        (c : ℕ) (v : Option (Arrival (World Cell (Fifo V)) (Payload P) → Program P Cell (Fifo V)))
        (es : List (Entry P Cell V))
        → Apart c es
        → Parked rounds conts es
        → Parked rounds (update conts c v) es
    Parked-update conts c v [] a q = tt
    Parked-update conts c v (e ∷ es) a ((target, f, g), q) = (
      (target, update_other conts c e.cx v (λ r. a.0 (sym r)) ∙ f, g),
      Parked-update conts c v es a.1 q,
    )

    -- So does what a creation changes: the continuations of the new context and of the creator.
    pub Parked-created :
        (conts : ℕ → Option (Arrival (World Cell (Fifo V)) (Payload P) → Program P Cell (Fifo V)))
        (c d : ℕ)
        (v₁ v₂ v₃ v₄ v₅ : Option
          (Arrival (World Cell (Fifo V)) (Payload P) → Program P Cell (Fifo V)))
        (es : List (Entry P Cell V))
        → Apart c es
        → Apart d es
        → Parked rounds conts es
        → Parked rounds
            (update (update (update (update (update conts c v₁) d v₂) c v₃) c v₄) d v₅)
            es
    Parked-created conts c d v₁ v₂ v₃ v₄ v₅ es a b p =
        Parked-update (update (update (update (update conts c v₁) d v₂) c v₃) c v₄) d v₅ es b (
          Parked-update (update (update (update conts c v₁) d v₂) c v₃) c v₄ es a (
            Parked-update (update (update conts c v₁) d v₂) c v₃ es a
              (Parked-update (update conts c v₁) d v₂ es b (Parked-update conts c v₁ es a p))))
