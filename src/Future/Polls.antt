-- ===== src/Future/Polls.antt =====
-- A stackful future that waits on a future polls like it.
pub mod Once
use unico.Common.{
  false, inl, inr, ℕ, zero, suc, ◌≤◌, ◌≡◌, ◌≢◌, refl, ap, subst, ◌∙◌, Option, some, none, List, [],
  ◌∷◌, length, map, arith,
}
use unico.Context.Machine.{Machine, Reaches}
use unico.Stack.{Stack}
use unico.Ful.Raw.{TaskLayouts, place, placed}
use unico.Ful.Effect.{Co, Payload, message, M, pure, ◌>>=◌}
use unico.Ful.Effect.Steps.{at}
use unico.Ful.Coroutine.{built, failed}
use unico.Ful.Asym.{Cell, yielded, complete, yield_, build_unchecked}
use unico.Ful.Asym.Spec.{
  Body, finishes, yields, panics, Reply, state, panic, suspended, over, drive_spec, run_body,
  resume_spec, answer,
}
use unico.Ful.Asym.Cycle.{GWorld, GProgram}
use unico.Ful.Asym.Drive.{drive}
use unico.Ful.Asym.Create.{main, generate_refines}
use unico.Future.{wait_loop, Poll-cases, Poll, pending, ready, build, wait_with}

-- A poll of a future whose polls only change the future itself.
abbrev pub pure_polls :
    {P W T Cell F U : Type 0} → (W → F → Poll T × F) → W → F → M P Cell U (Poll T × F)
pure_polls poll_future waker future = pure (poll_future waker future)

module _ {P W T F : Type 0} (poll_future : W → F → Poll T × F) (exhausted : P) where
  -- The future's own polls, with one waker after another; a poll after it is ready panics.
  pub polls : List W → F → List (Reply P (Unit {0}) T)
  polls [] f = []
  polls (r ∷ rs) f =
      let rest = polls rs (poll_future r f).1 in
      elim (poll_future r f).0 [
        | pending ↦ state (yielded tt) ∷ rest
        | ready output ↦ state (complete output) ∷ map (λ _. panic message) rs
      ]

  -- The body of a generator that waits on the future.
  abbrev pub after_poll : Poll T → (W → Body P (Unit {0}) W T) → Body P (Unit {0}) W T
  after_poll pending g = yields tt g
  after_poll (ready output) g = finishes output

  pub awaits : ℕ → F → W → Body P (Unit {0}) W T
  awaits zero f r = panics exhausted
  awaits (suc n) f r = after_poll (poll_future r f).0 (awaits n (poll_future r f).1)

  over-panics :
      (rs : List W)
      → drive_spec {P = P} {Y = Unit {0}} {C = T} rs over ≡ map (λ _. panic message) rs
  unfolding resume_spec
  over-panics [] = refl
  over-panics (r ∷ rs) =
      ap (λ (xs : List (Reply P (Unit {0}) T)). panic message ∷ xs) (over-panics rs)

  pub awaits-polls :
      (n : ℕ) (rs : List W) (f : F)
      → length rs ≤ n
      → drive_spec rs (suspended (awaits n f)) ≡ polls rs f
  unfolding awaits polls resume_spec answer
  awaits-polls n [] f l = refl
  awaits-polls zero (r ∷ rs) f l = absurd (omega (arith, l))
  awaits-polls (suc n) (r ∷ rs) f l = elim (Poll-cases (poll_future r f).0) [
    | inl e ↦
        rw (e, polls)
          (ap (λ (xs : List (Reply P (Unit {0}) T)). state (yielded tt) ∷ xs)
            (awaits-polls n rs (poll_future r f).1 (omega (arith, l))))
    | inr (t, e) ↦
        rw (e, polls)
          (ap (λ (xs : List (Reply P (Unit {0}) T)). state (complete t) ∷ xs) (over-panics rs))
  ]

  module _ {U : Type 0} where
    awaits-wait_with :
        (n : ℕ) (f : F) (self : ℕ) (r : W)
        → run_body {U = U} (awaits n f r) self
          ≡ wait_with (pure_polls poll_future) exhausted n f (record { y = self; waker = r })
    unfolding awaits wait_with wait_loop run_body
    awaits-wait_with zero f self r = refl
    awaits-wait_with (suc n) f self r = elim (Poll-cases (poll_future r f).0) [
      | inl e ↦
          rw (wait_with, wait_loop, e)
            (ap (λ (g : W → M P (Cell P (Unit {0}) W T) U T). (do waker ← yield_ self tt; g waker))
              (λ i r'. awaits-wait_with n (poll_future r f).1 self r' i))
      | inr (t, e) ↦ rw (wait_with, wait_loop, e) refl
    ]

    -- A caller that builds a generator with a main function and drives it.
    abbrev driven :
        TaskLayouts
        → Stack
        → (Payload P → M P (Cell P (Unit {0}) W T) U Co)
        → List W
        → (ℕ → W → M P (Cell P (Unit {0}) W T) U T)
        → M P (Cell P (Unit {0}) W T) U (Option (List (Reply P (Unit {0}) T)))
    driven ls stack hook rs g = do
      b ← build_unchecked false ls stack hook g
      elim b [ built gn ↦ do replies ← drive rs gn; pure (some replies) | failed e ↦ pure none ]

    -- A caller that builds a stackful future whose main function waits on `f`, and then resumes its
    -- generator with one waker after another, as `poll` does; `none` when the creation fails.
    abbrev pub poll_all :
        ℕ
        → F
        → TaskLayouts
        → Stack
        → (Payload P → M P (Cell P (Unit {0}) W T) U Co)
        → List W
        → M P (Cell P (Unit {0}) W T) U (Option (List (Reply P (Unit {0}) T)))
    poll_all n f ls stack hook rs = do
      b ← build false ls stack hook (wait_with (pure_polls poll_future) exhausted n f)
      elim b [ built gn ↦ do replies ← drive rs gn; pure (some replies) | failed e ↦ pure none ]

    pub same_main :
        (n : ℕ) (f : F)
        → main {U = U} (awaits n f) ≡ (λ self r.
          wait_with (pure_polls poll_future) exhausted n f (record { y = self; waker = r }))
    same_main n f = λ i self r. awaits-wait_with n f self r i

    module _ (context_at : ℕ → ℕ → Option ℕ) (m : Machine (GWorld P (Unit {0}) W T U) (Payload P))
        (w : GWorld P (Unit {0}) W T U) (ls : TaskLayouts) (stack : Stack)
        (hook : Payload P → M P (Cell P (Unit {0}) W T) U Co) (p rest cx : ℕ)
        (fits : place ls stack.pointer stack.layout ≡ placed p rest)
        (accepted : context_at stack.pointer rest ≡ some cx) (new : cx ≢ m.running) where
      -- Where the stack holds the coroutine's record and the context, and with as many
      -- rounds of the wait as polls, a stackful future, with an output without a destructor, that waits on `f`,
      -- whose polls change it alone, gives its resumer, on the
      -- resumer's own stack, what the polls of `f` with the same wakers give: it yields while `f` is
      -- pending, completes with the output of `f`, and panics afterwards.
      pub poll_all_refines :
          (n : ℕ) (f : F) (rs : List W)
          (k : Option (List (Reply P (Unit {0}) T)) → GProgram P (Unit {0}) W T U)
          (h : Payload P → GProgram P (Unit {0}) W T U)
          → length rs ≤ n
          → (m' : Machine (GWorld P (Unit {0}) W T U) (Payload P)) × Reaches context_at
              (at m w (poll_all n f ls stack hook rs k h))
              m'
            × (m'.code ≡ k (some (polls rs f)))
            × (m'.running ≡ m.running)
      unfolding build
      poll_all_refines n f rs k h l =
          let (m', q, e, r, mem) =
            generate_refines context_at m w ls stack hook (awaits n f) p rest cx fits accepted new
              rs k h in
          (
            m',
            subst
                (λ (g : ℕ → W → M P (Cell P (Unit {0}) W T) U T).
                  Reaches context_at (at m w (driven ls stack hook rs g k h)) m')
                (same_main n f) q,
            e ∙ ap (λ (xs : List (Reply P (Unit {0}) T)). k (some xs)) (awaits-polls n rs f l),
            r,
          )
