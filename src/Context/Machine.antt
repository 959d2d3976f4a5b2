-- ===== src/Context/Machine.antt =====
-- context/src/lib.rs, the `Resume` trait: a machine that switches between suspended contexts. The
-- code of one stack is a tree of its calls into the trait; a context is named by its address. `W` is
-- the memory that all stacks share, and `E` the payload of a panic.
use unico.Common.{
  ap, ℕ, zero, suc, ◌≡◌, refl, Option, none, some, ◌==◌, if◌then◌else◌, ◌∙◌, ◌+◌, arith,
}

-- `Transfer`: the source's context, and a data pointer (zero is null).
pub record Transfer : Type 0 where
  pub context : Option ℕ
  pub data_ptr : ℕ

abbrev pub null : ℕ
null = 0

abbrev pub update {ℓ} : {A : Type ℓ} → (ℕ → Option A) → ℕ → Option A → ℕ → Option A
update f p v q = if p == q then v else f q

module _ (W E : Type 0) where
  -- What a suspended context finds when it runs again: a transfer, or a panic that a function
  -- executed on top of its stack raised.
  pub data Arrival : Type 0 where
    transfer : Transfer → Arrival
    unwinding : E → Arrival

  -- How the whole process stops.
  pub data Stop : Type 0 where
    finished : Stop
    aborted : Stop
    uncaught : E → Stop
    undefined : Stop

  -- `Map<C>`: run on the target's stack with the source's context and the data.
  abbrev pub MapFn : Type 0
  MapFn = ℕ → ℕ → W → Arrival × W

  pub data Code : Type 0 where
    stop : Stop → Code
    resume : ℕ → ℕ → (Arrival → Code) → Code
    resume_with : ℕ → ℕ → MapFn → (Arrival → Code) → Code
    new_on : ℕ → ℕ → (ℕ → ℕ → Code) → (Option ℕ → Code) → Code
    get : (W → Code) → Code
    put : W → Code → Code

pub record Machine (W E : Type 0) : Type 0 where
  pub conts : ℕ → Option (Arrival W E → Code W E)
  pub running : ℕ
  pub world : W
  pub code : Code W E

module _ {W E : Type 0} where
  -- The first arrival at a new context calls its entry function.
  abbrev pub enter : (ℕ → ℕ → Code W E) → Arrival W E → Code W E
  enter entry (transfer t) = elim t.context [ none ↦ stop undefined | some c ↦ entry c t.data_ptr ]
  enter entry (unwinding e) = stop (uncaught e)

  -- Suspends the running stack and continues the target `c`.
  abbrev pub switch : Machine W E → ℕ → (Arrival W E → Code W E) → W → Code W E → Machine W E
  switch m c k w code = record {
    conts = update (update m.conts m.running (some k)) c none;
    running = c;
    world = w;
    code = code;
  }

  -- The parameter says on which stacks, from a base and of a size, `new_on` succeeds, and where it
  -- puts the context.
  module _ (context_at : ℕ → ℕ → Option ℕ) where
    -- Resuming a context that is not suspended is undefined.
    unfoldable pub step_code : Machine W E → Code W E → Machine W E
    step_code m (stop s) = m
    step_code m (resume c d k) = elim (m.conts c) [
      | none ↦ record m { code = stop undefined }
      | some target ↦
          switch m c k m.world
            (target (transfer (record { context = some m.running; data_ptr = d })))
    ]
    step_code m (resume_with c d f k) = elim (m.conts c) [
      | none ↦ record m { code = stop undefined }
      | some target ↦ let (a, w) = f m.running d m.world in switch m c k w (target a)
    ]
    step_code m (new_on base len entry k) = elim (context_at base len) [
      | none ↦ record m { code = k none }
      | some c ↦ record m { conts = update m.conts c (some (enter entry)); code = k (some c) }
    ]
    step_code m (get k) = record m { code = k m.world }
    step_code m (put w k) = record m { world = w; code = k }

    unfoldable pub run : ℕ → Machine W E → Machine W E
    run zero m = m
    run (suc n) m = run n (step_code m m.code)

    -- The machine gets from one state to another.
    pub record Reaches (m m' : Machine W E) : Type 0 where
      pub rounds : ℕ
      pub ends : run rounds m ≡ m'

    run-add : (a b : ℕ) (m : Machine W E) → run (a + b) m ≡ run b (run a m)
    unfolding run
    run-add zero b m = let e : 0 + b ≡ b = omega arith in rw e refl
    run-add (suc a) b m =
        let e : suc a + b ≡ suc (a + b) = omega arith in rw e (run-add a b (step_code m m.code))

    pub Reaches-trans : {m₁ m₂ m₃ : Machine W E} → Reaches m₁ m₂ → Reaches m₂ m₃ → Reaches m₁ m₃
    Reaches-trans {m₁} p q = record {
      rounds = p.rounds + q.rounds;
      ends = run-add p.rounds q.rounds m₁ ∙ ap (run q.rounds) p.ends ∙ q.ends;
    }
