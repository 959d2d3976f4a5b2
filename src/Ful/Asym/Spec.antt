-- ===== src/Ful/Asym/Spec.antt =====
-- What a generator is without stacks: a body that completes, panics or yields and waits.
use mathlib.Core.List.{[]}
use unico.Common.{refl, ◌∷◌, List, ◌≡◌, ℕ}
use unico.Ful.Effect.{Payload, user, message, M, pure, ◌>>=◌, throw}
use unico.Ful.Asym.{Cell, CoroutineState, yielded, complete, yield_}

pub data Body (P Y R C : Type 0) : Type 0 where
  finishes : C → Body P Y R C
  yields : Y → (R → Body P Y R C) → Body P Y R C
  panics : P → Body P Y R C

-- A generator between two calls.
pub data Generator (P Y R C : Type 0) : Type 0 where
  suspended : (R → Body P Y R C) → Generator P Y R C
  over : Generator P Y R C

-- What a call comes to: a state of the coroutine, or a panic.
pub data Reply (P Y C : Type 0) : Type 0 where
  state : CoroutineState Y C → Reply P Y C
  panic : Payload P → Reply P Y C

module _ {P Y R C : Type 0} where
  unfoldable pub answer : Body P Y R C → Reply P Y C × Generator P Y R C
  answer (finishes c) = (state (complete c), over)
  answer (yields y g) = (state (yielded y), suspended g)
  answer (panics p) = (panic (user p), over)

  -- The specification of `Gn::resume`.
  unfoldable pub resume_spec : Generator P Y R C → R → Reply P Y C × Generator P Y R C
  resume_spec (suspended g) r = answer (g r)
  resume_spec over r = (panic message, over)

  -- After a panic the generator is over.
  abbrev pub Coherent : Reply P Y C → Generator P Y R C → Type 0
  Coherent (state c) s = Unit {0}
  Coherent (panic e) s = s ≡ over

  pub answer-Coherent : (b : Body P Y R C) → Coherent (answer b).0 (answer b).1
  unfolding answer
  answer-Coherent (finishes c) = tt
  answer-Coherent (yields y g) = tt
  answer-Coherent (panics p) = refl

  pub resume_spec-Coherent :
      (s : Generator P Y R C) (r : R) → Coherent (resume_spec s r).0 (resume_spec s r).1
  unfolding resume_spec
  resume_spec-Coherent (suspended g) r = answer-Coherent (g r)
  resume_spec-Coherent over r = refl

  -- The replies to one value after another.
  abbrev pub drive_spec : List R → Generator P Y R C → List (Reply P Y C)
  drive_spec [] s = []
  drive_spec (r ∷ rs) s = (resume_spec s r).0 ∷ drive_spec rs (resume_spec s r).1

  module _ {U : Type 0} where
    -- The body as a main function that yields through the handle at an address.
    unfoldable pub run_body : Body P Y R C → ℕ → M P (Cell P Y R C) U C
    run_body (finishes c) self = pure c
    run_body (yields y g) self = do r ← yield_ self y; run_body (g r) self
    run_body (panics p) self = throw (user p)
