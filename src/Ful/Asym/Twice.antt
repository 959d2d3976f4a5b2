-- ===== src/Ful/Asym/Twice.antt =====
-- The end of `build_unchecked`'s wrapper for a return type with a destructor: `Gn::resume` has moved the
-- value out of the wrapper's local `c`, which the wrapper drops when it returns.
use mathlib.Core.Option.{Option}
use unico.Common.{true, ℕ, suc, ◌≡◌, ◌≢◌, ◌<◌, none, some}
use mathlib.Core.Option
use unico.Context.Machine.{undefined, Arrival, aborted, stop, Machine, Reaches}
use unico.Ful.Effect.{unwrap, Co, Payload, arrived}
use unico.Ful.Effect.Steps.{allocated, set_cell, switched}
use unico.Ful.Coroutine.{from_inner}
use unico.Ful.Asym.{Cell, CoroutineState, Gn, handle, returned, drop_local}
use unico.Ful.Asym.Cycle.{GWorld, GProgram, caller}

module _ {P Y R C U : Type 0} (context_at : ℕ → ℕ → Option ℕ) where
  -- From a state the machine comes to undefined behaviour.
  abbrev pub Undefined : Machine (GWorld P Y R C U) (Payload P) → Type 0
  Undefined before =
      (m : Machine (GWorld P Y R C U) (Payload P)) × Reaches context_at before m
      × (m.code ≡ stop undefined)

  -- The generator's stack runs, its body is over with `c`, and the caller waits in `Gn::resume`.
  module _ (m : Machine (GWorld P Y R C U) (Payload P)) (w : GWorld P Y R C U) (self q : ℕ)
      (after : Co → GProgram P Y R C U) (unwound : Payload P → GProgram P Y R C U)
      (k : CoroutineState Y C × Gn → GProgram P Y R C U) (h : Payload P → GProgram P Y R C U)
      (below : self < w.next_cell) (apart : q ≢ m.running)
      (named : w.cells self ≡ some (handle (some (from_inner q))))
      (waits : m.conts q ≡ some (caller k h)) (c : C) where
    -- A panic of the wrapper drops `c` as well.
    abbrev on_panic : Payload P → GProgram P Y R C U
    on_panic e = drop_local true w.next_cell (λ _. unwound e) (λ _. stop aborted)

    -- The wrapper, which waits for `Gn::resume` to resume it a last time.
    abbrev waking : Arrival (GWorld P Y R C U) (Payload P) → GProgram P Y R C U
    waking =
        arrived
          (λ t.
            unwrap (Option.map from_inner t.context)
              (λ next. drop_local true w.next_cell (λ _. after next) unwound) on_panic)
          on_panic

    abbrev answered : Machine (GWorld P Y R C U) (Payload P)
    answered = switched m q waking

    -- The memory when the value was sent, and when the caller has it.
    abbrev w₁ : GWorld P Y R C U
    w₁ = allocated w (returned c)

    abbrev sent : GWorld P Y R C U
    sent =
        allocated (set_cell (set_cell w₁ self none) self (some (handle none)))
          (Cell.complete w.next_cell)

    abbrev w₂ : GWorld P Y R C U
    w₂ = set_cell (set_cell sent (suc w.next_cell) none) w.next_cell none
