-- ===== src/Ful/Coroutine/Failure.antt =====
-- `new_on_imp` where no coroutine comes to be: the record does not fit the stack, or the context
-- refuses what is left of it.
use unico.Common.{none, ℕ, ◌≡◌, refl, Bool, Option, some}
use unico.Context.Machine.{run, step_code, Machine, Reaches, Reaches-trans}
use unico.Layout.{Layout}
use unico.Stack.{Stack, Heap}
use unico.Stack
use unico.Ful.Raw.{TaskLayouts, place, refused, placed}
use unico.Ful.Effect.{Co, Payload, World, Program, M}
use unico.Ful.Effect.Steps.{at, new_on-refused}
use unico.Ful.Coroutine.{
  NewError, stack_too_small, context, Built, failed, drop_stack, entry, new_on_imp,
}

-- Why a stack is refused.
pub data Refusal (context_at : ℕ → ℕ → Option ℕ) (ls : TaskLayouts) (stack : Stack)
    : NewError → Type 0 where
  by_size :
      (expected actual : Layout)
      → place ls stack.pointer stack.layout ≡ refused expected actual
      → Refusal context_at ls stack (stack_too_small expected actual)
  by_context :
      (p rest : ℕ)
      → place ls stack.pointer stack.layout ≡ placed p rest
      → context_at stack.pointer rest ≡ none
      → Refusal context_at ls stack context

module _ {P Cell U : Type 0} (context_at : ℕ → ℕ → Option ℕ)
    (m : Machine (World Cell U) (Payload P)) (w : World Cell U) (ls : TaskLayouts) (callcc : Bool)
    (stack : Stack) (hook : Payload P → M P Cell U Co) (func : Option Co → M P Cell U Co)
    (heap : Heap) (freed : Stack.drop stack w.heap ≡ some heap)
    (k : Built (Option Co) → Program P Cell U) (h : Payload P → Program P Cell U) where
  drop_stack-Reaches :
      (m : Machine (World Cell U) (Payload P)) (k : Unit {0} → Program P Cell U)
      → Reaches context_at (at m w (drop_stack stack k h)) (at m (record w { heap = heap }) (k tt))
  unfolding drop_stack run step_code
  drop_stack-Reaches m k = record { rounds = 2; ends = rw (freed, run, step_code) refl }

  -- A refused creation frees the stack, and the caller goes on with the error on its own stack.
  pub new_on_imp-failed :
      (e : NewError)
      → Refusal context_at ls stack e
      → Reaches context_at
          (at m w (new_on_imp ls callcc stack hook func k h))
          (at m (record w { heap = heap }) (k (failed e)))
  unfolding new_on_imp run step_code
  new_on_imp-failed e (by_size x a f) = rw (f, new_on_imp) (drop_stack-Reaches m _)
  new_on_imp-failed e (by_context p rest f g) =
      rw (f, new_on_imp)
        (Reaches-trans context_at
          (new_on-refused context_at m w stack.pointer rest (entry ls callcc hook func) _ g)
          (drop_stack-Reaches m _))
