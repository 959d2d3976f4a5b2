-- ===== src/Ful/Coroutine/Creation.antt =====
-- Where `new_on_imp` succeeds: the new stack runs, or waits for its first resumption.
use unico.Common.{sym, ℕ, ◌≡◌, ◌≢◌, ◌∙◌, refl, Bool, false, Option, some, none}
use mathlib.Core.Option
use unico.Context.Machine.{
  update, enter, Arrival, Code, Machine, stop, aborted, Reaches, Reaches-trans,
}
use unico.Stack.{Stack}
use unico.Ful.Raw.{TaskLayouts, from_ptr, placed, place}
use unico.Ful.Effect.{arrived, Co, Payload, handle_drop, World, Program, M, pure, ◌>>=◌, unwrap}
use unico.Ful.Effect.Steps.{
  update_self, update_other, at, switched, new_on-Reaches, get-Reaches, put-Reaches, resume-Reaches,
}
use unico.Ful.Coroutine.{
  Built, built, failed, from_inner, entry, new_on_imp, run_caught, first_argument, downcast,
  exit_map,
}

module _ {P Cell U : Type 0} where
  -- The end of the entry function: the next coroutine goes on, and frees the stack.
  abbrev pub leave : TaskLayouts → ℕ → Co → Program P Cell U
  leave ls p next =
      Code.resume_with next.cx p (exit_map ls) (arrived (λ _. stop aborted) (λ _. stop aborted))

  -- A coroutine that waits for its first resumption.
  abbrev pub first_run :
      (Option Co → M P Cell U Co)
      → (Co → Program P Cell U)
      → (Payload P → Program P Cell U)
      → Arrival (World Cell U) (Payload P)
      → Program P Cell U
  first_run func after unwound =
      arrived (λ t. func (Option.map from_inner t.context) after unwound) unwound

  -- The caller of `resume`, while the coroutine runs.
  abbrev pub waits :
      (Option Co → Program P Cell U)
      → (Payload P → Program P Cell U)
      → Arrival (World Cell U) (Payload P)
      → Program P Cell U
  waits k h = arrived (λ t. k (Option.map from_inner t.context)) h

  -- The end of `new_on`.
  abbrev pub taken : Built (Option Co) → M P Cell U (Built Co)
  taken r = elim r [ built o ↦ do co ← unwrap o; pure (built co) | failed e ↦ pure (failed e) ]

module _ {P Cell U : Type 0} (context_at : ℕ → ℕ → Option ℕ)
    (m : Machine (World Cell U) (Payload P)) (w : World Cell U) (ls : TaskLayouts) (stack : Stack)
    (hook : Payload P → M P Cell U Co) (p rest cx : ℕ)
    (fits : place ls stack.pointer stack.layout ≡ placed p rest)
    (accepted : context_at stack.pointer rest ≡ some cx) (new : cx ≢ m.running) where
  -- What the coroutine's stack does with a panic of the main function.
  abbrev pub unwound : Payload P → Program P Cell U
  unwound e = run_caught (λ k h. h e) hook (leave ls p) (λ _. stop aborted)

  pub unwound_eq : (q : ℕ) → unwound (handle_drop (from_inner q)) ≡ leave ls p (from_inner q)
  unfolding run_caught downcast
  unwound_eq q = refl

  abbrev pub stored : World Cell U
  stored = record w { tasks = update w.tasks (from_ptr ls p).stack (some stack) }

  module _ (callcc : Bool) (func : Option Co → M P Cell U Co) where
    abbrev pub prepared : Machine (World Cell U) (Payload P)
    prepared = record m { conts = update m.conts cx (some (enter (entry ls callcc hook func))) }

    -- The new stack, when its creator has switched to it.
    pub prepared-Reaches :
        (k : Built (Option Co) → Program P Cell U) (h : Payload P → Program P Cell U)
        → Reaches context_at (at m w (new_on_imp ls callcc stack hook func k h)) (
            at
              (switched prepared cx (waits (λ o. k (built o)) h))
              stored
              (entry ls callcc hook func m.running p))
    unfolding new_on_imp
    prepared-Reaches k h =
        rw (fits, new_on_imp)
          (Reaches-trans context_at
            (new_on-Reaches context_at m w stack.pointer rest cx (entry ls callcc hook func) _
              accepted)
            (Reaches-trans context_at (get-Reaches context_at prepared w _) (
              Reaches-trans context_at (put-Reaches context_at prepared w stored _) (
                resume-Reaches context_at prepared stored cx p (waits (λ o. k (built o)) h)
                  (update_self m.conts cx _)))))

  -- A coroutine that was built waits for its first resumption.
  module _ (func : Option Co → M P Cell U Co) where
    abbrev born : Machine (World Cell U) (Payload P)
    born = prepared false func

    abbrev pub first : Arrival (World Cell U) (Payload P) → Program P Cell U
    first = first_run func (leave ls p) unwound

    abbrev pub spawned :
        (Option Co → Program P Cell U)
        → (Payload P → Program P Cell U)
        → Machine (World Cell U) (Payload P)
    spawned k h = switched (switched born cx (waits k h)) m.running first

    module _ (k : Option Co → Program P Cell U) (h : Payload P → Program P Cell U) where
      creator_waits : (switched born cx (waits k h)).conts m.running ≡ some (waits k h)
      creator_waits =
          update_other (update born.conts m.running (some (waits k h))) cx m.running none new
          ∙ update_self born.conts m.running (some (waits k h))

      entered :
          Reaches context_at
            (at (switched born cx (waits k h)) stored (entry ls false hook func m.running p))
            (at (spawned k h) stored (k (some (from_inner cx))))
      unfolding entry run_caught first_argument exit_map
      entered =
          resume-Reaches context_at (switched born cx (waits k h)) stored m.running p first
            creator_waits

      pub first_waits : (spawned k h).conts cx ≡ some first
      first_waits =
          update_other (update (switched born cx (waits k h)).conts cx (some first)) m.running cx
            none (λ e. new (sym e))
          ∙ update_self (switched born cx (waits k h)).conts cx (some first)

    -- The creator goes on with the handle.
    pub new_on_imp-spawned :
        (k : Built (Option Co) → Program P Cell U) (h : Payload P → Program P Cell U)
        → Reaches context_at
            (at m w (new_on_imp ls false stack hook func k h))
            (at (spawned (λ o. k (built o)) h) stored (k (built (some (from_inner cx)))))
    new_on_imp-spawned k h =
        Reaches-trans context_at (prepared-Reaches false func k h) (entered (λ o. k (built o)) h)
