-- ===== src/Ful/Asym/Ending.antt =====
-- How a call of `Gn::resume` ends a generator: by completion or by a panic. Either way the caller
-- gets the result, and the generator's stack is freed.
use mathlib.Core.Option.{Option}
use unico.Common.{false, sym, ℕ, suc, ◌≡◌, ◌≢◌, ◌<◌, ◌∙◌, none, some, arith}
use mathlib.Core.Option
use unico.Context.Machine.{
  null, update, Arrival, aborted, Code, stop, Machine, Reaches, Reaches-trans,
}
use unico.Ful.Raw.{TaskLayouts, from_ptr}
use unico.Ful.Effect.{unwrap, Co, Payload, user, handle_drop, arrived, ◌>>◌, pure}
use unico.Ful.Effect.Steps.{
  update_self, update_other, allocated, set_cell, at, switched, alloc-Reaches, read-Reaches,
  put-Reaches, get-Reaches, resume-Reaches, resume_with-Reaches,
}
use unico.Ful.Coroutine.{from_inner, exit_map, release, unwind, resume_unwind}
use unico.Ful.Sym.{resume_payloaded, resume, drop, handle_exit}
use unico.Ful.Asym.{
  Cell, CoroutineState, Gn, handle, returned, panicked, finish, receive, assert_none,
}
use unico.Ful.Asym.Spec.{finishes, panics, run_body}
use unico.Ful.Asym.Cycle.{GWorld, GProgram, returns, raises, caller}

module _ {P Y R C U : Type 0} where
  -- The end of the entry function: the next coroutine goes on, and frees the stack.
  abbrev pub leave : TaskLayouts → ℕ → Co → GProgram P Y R C U
  leave ls p next =
      Code.resume_with next.cx p (exit_map ls) (arrived (λ _. stop aborted) (λ _. stop aborted))

  abbrev pub ending :
      TaskLayouts
      → ℕ
      → (Payload P → GProgram P Y R C U)
      → Arrival (GWorld P Y R C U) (Payload P)
      → GProgram P Y R C U
  ending ls p unwound =
      arrived (λ t. unwrap (Option.map from_inner t.context) (leave ls p) unwound) unwound

  abbrev pub closing :
      C
      → (CoroutineState Y C × Gn → GProgram P Y R C U)
      → (Payload P → GProgram P Y R C U)
      → Arrival (GWorld P Y R C U) (Payload P)
      → GProgram P Y R C U
  closing c k h =
      arrived
        (λ t.
          (do
            assert_none (Option.map from_inner t.context)
            pure (CoroutineState.complete c, record { inner = none }))
            k h)
        h

  module _ (context_at : ℕ → ℕ → Option ℕ) (m : Machine (GWorld P Y R C U) (Payload P))
      (w : GWorld P Y R C U) (self q p : ℕ) (ls : TaskLayouts)
      (unwound : Payload P → GProgram P Y R C U) (k : CoroutineState Y C × Gn → GProgram P Y R C U)
      (h : Payload P → GProgram P Y R C U) (below : self < w.next_cell) (apart : q ≢ m.running)
      (named : w.cells self ≡ some (handle (some (from_inner q))))
      (waits : m.conts q ≡ some (caller k h)) where
    -- The memory after the handle was taken and a value was sent.
    abbrev pub cleared : GWorld P Y R C U → GWorld P Y R C U
    cleared v = set_cell (set_cell v self none) self (some (handle none))

    abbrev pub kept : GWorld P Y R C U → Cell P Y R C → GWorld P Y R C U
    kept v x = allocated (cleared v) x

    -- The machine after the generator switched to the caller, and when the caller switched back.
    abbrev pub answered : Machine (GWorld P Y R C U) (Payload P)
    answered = switched m q (ending ls p unwound)

    gn_suspended : answered.conts m.running ≡ some (ending ls p unwound)
    gn_suspended =
        update_other (update m.conts m.running (some (ending ls p unwound))) q m.running none apart
        ∙ update_self m.conts m.running (some (ending ls p unwound))

    module _ (c : C) where
      abbrev pub closed : Machine (GWorld P Y R C U) (Payload P)
      closed = switched answered m.running (closing c k h)

      caller_suspended : closed.conts q ≡ some (closing c k h)
      caller_suspended =
          update_other (update answered.conts q (some (closing c k h))) m.running q none
            (λ e. apart (sym e))
          ∙ update_self answered.conts q (some (closing c k h))

      abbrev pub w₁ : GWorld P Y R C U
      w₁ = allocated w (returned c)

      abbrev pub w₂ : GWorld P Y R C U
      w₂ =
          set_cell (set_cell (kept w₁ (Cell.complete w.next_cell)) (suc w.next_cell) none)
            w.next_cell none

      abbrev sent : GWorld P Y R C U
      sent = kept w₁ (Cell.complete w.next_cell)

      handle_kept : w₁.cells self ≡ some (handle (some (from_inner q)))
      handle_kept = update_other w.cells w.next_cell self _ (omega arith) ∙ named

      returned_kept : (set_cell sent (suc w.next_cell) none).cells w.next_cell ≡ some (returned c)
      returned_kept = ground arith

      -- The caller gets the value, and `exit` runs on its stack.
      pub complete-Reaches :
          Reaches context_at
            (at m w (
              run_body
                (finishes c)
                self
                (returns false self (leave ls p) unwound)
                (raises false self (leave ls p) unwound)))
            (at
              (switched closed q (arrived (λ _. stop aborted) (λ _. stop aborted)))
              (release (from_ptr ls p).stack w₂)
              (k (CoroutineState.complete c, record { inner = none })))
      unfolding run_body finish resume_payloaded resume receive exit_map
      complete-Reaches = Reaches-trans context_at (alloc-Reaches context_at m w (returned c) _ h) (
          Reaches-trans context_at (read-Reaches context_at m w₁ self _ h handle_kept) (
            Reaches-trans context_at (get-Reaches context_at m _ _) (
              Reaches-trans context_at (put-Reaches context_at m _ _ _) (
                Reaches-trans context_at
                  (alloc-Reaches context_at m _ (Cell.complete w.next_cell) _ h)
                  (Reaches-trans context_at
                    (resume-Reaches context_at m _ q (suc w.next_cell) _ waits)
                    (Reaches-trans context_at
                      (read-Reaches context_at answered _ (suc w.next_cell) _ h (
                        update_self (cleared w₁).cells (suc w.next_cell)
                          (some (Cell.complete w.next_cell))))
                      (Reaches-trans context_at
                        (read-Reaches context_at answered _ w.next_cell _ h returned_kept)
                        (Reaches-trans context_at
                          (resume-Reaches context_at answered _ m.running null (closing c k h)
                            gn_suspended)
                          (resume_with-Reaches context_at closed _ q p (exit_map ls) _
                            caller_suspended)))))))))

    -- A body that panics: the payload goes to the caller, the generator is dropped on the way.
    module _ (e : P)
        (unwound_eq : unwound (handle_drop (from_inner q)) ≡ leave ls p (from_inner q)) where
      abbrev dropping : Arrival (GWorld P Y R C U) (Payload P) → GProgram P Y R C U
      dropping = arrived (λ _. h (user e)) h

      abbrev pub dropped : Machine (GWorld P Y R C U) (Payload P)
      dropped = switched answered m.running dropping

      dropper_suspended : dropped.conts q ≡ some dropping
      dropper_suspended =
          update_other (update answered.conts q (some dropping)) m.running q none
            (λ e. apart (sym e))
          ∙ update_self answered.conts q (some dropping)

      abbrev pub w₃ : GWorld P Y R C U
      w₃ = set_cell (kept w (panicked (user e))) w.next_cell none

      unwound-Reaches : Reaches context_at (at dropped w₃ (unwound (handle_drop (from_inner q)))) (
          at
            (switched dropped q (arrived (λ _. stop aborted) (λ _. stop aborted)))
            (release (from_ptr ls p).stack w₃)
            (h (user e)))
      unfolding exit_map
      unwound-Reaches =
          rw unwound_eq
            (resume_with-Reaches context_at dropped w₃ q p (exit_map ls) _ dropper_suspended)

      pub panic-Reaches :
          Reaches context_at
            (at m w (
              run_body
                (panics e)
                self
                (returns false self (leave ls p) unwound)
                (raises false self (leave ls p) unwound)))
            (at
              (switched dropped q (arrived (λ _. stop aborted) (λ _. stop aborted)))
              (release (from_ptr ls p).stack w₃)
              (h (user e)))
      unfolding run_body finish resume_payloaded handle_exit resume_unwind receive drop unwind
      panic-Reaches = Reaches-trans context_at (read-Reaches context_at m w self _ h named) (
          Reaches-trans context_at (get-Reaches context_at m _ _) (
            Reaches-trans context_at (put-Reaches context_at m _ _ _) (
              Reaches-trans context_at (alloc-Reaches context_at m _ (panicked (user e)) _ h) (
                Reaches-trans context_at (resume-Reaches context_at m _ q w.next_cell _ waits) (
                  Reaches-trans context_at
                    (read-Reaches context_at answered _ w.next_cell _ h
                      (update_self (cleared w).cells w.next_cell (some (panicked (user e)))))
                    (Reaches-trans context_at
                      (resume_with-Reaches context_at answered _ m.running null unwind dropping
                        gn_suspended)
                      unwound-Reaches))))))
