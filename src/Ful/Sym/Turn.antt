-- ===== src/Ful/Sym/Turn.antt =====
-- One resumption of a coroutine that takes turns, and dropping it, on the machine.
use unico.Common.{ℕ, ◌≡◌, ◌≢◌, ◌∙◌, sym, Option, none, some}
use unico.Context.Machine.{null, update, Arrival, Machine, stop, aborted, Reaches, Reaches-trans}
use unico.Ful.Raw.{TaskLayouts, from_ptr}
use unico.Ful.Effect.{Co, Payload, handle_drop, World, Program, arrived}
use unico.Ful.Effect.Steps.{
  update_self, update_other, at, switched, get-Reaches, put-Reaches, resume-Reaches,
  resume_with-Reaches,
}
use unico.Ful.Coroutine.{from_inner, exit_map, release, unwind}
use unico.Ful.Sym.{resume, resume_payloaded, drop, exit}
use unico.Ful.Coroutine.Creation.{leave, waits, first_run}
use unico.Ful.Sym.Script.{Script, returns, exits, turns, changed, run_script}

module _ {P Cell U : Type 0} where
  -- A coroutine that waits to be resumed, before its start or in `resume`.
  abbrev pub resting :
      (Co → Program P Cell U)
      → (Payload P → Program P Cell U)
      → Script U
      → Arrival (World Cell U) (Payload P)
      → Program P Cell U
  resting after unwound s = first_run (run_script s) after unwound

module _ {P Cell U : Type 0} (context_at : ℕ → ℕ → Option ℕ) (ls : TaskLayouts) (p : ℕ)
    (unwound : Payload P → Program P Cell U)
    (unwound_eq : (q : ℕ) → unwound (handle_drop (from_inner q)) ≡ leave ls p (from_inner q))
    (m : Machine (World Cell U) (Payload P)) (w : World Cell U) (cx : ℕ)
    (apart : cx ≢ m.running) where
  module _ (k : Option Co → Program P Cell U) (h : Payload P → Program P Cell U) where
    abbrev pub inside : Machine (World Cell U) (Payload P)
    inside = switched m cx (waits k h)

    caller_waits : inside.conts m.running ≡ some (waits k h)
    caller_waits =
        update_other (update m.conts m.running (some (waits k h))) cx m.running none apart
        ∙ update_self m.conts m.running (some (waits k h))

    abbrev pub ended : Machine (World Cell U) (Payload P)
    ended = switched inside m.running (arrived (λ _. stop aborted) (λ _. stop aborted))

    leave-Reaches :
        Reaches context_at
          (at inside w (leave ls p (from_inner m.running)))
          (at ended (release (from_ptr ls p).stack w) (k none))
    unfolding exit_map
    leave-Reaches = resume_with-Reaches context_at inside w m.running p (exit_map ls) _ caller_waits

    unwound-Reaches :
        Reaches context_at
          (at inside w (unwound (handle_drop (from_inner m.running))))
          (at ended (release (from_ptr ls p).stack w) (k none))
    unwound-Reaches = rw (unwound_eq m.running) leave-Reaches

    -- The coroutine runs, and returns or exits.
    pub returns-Reaches :
        Reaches context_at
          (at inside w (run_script returns (some (from_inner m.running)) (leave ls p) unwound))
          (at ended (release (from_ptr ls p).stack w) (k none))
    unfolding run_script
    returns-Reaches = leave-Reaches

    pub exits-Reaches :
        Reaches context_at
          (at inside w (run_script exits (some (from_inner m.running)) (leave ls p) unwound))
          (at ended (release (from_ptr ls p).stack w) (k none))
    unfolding run_script exit
    exits-Reaches = unwound-Reaches

    module _ (f : U → U) (s : Script U) where
      abbrev pub back : Machine (World Cell U) (Payload P)
      back = switched inside m.running (resting (leave ls p) unwound s)

      -- The coroutine runs, and resumes its resumer.
      pub turns-Reaches :
          Reaches context_at
            (at inside w
              (run_script (turns f s) (some (from_inner m.running)) (leave ls p) unwound))
            (at back (changed f w) (k (some (from_inner cx))))
      unfolding run_script resume resume_payloaded
      turns-Reaches = Reaches-trans context_at (get-Reaches context_at inside w _) (
          Reaches-trans context_at (put-Reaches context_at inside w (changed f w) _) (
            resume-Reaches context_at inside (changed f w) m.running null
              (resting (leave ls p) unwound s) caller_waits))

      pub back_waits : back.conts cx ≡ some (resting (leave ls p) unwound s)
      back_waits =
          update_other (update inside.conts cx (some (resting (leave ls p) unwound s))) m.running cx
            none (λ e. apart (sym e))
          ∙ update_self inside.conts cx (some (resting (leave ls p) unwound s))

  -- A coroutine that waits is resumed.
  pub resume_resting :
      (s : Script U) (k : Option Co → Program P Cell U) (h : Payload P → Program P Cell U)
      → m.conts cx ≡ some (resting (leave ls p) unwound s)
      → Reaches context_at
          (at m w (resume (from_inner cx) k h))
          (at (inside k h) w (run_script s (some (from_inner m.running)) (leave ls p) unwound))
  unfolding resume resume_payloaded
  resume_resting s k h e = resume-Reaches context_at m w cx null (waits k h) e

  -- A coroutine that waits is dropped: its stack unwinds.
  pub drop-Reaches :
      (s : Script U) (k : Unit {0} → Program P Cell U) (h : Payload P → Program P Cell U)
      → m.conts cx ≡ some (resting (leave ls p) unwound s)
      → Reaches context_at
          (at m w (drop (from_inner cx) k h))
          (at (ended (λ _. k tt) h) (release (from_ptr ls p).stack w) (k tt))
  unfolding drop unwind
  drop-Reaches s k h e =
      Reaches-trans context_at
        (resume_with-Reaches context_at m w cx null unwind (waits (λ _. k tt) h) e)
        (unwound-Reaches (λ _. k tt) h)
