-- ===== src/Ful/Asym/Dropped.antt =====
-- Dropping a generator before or after its end.
use unico.Common.{Bool, ℕ, ◌≡◌, ◌∙◌, refl, ap, Option, none, some}
use unico.Context.Machine.{
  null, update, Arrival, Machine, Reaches, Reaches-trans, stop, aborted, run,
}
use unico.Ful.Raw.{from_ptr}
use unico.Ful.Effect.{arrived, Payload, M, pure}
use unico.Ful.Effect.Steps.{update_self, update_other, at, switched, resume_with-Reaches}
use unico.Ful.Coroutine.{exit_map, unwind}
use unico.Ful.Sym.{drop}
use unico.Ful.Asym.{Cell, Gn}
use unico.Ful.Asym.Spec.{Body, Generator, suspended, over}
use unico.Ful.Asym.Cycle.{GWorld, GProgram}
use unico.Ful.Asym.Memory.{memory_of, freed, release-freed, Memory}
use unico.Ful.Asym.Represents.{Suspended, Represents}

-- The generator goes out of scope, and with it the coroutine that it holds.
abbrev pub drop_gn : {P Y R C U : Type 0} → Gn → M P (Cell P Y R C) U (Unit {0})
drop_gn gn = elim gn.inner [ none ↦ pure tt | some co ↦ drop co ]

module _ {P Y R C U : Type 0} (needs_drop : Bool) (context_at : ℕ → ℕ → Option ℕ)
    (m : Machine (GWorld P Y R C U) (Payload P)) (w : GWorld P Y R C U) (gn : Gn) (slot : ℕ)
    (k : Unit {0} → GProgram P Y R C U) (h : Payload P → GProgram P Y R C U) where
  -- The caller goes on after the drop, on its own stack, and the memory is the one that the generator
  -- leaves when it ends.
  pub record DroppedGn (s : Generator P Y R C) (before : Machine (GWorld P Y R C U) (Payload P))
      : Type 0 where
    pub machine : Machine (GWorld P Y R C U) (Payload P)
    pub reaches : Reaches context_at before machine
    pub code_eq : machine.code ≡ k tt
    pub running_eq : machine.running ≡ m.running
    pub memory : Memory slot (memory_of w) s over (memory_of machine.world)

  abbrev dropping : Arrival (GWorld P Y R C U) (Payload P) → GProgram P Y R C U
  dropping = arrived (λ _. k tt) h

  suspended-DroppedGn :
      (g : R → Body P Y R C)
      → Suspended needs_drop context_at slot m w gn g
      → DroppedGn (suspended g) (at m w (drop_gn gn k h))
  unfolding drop unwind exit_map
  suspended-DroppedGn g s =
      let (v, r, e) = s.unwinds.stops (switched m s.cx dropping) m.running in
      rw s.inner (record {
        machine = _;
        reaches =
            Reaches-trans context_at
              (resume_with-Reaches context_at m w s.cx null unwind dropping s.waits)
              (Reaches-trans context_at r (
                resume_with-Reaches context_at (switched m s.cx dropping) v m.running s.task
                  (exit_map s.ls) (arrived (λ _. stop aborted) (λ _. stop aborted))
                  (update_other (update m.conts m.running (some dropping)) s.cx m.running none
                      s.apart
                    ∙ update_self m.conts m.running (some dropping))));
        code_eq = refl;
        running_eq = refl;
        memory =
            release-freed (from_ptr s.ls s.task).stack v
            ∙ ap (freed (from_ptr s.ls s.task).stack) e
            ∙ ap (λ (p : ℕ). freed p (memory_of w)) s.slot_eq;
      })

  -- Dropping a generator, before it has started, while it waits after a yield, or when it is over, lets
  -- the caller go on, on its own stack; the block of a generator that was not over is freed.
  pub drop_gn-DroppedGn :
      (s : Generator P Y R C)
      → Represents needs_drop context_at slot m w gn s
      → DroppedGn s (at m w (drop_gn gn k h))
  unfolding run
  drop_gn-DroppedGn (suspended g) s = suspended-DroppedGn g s
  drop_gn-DroppedGn over e = rw e (record {
    machine = _;
    reaches = record { rounds = 0; ends = refl };
    code_eq = refl;
    running_eq = refl;
    memory = refl;
  })
