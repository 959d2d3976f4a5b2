-- ===== src/Ful/Asym/Refine.antt =====
-- `Gn::resume` over contexts refines the generator without stacks: every call comes to the state or
-- the panic of the specification, on the caller's stack, and leaves the generator that it leaves.
use unico.Common.{false, ap, ℕ, suc, ◌≡◌, ◌≢◌, ◌∙◌, refl, sym, Option, none, some, arith}
use unico.Context.Machine.{run, update, Machine, Reaches-trans}
use unico.Ful.Raw.{TaskLayouts, from_ptr}
use unico.Ful.Effect.{Payload, handle_drop}
use unico.Ful.Effect.Steps.{
  update_self, update_other, allocated, at, switched, alloc-Reaches, resume-Reaches,
}
use unico.Ful.Coroutine.{release, from_inner}
use unico.Ful.Sym.{resume_payloaded}
use unico.Ful.Asym.{Cell, CoroutineState, Gn, resumed, resume_gn}
use unico.Ful.Asym.Spec.{
  Body, finishes, yields, panics, Generator, suspended, over, answer, resume_spec,
}
use unico.Ful.Asym.Cycle.{
  sent-empty, GWorld, GProgram, Entered, waiting-Resumes, caller, waiting, yield-Reaches,
}
use unico.Ful.Asym.Memory.{memory_of, freed, release-freed}
use unico.Ful.Asym.Ending.{leave, complete-Reaches, panic-Reaches}
use unico.Ful.Asym.Represents.{Suspended, Represents, Served, Served-after, waiting-Unwinds}

module _ {P Y R C U : Type 0} (context_at : ℕ → ℕ → Option ℕ) where
  module _ (m : Machine (GWorld P Y R C U) (Payload P)) (w : GWorld P Y R C U) (ls : TaskLayouts)
      (task q : ℕ) (unwound : Payload P → GProgram P Y R C U)
      (unwound_eq : (q : ℕ) → unwound (handle_drop (from_inner q)) ≡ leave ls task (from_inner q))
      (k : CoroutineState Y C × Gn → GProgram P Y R C U) (h : Payload P → GProgram P Y R C U)
      (apart : q ≢ m.running) (waits : m.conts q ≡ some (caller k h)) (slot : ℕ)
      (slot_eq : (from_ptr ls task).stack ≡ slot) (g₀ : R → Body P Y R C) where
    -- A memory of which the generator's stack is dropped.
    freed_at :
        (v : GWorld P Y R C U)
        → memory_of v ≡ memory_of w
        → memory_of (release (from_ptr ls task).stack v) ≡ freed slot (memory_of w)
    freed_at v e =
        release-freed (from_ptr ls task).stack v
        ∙ ap (freed (from_ptr ls task).stack) e
        ∙ ap (λ (p : ℕ). freed p (memory_of w)) slot_eq

    -- On the generator's stack, by what the body does next.
    answered :
        (code : GProgram P Y R C U) (b : Body P Y R C)
        → Entered false context_at (leave ls task) unwound m w code q b
        → Served false context_at
            (at m w code)
            q
            (answer b).0
            slot
            (memory_of w)
            (suspended g₀)
            (answer b).1
            k
            h
    unfolding answer
    answered code (finishes c) en = record {
      machine = _;
      gn = record { inner = none };
      reaches = Reaches-trans context_at en.reaches (
          complete-Reaches context_at m en.world en.self q task ls unwound k h en.below apart
            en.named waits c);
      code_eq = refl;
      running_eq = refl;
      represents = refl;
      memory = freed_at _ (λ i. (en.tasks_eq i, en.heap_eq i));
    }
    answered code (yields y g) en = record {
      machine = _;
      gn = record { inner = some (from_inner m.running) };
      reaches = Reaches-trans context_at en.reaches (
          yield-Reaches false context_at m en.world en.self q (leave ls task) unwound k h en.below
            en.named waits y g);
      code_eq = refl;
      running_eq = refl;
      represents = record {
        cx = m.running;
        task = task;
        ls = ls;
        unwound = unwound;
        target = waiting false en.self (leave ls task) unwound g;
        base = suc en.self;
        slot_eq = slot_eq;
        inner = refl;
        apart = λ e. apart (sym e);
        grown = omega (arith, en.below);
        waits =
            update_other
              (update m.conts m.running (some (waiting false en.self (leave ls task) unwound g))) q
              m.running none apart
            ∙ update_self m.conts m.running
                (some (waiting false en.self (leave ls task) unwound g));
        resumes = waiting-Resumes false context_at (leave ls task) unwound en.self g;
        unwound_eq = unwound_eq;
        unwinds = waiting-Unwinds false context_at _ en.self ls task unwound unwound_eq g (
            sent-empty false context_at m en.world en.self q (leave ls task) unwound k h en.below
              en.named waits (Cell.yielded y));
      };
      memory = λ i. (en.tasks_eq i, en.heap_eq i);
    }
    answered code (panics e) en = record {
      machine = _;
      gn = record { inner = none };
      reaches = Reaches-trans context_at en.reaches (
          panic-Reaches context_at m en.world en.self q task ls unwound k h en.below apart en.named
            waits e (unwound_eq q));
      code_eq = refl;
      running_eq = refl;
      represents = refl;
      memory = freed_at _ (λ i. (en.tasks_eq i, en.heap_eq i));
    }

  module _ (m : Machine (GWorld P Y R C U) (Payload P)) (w : GWorld P Y R C U) (gn : Gn) (r : R)
      (k : CoroutineState Y C × Gn → GProgram P Y R C U) (h : Payload P → GProgram P Y R C U)
      (slot : ℕ) where
    suspended_refines :
        (g : R → Body P Y R C)
        → Suspended false context_at slot m w gn g
        → Served false context_at
            (at m w (resume_gn gn r k h))
            m.running
            (answer (g r)).0
            slot
            (memory_of w)
            (suspended g)
            (answer (g r)).1
            k
            h
    unfolding resume_gn resume_payloaded
    suspended_refines g s = rw s.inner (
        Served-after false context_at
          (Reaches-trans context_at (alloc-Reaches context_at m w (resumed r) _ h) (
            resume-Reaches context_at m (allocated w (resumed r)) s.cx w.next_cell (caller k h)
              s.waits))
          (answered (switched m s.cx (caller k h)) (allocated w (resumed r)) s.ls s.task m.running
            s.unwound s.unwound_eq k h (λ e. s.apart (sym e))
            (update_other (update m.conts m.running (some (caller k h))) s.cx m.running none s.apart
              ∙ update_self m.conts m.running (some (caller k h)))
            slot s.slot_eq g _ (g r)
            (s.resumes.goes_on (switched m s.cx (caller k h)) (allocated w (resumed r)) m.running
              w.next_cell r s.grown (omega (arith, s.grown))
              (update_self w.cells w.next_cell (some (resumed r))))))

    -- Where the machine and `gn` represent a generator, whose return type has no destructor, `Gn::resume` gets its caller, on its own stack,
    -- to the state or the panic of the specification, with a generator that represents the next one;
    -- a generator that ends has freed its stack, and otherwise the heap stays as it is.
    pub resume_gn_refines :
        (s : Generator P Y R C)
        → Represents false context_at slot m w gn s
        → Served false context_at
            (at m w (resume_gn gn r k h))
            m.running
            (resume_spec s r).0
            slot
            (memory_of w)
            s
            (resume_spec s r).1
            k
            h
    unfolding resume_gn resume_spec run
    resume_gn_refines (suspended g) s = suspended_refines g s
    resume_gn_refines over e = rw e (record {
      machine = _;
      gn = record { inner = none };
      reaches = record { rounds = 0; ends = refl };
      code_eq = refl;
      running_eq = refl;
      represents = refl;
      memory = refl;
    })
