-- ===== src/Ful/Asym/Create.antt =====
-- Creating a generator (`build_unchecked`, through `callcc_unchecked` and `new_on_imp`), and what a
-- caller that creates and drives one sees.
use unico.Common.{
  Bool, false, ap, subst, ℕ, ◌≡◌, ◌≢◌, ◌∙◌, refl, sym, true, Option, none, some, arith, List,
}
use mathlib.Core.Option
use unico.Context.Machine.{
  run, update, enter, Arrival, Machine, stop, aborted, Reaches, Reaches-trans, null,
}
use unico.Stack.{Stack, Heap}
use unico.Ful.Raw.{TaskLayouts, from_ptr, placed, place}
use unico.Ful.Effect.{arrived, Co, Payload, handle_drop, M, pure, ◌>>=◌, unwrap}
use unico.Ful.Effect.Steps.{
  update_self, update_other, at, switched, new_on-Reaches, get-Reaches, put-Reaches, resume-Reaches,
}
use unico.Ful.Coroutine.{
  Built, built, failed, from_inner, entry, new_on_imp, callcc_on, run_caught, first_argument,
  downcast, exit_map,
}
use unico.Ful.Sym.{callcc_unchecked, resume_payloaded}
use unico.Ful.Asym.{Cell, Gn, wrapper, build_unchecked}
use unico.Ful.Asym.Spec.{Body, Reply, suspended, run_body, drive_spec}
use unico.Ful.Asym.Cycle.{GWorld, GProgram, fresh, fresh-Resumes}
use unico.Ful.Asym.Ending.{leave}
use unico.Ful.Asym.Memory.{Handles, memory_of, Memory, final_spec}
use unico.Ful.Asym.Represents.{Suspended}
use unico.Ful.Asym.Drive.{drive, drive_refines}

module _ {P Y R C U : Type 0} where
  -- The main function: the body, on its handle's address.
  abbrev pub main : (R → Body P Y R C) → ℕ → R → M P (Cell P Y R C) U C
  main body self r = run_body (body r) self

  -- A caller that creates a generator and then drives it; `none` when the creation fails.
  abbrev pub generate :
      TaskLayouts
      → Stack
      → (Payload P → M P (Cell P Y R C) U Co)
      → (R → Body P Y R C)
      → List R
      → M P (Cell P Y R C) U (Option (List (Reply P Y C)))
  generate ls stack hook body rs = do
    b ← build_unchecked false ls stack hook (main body)
    elim b [ built gn ↦ do replies ← drive rs gn; pure (some replies) | failed e ↦ pure none ]

module _ {P Y R C U : Type 0} (needs_drop : Bool) (context_at : ℕ → ℕ → Option ℕ)
    (m : Machine (GWorld P Y R C U) (Payload P)) (w : GWorld P Y R C U) (ls : TaskLayouts)
    (stack : Stack) (hook : Payload P → M P (Cell P Y R C) U Co) (body : R → Body P Y R C)
    (p rest cx : ℕ) (fits : place ls stack.pointer stack.layout ≡ placed p rest)
    (accepted : context_at stack.pointer rest ≡ some cx) (new : cx ≢ m.running) where
  abbrev pub creation :
      (Built Gn → GProgram P Y R C U) → (Payload P → GProgram P Y R C U) → GProgram P Y R C U
  creation = build_unchecked needs_drop ls stack hook (main body)

  -- What the coroutine's stack does with a panic of the main function.
  abbrev pub unwound : Payload P → GProgram P Y R C U
  unwound e = run_caught (λ k h. h e) hook (leave ls p) (λ _. stop aborted)

  unwound_eq : (q : ℕ) → unwound (handle_drop (from_inner q)) ≡ leave ls p (from_inner q)
  unfolding run_caught downcast
  unwound_eq q = refl

  -- From the creation the caller goes on with a generator, which will start with `body`, on the same
  -- stack.
  pub record Created (k : Built Gn → GProgram P Y R C U) (h : Payload P → GProgram P Y R C U)
      : Type 0 where
    pub machine : Machine (GWorld P Y R C U) (Payload P)
    pub gn : Gn
    pub reaches : Reaches context_at (at m w (creation k h)) machine
    pub code_eq : machine.code ≡ k (built gn)
    pub running_eq : machine.running ≡ m.running
    pub represents :
        Suspended needs_drop context_at (from_ptr ls p).stack machine machine.world gn body
    pub memory_eq :
        memory_of machine.world ≡ (update w.tasks (from_ptr ls p).stack (some stack), w.heap)

  start : ℕ → ℕ → GProgram P Y R C U
  start = entry ls true hook (λ opt. do co ← unwrap opt; wrapper needs_drop (main body) co)

  abbrev prepared : Machine (GWorld P Y R C U) (Payload P)
  prepared = record m { conts = update m.conts cx (some (enter start)) }

  abbrev stored : GWorld P Y R C U
  stored = record w { tasks = update w.tasks (from_ptr ls p).stack (some stack) }

  -- The creator, while the new stack runs for the first time.
  abbrev resumer :
      (Built Gn → GProgram P Y R C U)
      → (Payload P → GProgram P Y R C U)
      → Arrival (GWorld P Y R C U) (Payload P)
      → GProgram P Y R C U
  resumer k h = arrived (λ t. k (built (record { inner = Option.map from_inner t.context }))) h

  resumer_waits :
      (k : Built Gn → GProgram P Y R C U) (h : Payload P → GProgram P Y R C U)
      → (switched prepared cx (resumer k h)).conts m.running ≡ some (resumer k h)
  resumer_waits k h =
      update_other (update prepared.conts m.running (some (resumer k h))) cx m.running none new
      ∙ update_self prepared.conts m.running (some (resumer k h))

  -- The creator's stack again, and the new one waits for its first value.
  abbrev back :
      (Built Gn → GProgram P Y R C U)
      → (Payload P → GProgram P Y R C U)
      → Machine (GWorld P Y R C U) (Payload P)
  back k h =
      at
        (switched (switched prepared cx (resumer k h)) m.running
          (fresh needs_drop (leave ls p) unwound body))
        stored (k (built (record { inner = some (from_inner cx) })))

  creation-Reaches :
      (k : Built Gn → GProgram P Y R C U) (h : Payload P → GProgram P Y R C U)
      → Reaches context_at (at m w (creation k h)) (back k h)
  unfolding start build_unchecked callcc_unchecked callcc_on new_on_imp wrapper entry run_caught
      first_argument resume_payloaded exit_map
  creation-Reaches k h =
      rw (fits, build_unchecked, callcc_unchecked, callcc_on, new_on_imp)
        (Reaches-trans context_at
          (new_on-Reaches context_at m w stack.pointer rest cx start _ accepted)
          (Reaches-trans context_at (get-Reaches context_at prepared w _) (
            Reaches-trans context_at (put-Reaches context_at prepared w stored _) (
              Reaches-trans context_at
                (resume-Reaches context_at prepared stored cx p (resumer k h)
                  (update_self m.conts cx _))
                (resume-Reaches context_at (switched prepared cx (resumer k h)) stored m.running
                  null (fresh needs_drop (leave ls p) unwound body) (resumer_waits k h))))))

  pub build_unchecked-Created :
      (k : Built Gn → GProgram P Y R C U) (h : Payload P → GProgram P Y R C U) → Created k h
  unfolding run
  build_unchecked-Created k h = record {
    machine = back k h;
    gn = record { inner = some (from_inner cx) };
    reaches = creation-Reaches k h;
    code_eq = refl;
    running_eq = refl;
    represents = record {
      cx = cx;
      task = p;
      ls = ls;
      unwound = unwound;
      target = fresh needs_drop (leave ls p) unwound body;
      base = 0;
      slot_eq = refl;
      inner = refl;
      apart = new;
      grown = omega arith;
      waits =
          update_other
            (update (switched prepared cx (resumer k h)).conts cx
              (some (fresh needs_drop (leave ls p) unwound body)))
            m.running cx none (λ e. new (sym e))
          ∙ update_self (switched prepared cx (resumer k h)).conts cx
              (some (fresh needs_drop (leave ls p) unwound body));
      resumes = fresh-Resumes needs_drop context_at (leave ls p) unwound body;
      unwound_eq = unwound_eq;
      unwinds = record {
        stops =
            λ m' q. (stored, record { rounds = 0; ends = ap (at m' stored) (unwound_eq q) }, refl);
      };
    };
    memory_eq = refl;
  }

module _ {P Y R C U : Type 0} (context_at : ℕ → ℕ → Option ℕ)
    (m : Machine (GWorld P Y R C U) (Payload P)) (w : GWorld P Y R C U) (ls : TaskLayouts)
    (stack : Stack) (hook : Payload P → M P (Cell P Y R C) U Co) (body : R → Body P Y R C)
    (p rest cx : ℕ) (fits : place ls stack.pointer stack.layout ≡ placed p rest)
    (accepted : context_at stack.pointer rest ≡ some cx) (new : cx ≢ m.running) where
  -- Creating a generator, whose return type has no destructor, on a stack that holds its record and the
  -- context, and driving
  -- it with a list of values, gives the caller the replies of the specification, on its own stack; the
  -- stack is freed if the generator ends, and otherwise the heap is as before.
  pub generate_refines :
      (rs : List R) (k : Option (List (Reply P Y C)) → GProgram P Y R C U)
      (h : Payload P → GProgram P Y R C U)
      → (m' : Machine (GWorld P Y R C U) (Payload P)) × Reaches context_at
          (at m w (generate ls stack hook body rs k h))
          m'
        × (m'.code ≡ k (some (drive_spec rs (suspended body))))
        × (m'.running ≡ m.running)
        × Memory
            (from_ptr ls p).stack
            (update w.tasks (from_ptr ls p).stack (some stack), w.heap)
            (suspended body)
            (final_spec rs (suspended body))
            (memory_of m'.world)
  generate_refines rs k h =
      let c : Created false context_at m w ls stack hook body p rest cx fits accepted new _ h =
        build_unchecked-Created false context_at m w ls stack hook body p rest cx fits accepted new
          _ h in
      let (m', q, e, r, f) =
        drive_refines context_at (from_ptr ls p).stack rs c.machine c.gn (suspended body)
          (λ xs. k (some xs)) h c.represents in
      (
        m',
        Reaches-trans context_at c.reaches (
            subst
              (λ (x : GProgram P Y R C U). Reaches context_at (at c.machine c.machine.world x) m')
              (sym c.code_eq) q),
        e,
        r ∙ c.running_eq,
        subst
            (λ (mem : Handles × Heap).
              Memory (from_ptr ls p).stack mem (suspended body) (final_spec rs (suspended body))
                (memory_of m'.world))
            c.memory_eq f,
      )
