-- ===== src/Ful/Asym/Represents.antt =====
-- What it means that the machine and a `Gn` represent a generator without stacks.
use unico.Common.{Bool, ℕ, ◌≡◌, ◌≢◌, ◌≤◌, refl, subst, Option, none, some}
use unico.Context.Machine.{unwinding, Arrival, Machine, Reaches, Reaches-trans}
use unico.Ful.Raw.{TaskLayouts, from_ptr}
use unico.Ful.Effect.{Co, Payload, handle_drop}
use unico.Ful.Effect.Steps.{set_cell, at}
use unico.Ful.Coroutine.{from_inner}
use unico.Ful.Asym.{handle, CoroutineState, Gn}
use unico.Ful.Asym.Spec.{Body, Generator, suspended, over, Reply, state, panic}
use unico.Ful.Asym.Cycle.{waiting-unwinds, GWorld, GProgram, Resumes, waiting}
use unico.Ful.Asym.Memory.{Handles, memory_of, Memory}
use unico.Stack.{Heap}
use unico.Ful.Asym.Ending.{leave}

module _ {P Y R C U : Type 0} (needs_drop : Bool) (context_at : ℕ → ℕ → Option ℕ) where
  -- A suspended stack `target`, whose coroutine is dropped, comes to the end of its entry function.
  pub record Unwinds (after : Co → GProgram P Y R C U)
      (target : Arrival (GWorld P Y R C U) (Payload P) → GProgram P Y R C U) (w : GWorld P Y R C U)
      : Type 0 where
    pub stops :
        (m : Machine (GWorld P Y R C U) (Payload P)) (q : ℕ)
        → (v : GWorld P Y R C U) × Reaches context_at
            (at m w (target (unwinding (handle_drop (from_inner q)))))
            (at m v (after (from_inner q)))
          × (memory_of v ≡ memory_of w)

  pub waiting-Unwinds :
      (w : GWorld P Y R C U) (self : ℕ) (ls : TaskLayouts) (task : ℕ)
      (unwound : Payload P → GProgram P Y R C U)
      → ((q : ℕ) → unwound (handle_drop (from_inner q)) ≡ leave ls task (from_inner q))
      → (g : R → Body P Y R C) → w.cells self ≡ some (handle none)
      → Unwinds (leave ls task) (waiting needs_drop self (leave ls task) unwound g) w
  waiting-Unwinds w self ls task unwound unwound_eq g e = record {
    stops = λ m q. (
      set_cell (set_cell w self none) self (some (handle none)),
      subst
          (λ (c : GProgram P Y R C U).
            Reaches context_at
              (at m w (
                waiting needs_drop self (leave ls task) unwound g
                  (unwinding (handle_drop (from_inner q)))))
              (at m (set_cell (set_cell w self none) self (some (handle none))) c))
          (unwound_eq q)
          (waiting-unwinds needs_drop context_at m w self (leave ls task) unwound g (from_inner q)
            e),
      refl,
    );
  }

  -- The handle names a suspended stack other than the running one, which goes on with `g`; the handle of
  -- its memory is at `slot`.
  pub record Suspended (slot : ℕ) (m : Machine (GWorld P Y R C U) (Payload P))
      (w : GWorld P Y R C U) (gn : Gn) (g : R → Body P Y R C) : Type 0 where
    pub cx : ℕ
    pub task : ℕ
    pub ls : TaskLayouts
    pub unwound : Payload P → GProgram P Y R C U
    pub target : Arrival (GWorld P Y R C U) (Payload P) → GProgram P Y R C U
    pub base : ℕ
    pub slot_eq : (from_ptr ls task).stack ≡ slot
    pub inner : gn.inner ≡ some (from_inner cx)
    pub apart : cx ≢ m.running
    pub grown : base ≤ w.next_cell
    pub waits : m.conts cx ≡ some target
    pub resumes : Resumes needs_drop context_at (leave ls task) unwound target g base
    pub unwound_eq : (q : ℕ) → unwound (handle_drop (from_inner q)) ≡ leave ls task (from_inner q)
    pub unwinds : Unwinds (leave ls task) target w

  abbrev pub Represents :
      ℕ
      → Machine (GWorld P Y R C U) (Payload P)
      → GWorld P Y R C U
      → Gn
      → Generator P Y R C
      → Type 0
  Represents slot m w gn (suspended g) = Suspended slot m w gn g
  Represents slot m w gn over = gn.inner ≡ none

  -- How the caller goes on: with the state and the generator, or with the panic.
  abbrev pub continue :
      Reply P Y C
      → Gn
      → (CoroutineState Y C × Gn → GProgram P Y R C U)
      → (Payload P → GProgram P Y R C U)
      → GProgram P Y R C U
  continue (state s) gn k h = k (s, gn)
  continue (panic e) gn k h = h e

  -- From a state of the machine the caller, on the stack `q`, gets to go on after the reply `a`, and
  -- its generator then represents `s`; what was `s₀` with the memory `mem` has left the memory that `s`
  -- leaves.
  pub record Served (before : Machine (GWorld P Y R C U) (Payload P)) (q : ℕ) (a : Reply P Y C)
      (slot : ℕ) (mem : Handles × Heap) (s₀ s : Generator P Y R C)
      (k : CoroutineState Y C × Gn → GProgram P Y R C U) (h : Payload P → GProgram P Y R C U)
      : Type 0 where
    pub machine : Machine (GWorld P Y R C U) (Payload P)
    pub gn : Gn
    pub reaches : Reaches context_at before machine
    pub code_eq : machine.code ≡ continue a gn k h
    pub running_eq : machine.running ≡ q
    pub represents : Represents slot machine machine.world gn s
    pub memory : Memory slot mem s₀ s (memory_of machine.world)

  pub Served-after :
      {m m' : Machine (GWorld P Y R C U) (Payload P)} {q : ℕ} {a : Reply P Y C} {slot : ℕ}
      {mem : Handles × Heap} {s₀ s : Generator P Y R C}
      {k : CoroutineState Y C × Gn → GProgram P Y R C U} {h : Payload P → GProgram P Y R C U}
      → Reaches context_at m m'
      → Served m' q a slot mem s₀ s k h
      → Served m q a slot mem s₀ s k h
  Served-after p v = record {
    machine = v.machine;
    gn = v.gn;
    reaches = Reaches-trans context_at p v.reaches;
    code_eq = v.code_eq;
    running_eq = v.running_eq;
    represents = v.represents;
    memory = v.memory;
  }
