-- ===== src/Future/Polls/Once.antt =====
-- One `poll` of a stackful future that waits on a future.
use unico.Common.{false, ℕ, suc, ◌≡◌, Option}
use unico.Context.Machine.{Machine, Reaches}
use unico.Ful.Effect.{Payload}
use unico.Ful.Effect.Steps.{at}
use unico.Ful.Asym.{Gn}
use unico.Ful.Asym.Spec.{Generator, suspended, over, resume_spec, answer}
use unico.Ful.Asym.Cycle.{GWorld, GProgram}
use unico.Ful.Asym.Memory.{memory_of, Memory}
use unico.Ful.Asym.Represents.{Represents, Served}
use unico.Ful.Asym.Refine.{resume_gn_refines}
use unico.Future.{Poll, pending, ready, poll, to_poll}
use unico.Future.Polls.{awaits, after_poll}

module _ {P W T F : Type 0} (poll_future : W → F → Poll T × F) (exhausted : P) where
  -- The generator in a stackful future that waits on `f`, after it was polled.
  abbrev pub polled : ℕ → Poll T → F → Generator P (Unit {0}) W T
  polled n pending f = suspended (awaits poll_future exhausted n f)
  polled n (ready output) f = over

module _ {P W T F U : Type 0} (poll_future : W → F → Poll T × F) (exhausted : P)
    (context_at : ℕ → ℕ → Option ℕ) where
  -- The caller, on its own stack, gets the poll `p` and a future whose generator represents `s`; what
  -- was `s₀` has left the memory that `s` leaves.
  pub record Polled (m : Machine (GWorld P (Unit {0}) W T U) (Payload P))
      (w : GWorld P (Unit {0}) W T U) (before : Machine (GWorld P (Unit {0}) W T U) (Payload P))
      (slot : ℕ) (k : Poll T × Gn → GProgram P (Unit {0}) W T U) (p : Poll T)
      (s₀ s : Generator P (Unit {0}) W T) : Type 0 where
    pub machine : Machine (GWorld P (Unit {0}) W T U) (Payload P)
    pub gn : Gn
    pub reaches : Reaches context_at before machine
    pub code_eq : machine.code ≡ k (p, gn)
    pub running_eq : machine.running ≡ m.running
    pub represents : Represents false context_at slot machine machine.world gn s
    pub memory : Memory slot (memory_of w) s₀ s (memory_of machine.world)

  module _ (m : Machine (GWorld P (Unit {0}) W T U) (Payload P)) (w : GWorld P (Unit {0}) W T U)
      (gn : Gn) (slot : ℕ) (waker : W) (k : Poll T × Gn → GProgram P (Unit {0}) W T U)
      (h : Payload P → GProgram P (Unit {0}) W T U) where
    -- What the reply of the generator is to the caller of `poll`.
    Served-Polled :
        (n : ℕ) (p : Poll T) (f : F) (s₀ : Generator P (Unit {0}) W T)
        → Served false context_at
            (at m w (poll gn waker k h))
            m.running
            (answer (after_poll poll_future exhausted p (awaits poll_future exhausted n f))).0
            slot
            (memory_of w)
            s₀
            (answer (after_poll poll_future exhausted p (awaits poll_future exhausted n f))).1
            (λ x. k (to_poll x.0, x.1))
            h
        → Polled m w (at m w (poll gn waker k h)) slot k p s₀ (polled poll_future exhausted n p f)
    unfolding answer
    Served-Polled n pending f s₀ v = record {
      machine = v.machine;
      gn = v.gn;
      reaches = v.reaches;
      code_eq = v.code_eq;
      running_eq = v.running_eq;
      represents = v.represents;
      memory = v.memory;
    }
    Served-Polled n (ready output) f s₀ v = record {
      machine = v.machine;
      gn = v.gn;
      reaches = v.reaches;
      code_eq = v.code_eq;
      running_eq = v.running_eq;
      represents = v.represents;
      memory = v.memory;
    }

    -- A `poll` of a stackful future, with an output without a destructor, whose main function waits on `f`,
    -- whose polls change it alone, polls `f` once, with the same
    -- waker, and has its result: it is pending and waits on, or it is ready and its stack is freed.
    pub poll-Polled :
        (n : ℕ) (f : F)
        → Represents false context_at slot m w gn
            (suspended (awaits poll_future exhausted (suc n) f))
        → Polled m w
            (at m w (poll gn waker k h))
            slot
            k
            (poll_future waker f).0
            (suspended (awaits poll_future exhausted (suc n) f))
            (polled poll_future exhausted n (poll_future waker f).0 (poll_future waker f).1)
    unfolding poll awaits resume_spec
    poll-Polled n f r =
        Served-Polled n (poll_future waker f).0 (poll_future waker f).1
          (suspended (awaits poll_future exhausted (suc n) f))
          (resume_gn_refines context_at m w gn waker (λ x. k (to_poll x.0, x.1)) h slot
            (suspended (awaits poll_future exhausted (suc n) f)) r)
