-- ===== src/Ful/Asym/Cycle.antt =====
-- One call of `Gn::resume` on a suspended generator, on the machine.
use mathlib.Core.Option.{Option}
use unico.Common.{Bool, refl, suc, ◌≤◌, ◌∙◌, ℕ, ◌≡◌, ◌<◌, none, some, inl, inr, arith}
use mathlib.Core.Option
use unico.Context.Machine.{
  unwinding, stop, aborted, transfer, update, Arrival, Machine, Reaches, Reaches-trans,
}
use unico.Ful.Effect.{
  Payload, handle_drop, catch, unwrap, Co, World, Program, read, arrived, ◌>>=◌, ◌>>◌,
}
use unico.Ful.Effect.Steps.{
  update_self, update_other, allocated, set_cell, at, switched, alloc-Reaches, read-Reaches,
  put-Reaches, get-Reaches, resume-Reaches,
}
use unico.Ful.Coroutine.{from_inner, resume_unwind}
use unico.Ful.Sym.{resume_payloaded, handle_exit}
use unico.Ful.Asym.{
  alloc, yield_, Cell, CoroutineState, Gn, resumed, handle, finish, read_resumed, write_handle,
  receive,
}
use unico.Ful.Asym.Spec.{yields, Body, run_body}

abbrev pub GWorld : Type 0 → Type 0 → Type 0 → Type 0 → Type 0 → Type 0
GWorld P Y R C U = World (Cell P Y R C) U

abbrev pub GProgram : Type 0 → Type 0 → Type 0 → Type 0 → Type 0 → Type 0
GProgram P Y R C U = Program P (Cell P Y R C) U

module _ {P Y R C U : Type 0} where
  -- What the generator's stack does after its main function: the end of the wrapper, and what
  -- follows the wrapper.
  module _ (needs_drop : Bool) (self : ℕ) (after : Co → GProgram P Y R C U)
      (unwound : Payload P → GProgram P Y R C U) where
    abbrev pub returns : C → GProgram P Y R C U
    returns c = finish needs_drop self (inl c) after unwound

    abbrev pub raises : Payload P → GProgram P Y R C U
    raises e = finish needs_drop self (inr e) after unwound

    -- A generator that waits in `yield_` for the value that its body goes on with.
    abbrev pub waiting :
        (R → Body P Y R C) → Arrival (GWorld P Y R C U) (Payload P) → GProgram P Y R C U
    waiting g =
        arrived
          (λ t.
            (do
              write_handle self (Option.map from_inner t.context)
              r ← read_resumed t.data_ptr
              run_body (g r) self)
              returns raises)
          raises

  -- What the caller does when the generator switches back.
  abbrev pub caller :
      (CoroutineState Y C × Gn → GProgram P Y R C U)
      → (Payload P → GProgram P Y R C U)
      → Arrival (GWorld P Y R C U) (Payload P)
      → GProgram P Y R C U
  caller k h =
      arrived
        (λ t.
          (do
            co ← unwrap (Option.map from_inner t.context)
            cell ← read t.data_ptr
            receive co cell)
            k h)
        h

  -- A generator that waits, at its creation, for its first value.
  abbrev pub fresh :
      Bool
      → (Co → GProgram P Y R C U)
      → (Payload P → GProgram P Y R C U)
      → (R → Body P Y R C)
      → Arrival (GWorld P Y R C U) (Payload P)
      → GProgram P Y R C U
  fresh needs_drop after unwound g =
      arrived
        (λ t.
          (do
            co ← unwrap (Option.map from_inner t.context)
            initial ← read_resumed t.data_ptr
            self ← alloc (handle (some co))
            outcome ← catch (run_body (g initial) self)
            finish needs_drop self outcome)
            after unwound)
        unwound

  module _ (needs_drop : Bool) (context_at : ℕ → ℕ → Option ℕ) (after : Co → GProgram P Y R C U)
      (unwound : Payload P → GProgram P Y R C U) where
    -- On the generator's stack the body runs, its handle names the resumer `q`, and nothing but
    -- cells has changed.
    pub record Entered (m : Machine (GWorld P Y R C U) (Payload P)) (w : GWorld P Y R C U)
        (code : GProgram P Y R C U) (q : ℕ) (body : Body P Y R C) : Type 0 where
      pub self : ℕ
      pub world : GWorld P Y R C U
      pub below : self < world.next_cell
      pub named : world.cells self ≡ some (handle (some (from_inner q)))
      pub reaches : Reaches context_at (at m w code) (
          at m world (
            run_body body self
              (returns needs_drop self after unwound)
              (raises needs_drop self after unwound)))
      pub heap_eq : world.heap ≡ w.heap
      pub tasks_eq : world.tasks ≡ w.tasks

    -- A suspended stack `target` goes on with the body `g r` when a resumer passes `r`; the memory
    -- must have grown to `base`.
    pub record Resumes (target : Arrival (GWorld P Y R C U) (Payload P) → GProgram P Y R C U)
        (g : R → Body P Y R C) (base : ℕ) : Type 0 where
      pub goes_on :
          (m : Machine (GWorld P Y R C U) (Payload P)) (w : GWorld P Y R C U) (q a : ℕ) (r : R)
          → base ≤ a
          → base ≤ w.next_cell
          → w.cells a ≡ some (resumed r)
          → Entered m w (target (transfer (record { context = some q; data_ptr = a }))) q (g r)

    pub waiting-Resumes :
        (self : ℕ) (g : R → Body P Y R C)
        → Resumes (waiting needs_drop self after unwound g) g (suc self)
    waiting-Resumes self g = record {
      goes_on = λ m w q a r la lw e. record {
        self = self;
        world = set_cell (set_cell w self (some (handle (some (from_inner q))))) a none;
        below = lw;
        named =
            update_other (update w.cells self (some (handle (some (from_inner q))))) a self none
              (omega arith)
            ∙ update_self w.cells self (some (handle (some (from_inner q))));
        reaches = Reaches-trans context_at (get-Reaches context_at m w _) (
            Reaches-trans context_at (put-Reaches context_at m w _ _) (
              read-Reaches context_at m _ a _ (raises needs_drop self after unwound) (
                update_other w.cells self a (some (handle (some (from_inner q)))) (omega arith)
                ∙ e)));
        heap_eq = refl;
        tasks_eq = refl;
      };
    }

    pub fresh-Resumes : (g : R → Body P Y R C) → Resumes (fresh needs_drop after unwound g) g 0
    fresh-Resumes g = record {
      goes_on = λ m w q a r la lw e. record {
        self = w.next_cell;
        world = allocated (set_cell w a none) (handle (some (from_inner q)));
        below = omega arith;
        named =
            update_self (update w.cells a none) w.next_cell (some (handle (some (from_inner q))));
        reaches = Reaches-trans context_at (read-Reaches context_at m w a _ unwound e) (
            alloc-Reaches context_at m (set_cell w a none) (handle (some (from_inner q))) _
              unwound);
        heap_eq = refl;
        tasks_eq = refl;
      };
    }

  -- A generator that waits is unwound by the drop of its coroutine: its handle is empty, and is dropped
  -- on the way.
  pub waiting-unwinds :
      (needs_drop : Bool) (context_at : ℕ → ℕ → Option ℕ)
      (m : Machine (GWorld P Y R C U) (Payload P)) (w : GWorld P Y R C U) (self : ℕ)
      (after : Co → GProgram P Y R C U) (unwound : Payload P → GProgram P Y R C U)
      (g : R → Body P Y R C) (next : Co)
      → w.cells self ≡ some (handle none)
      → Reaches context_at
          (at m w (waiting needs_drop self after unwound g (unwinding (handle_drop next))))
          (at m
            (set_cell (set_cell w self none) self (some (handle none)))
            (unwound (handle_drop next)))
  unfolding finish handle_exit resume_unwind
  waiting-unwinds needs_drop context_at m w self after unwound g next e =
      Reaches-trans context_at (read-Reaches context_at m w self _ (λ _. stop aborted) e)
        (Reaches-trans context_at (get-Reaches context_at m _ _) (put-Reaches context_at m _ _ _))

  -- The generator's stack runs, the handle names the caller, and the caller waits in `Gn::resume`.
  module _ (needs_drop : Bool) (context_at : ℕ → ℕ → Option ℕ)
      (m : Machine (GWorld P Y R C U) (Payload P)) (w : GWorld P Y R C U) (self q : ℕ)
      (after : Co → GProgram P Y R C U) (unwound : Payload P → GProgram P Y R C U)
      (k : CoroutineState Y C × Gn → GProgram P Y R C U) (h : Payload P → GProgram P Y R C U)
      (below : self < w.next_cell) (named : w.cells self ≡ some (handle (some (from_inner q))))
      (waits : m.conts q ≡ some (caller k h)) where
    -- The memory after a value was sent to the caller, who has read it.
    abbrev pub taken : GWorld P Y R C U
    taken = set_cell (set_cell w self none) self (some (handle none))

    abbrev pub sent : Cell P Y R C → GWorld P Y R C U
    sent v = set_cell (allocated taken v) w.next_cell none

    -- The handle is empty until the generator is resumed.
    pub sent-empty : (v : Cell P Y R C) → (sent v).cells self ≡ some (handle none)
    sent-empty v =
        update_other (update taken.cells w.next_cell (some v)) w.next_cell self none (omega arith)
        ∙ update_other taken.cells w.next_cell self (some v) (omega arith)
        ∙ update_self (update w.cells self none) self (some (handle none))

    -- A body that yields gives the value to the caller, and waits again.
    pub yield-Reaches :
        (y : Y) (g : R → Body P Y R C)
        → Reaches context_at
            (at m w (
              run_body
                (yields y g)
                self
                (returns needs_drop self after unwound)
                (raises needs_drop self after unwound)))
            (at
              (switched m q (waiting needs_drop self after unwound g))
              (sent (Cell.yielded y))
              (k (CoroutineState.yielded y, record { inner = some (from_inner m.running) })))
    unfolding run_body yield_ resume_payloaded receive
    yield-Reaches y g = Reaches-trans context_at (read-Reaches context_at m w self _ h named) (
        Reaches-trans context_at (get-Reaches context_at m _ _) (
          Reaches-trans context_at (put-Reaches context_at m _ _ _) (
            Reaches-trans context_at (alloc-Reaches context_at m _ (Cell.yielded y) _ h) (
              Reaches-trans context_at (resume-Reaches context_at m _ q w.next_cell _ waits) (
                read-Reaches context_at (switched m q (waiting needs_drop self after unwound g)) _
                  w.next_cell _ h (update_self taken.cells w.next_cell (some (Cell.yielded y))))))))
