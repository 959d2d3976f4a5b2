-- ===== src/Ful/Sym/Lives.antt =====
-- The life of a symmetric coroutine that takes turns: creation, resumptions, and the end.
use unico.Common.{Bool, ℕ, zero, suc, ◌≡◌, ◌≢◌, refl, ap, Option, none, some}
use unico.Context.Machine.{update, Machine, Reaches, Reaches-trans, run}
use unico.Stack.{Stack, Heap}
use unico.Stack
use unico.Ful.Raw.{TaskLayouts, from_ptr}
use unico.Ful.Effect.{Co, Payload, handle_drop, World, Program}
use unico.Ful.Effect.Steps.{at}
use unico.Ful.Coroutine.{from_inner, release}
use unico.Ful.Sym.Script.{
  Script, returns, exits, turns, changed, state_after, run_script, use_and_drop, resume_times,
  drop_option,
}
use unico.Ful.Coroutine.Creation.{leave}
use unico.Ful.Sym.Turn.{
  resting, returns-Reaches, exits-Reaches, turns-Reaches, back, back_waits, drop-Reaches, ended,
  inside, resume_resting,
}

-- The memory after the stack was freed.
release_lem :
    {Cell U : Type 0} (slot : ℕ) (w : World Cell U) (stack : Stack) (dropped : Heap)
    → w.tasks slot ≡ some stack
    → Stack.drop stack w.heap ≡ some dropped
    → release slot w ≡ record w { heap = dropped; tasks = update w.tasks slot none }
release_lem slot w stack dropped e d = rw (release, e, d) refl

module _ {P Cell U : Type 0} (context_at : ℕ → ℕ → Option ℕ) where
  -- The caller goes on with `code` on the stack `running`, with such a heap and state, and no stack was
  -- freed that had been freed before, unless `faulted` tells that one had.
  pub record Used (before : Machine (World Cell U) (Payload P)) (code : Program P Cell U)
      (running : ℕ) (heap : Heap) (state : U) (faulted : Bool) : Type 0 where
    pub machine : Machine (World Cell U) (Payload P)
    pub reaches : Reaches context_at before machine
    pub code_eq : machine.code ≡ code
    pub running_eq : machine.running ≡ running
    pub heap_eq : machine.world.heap ≡ heap
    pub state_eq : machine.world.user_state ≡ state
    pub faulted_eq : machine.world.faulted ≡ faulted

  pub Used-after :
      {a b : Machine (World Cell U) (Payload P)} {code : Program P Cell U} {running : ℕ}
      {heap : Heap} {state : U} {faulted : Bool}
      → Reaches context_at a b
      → Used b code running heap state faulted
      → Used a code running heap state faulted
  Used-after r u = record {
    machine = u.machine;
    reaches = Reaches-trans context_at r u.reaches;
    code_eq = u.code_eq;
    running_eq = u.running_eq;
    heap_eq = u.heap_eq;
    state_eq = u.state_eq;
    faulted_eq = u.faulted_eq;
  }

  freed-Used :
      (slot : ℕ) (m : Machine (World Cell U) (Payload P)) (w : World Cell U)
      (code : Program P Cell U) (stack : Stack) (dropped : Heap)
      → w.tasks slot ≡ some stack
      → Stack.drop stack w.heap ≡ some dropped
      → Used (at m (release slot w) code) code m.running dropped w.user_state w.faulted
  unfolding run
  freed-Used slot m w code stack dropped e d = record {
    machine = at m (release slot w) code;
    reaches = record { rounds = 0; ends = refl };
    code_eq = refl;
    running_eq = refl;
    heap_eq = ap (λ (x : World Cell U). x.heap) (release_lem slot w stack dropped e d);
    state_eq = ap (λ (x : World Cell U). x.user_state) (release_lem slot w stack dropped e d);
    faulted_eq = ap (λ (x : World Cell U). x.faulted) (release_lem slot w stack dropped e d);
  }

  module _ (ls : TaskLayouts) (p cx : ℕ) (unwound : Payload P → Program P Cell U)
      (unwound_eq : (q : ℕ) → unwound (handle_drop (from_inner q)) ≡ leave ls p (from_inner q))
      (stack : Stack) (dropped : Heap) (k : Unit {0} → Program P Cell U)
      (h : Payload P → Program P Cell U) where
    abbrev next : ℕ → Option Co → Program P Cell U
    next n opt = resume_times n opt (λ rest. drop_option rest k h) h

    -- The handle was not used up by so many resumptions, and is dropped.
    abbrev UsedTimes : ℕ → Script U → Machine (World Cell U) (Payload P) → World Cell U → Type 0
    UsedTimes n s m w =
        Used (at m w (use_and_drop n (some (from_inner cx)) k h)) (k tt) m.running dropped
          (state_after n s w.user_state) w.faulted

    -- The coroutine runs, and its resumer will resume it so many times again.
    pub inside-Used :
        (n : ℕ) (s : Script U) (m : Machine (World Cell U) (Payload P)) (w : World Cell U)
        (a : cx ≢ m.running)
        → ((s : Script U) (m : Machine (World Cell U) (Payload P)) (w : World Cell U)
            → cx ≢ m.running
            → m.conts cx ≡ some (resting (leave ls p) unwound s)
            → w.tasks (from_ptr ls p).stack ≡ some stack
            → Stack.drop stack w.heap ≡ some dropped
            → UsedTimes n s m w)
        → w.tasks (from_ptr ls p).stack ≡ some stack
        → Stack.drop stack w.heap ≡ some dropped
        → Used
            (at
              (inside context_at ls p unwound unwound_eq m w cx a (next n) h)
              w
              (run_script s (some (from_inner m.running)) (leave ls p) unwound))
            (k tt)
            m.running
            dropped
            (state_after (suc n) s w.user_state)
            w.faulted
    unfolding state_after
    inside-Used n returns m w a ih e d =
        Used-after (returns-Reaches context_at ls p unwound unwound_eq m w cx a (next n) h) (
          freed-Used (from_ptr ls p).stack
            (ended context_at ls p unwound unwound_eq m w cx a (next n) h) w (k tt) stack dropped e
            d)
    inside-Used n exits m w a ih e d =
        Used-after (exits-Reaches context_at ls p unwound unwound_eq m w cx a (next n) h) (
          freed-Used (from_ptr ls p).stack
            (ended context_at ls p unwound unwound_eq m w cx a (next n) h) w (k tt) stack dropped e
            d)
    inside-Used n (turns f s) m w a ih e d =
        Used-after (turns-Reaches context_at ls p unwound unwound_eq m w cx a (next n) h f s) (
          ih s (back context_at ls p unwound unwound_eq m w cx a (next n) h f s) (changed f w) a
            (back_waits context_at ls p unwound unwound_eq m w cx a (next n) h f s) e d)

    -- However often the coroutine is resumed, when the handle is dropped the stack is freed.
    pub use_and_drop-Used :
        (n : ℕ) (s : Script U) (m : Machine (World Cell U) (Payload P)) (w : World Cell U)
        → cx ≢ m.running
        → m.conts cx ≡ some (resting (leave ls p) unwound s)
        → w.tasks (from_ptr ls p).stack ≡ some stack
        → Stack.drop stack w.heap ≡ some dropped
        → UsedTimes n s m w
    unfolding state_after
    use_and_drop-Used zero s m w a c e d =
        Used-after (drop-Reaches context_at ls p unwound unwound_eq m w cx a s k h c) (
          freed-Used (from_ptr ls p).stack
            (ended context_at ls p unwound unwound_eq m w cx a (λ _. k tt) h) w (k tt) stack dropped
            e d)
    use_and_drop-Used (suc n) s m w a c e d =
        Used-after (resume_resting context_at ls p unwound unwound_eq m w cx a s (next n) h c)
          (inside-Used n s m w a (use_and_drop-Used n) e d)
