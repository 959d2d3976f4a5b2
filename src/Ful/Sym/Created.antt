-- ===== src/Ful/Sym/Created.antt =====
-- `Co::build_unchecked` and `Co::callcc_unchecked` with a main function that takes turns, and what
-- their caller does with the handle.
use unico.Common.{ℕ, suc, ◌≡◌, ◌≢◌, true, Option, some}
use unico.Context.Machine.{Machine}
use unico.Stack.{Stack, Heap}
use unico.Stack
use unico.Ful.Raw.{TaskLayouts, from_ptr, placed, place}
use unico.Ful.Effect.{Co, Payload, World, Program, M, ◌>>=◌, unwrap}
use unico.Ful.Effect.Steps.{update_self, at}
use unico.Ful.Coroutine.{Built, built, entry, new_on, callcc_on, run_caught, first_argument}
use unico.Ful.Sym.{build_unchecked, callcc_unchecked}
use unico.Ful.Sym.Script.{
  callcc_used, spawn_used, use_and_drop, Script, run_script, state_after, spawn_and_use,
  callcc_and_use,
}
use unico.Ful.Coroutine.Creation.{
  new_on_imp-spawned, prepared-Reaches, unwound, unwound_eq, stored, prepared, spawned, first_waits,
  taken,
}
use unico.Ful.Sym.Lives.{Used, Used-after, use_and_drop-Used, inside-Used}

module _ {P Cell U : Type 0} (context_at : ℕ → ℕ → Option ℕ)
    (m : Machine (World Cell U) (Payload P)) (w : World Cell U) (ls : TaskLayouts) (stack : Stack)
    (hook : Payload P → M P Cell U Co) (s : Script U) (p rest cx : ℕ)
    (fits : place ls stack.pointer stack.layout ≡ placed p rest)
    (accepted : context_at stack.pointer rest ≡ some cx) (new : cx ≢ m.running) where
  -- What the creator does with the handle.
  abbrev handed :
      ℕ
      → (Built (Unit {0}) → Program P Cell U)
      → (Payload P → Program P Cell U)
      → Option Co
      → Program P Cell U
  handed n k h o = unwrap o (λ co. use_and_drop n (some co) (λ _. k (built tt)) h) h

  -- A coroutine that takes turns with its resumer, spawned on a stack that holds its record and the
  -- context and that can be dropped: however often its creator resumes it before dropping the
  -- handle, if it is not over by then, the creator goes on on its own stack, the coroutine's stack is
  -- freed, no free of a stack failed, and the captured state is as after that many turns.
  pub spawn_and_use-Used :
      (n : ℕ) (dropped : Heap) (k : Built (Unit {0}) → Program P Cell U)
      (h : Payload P → Program P Cell U)
      → Stack.drop stack w.heap ≡ some dropped
      → Used context_at
          (at m w (spawn_and_use ls stack hook s n k h))
          (k (built tt))
          m.running
          dropped
          (state_after n s w.user_state)
          w.faulted
  unfolding build_unchecked new_on
  spawn_and_use-Used n dropped k h d =
      Used-after context_at
        (new_on_imp-spawned context_at m w ls stack hook p rest cx fits accepted new (run_script s)
          (λ r. taken r (λ b. spawn_used n b k h) h) h)
        (use_and_drop-Used context_at ls p cx
          (unwound context_at m w ls stack hook p rest cx fits accepted new)
          (unwound_eq context_at m w ls stack hook p rest cx fits accepted new) stack dropped
          (λ _. k (built tt)) h n s
          (spawned context_at m w ls stack hook p rest cx fits accepted new (run_script s)
            (handed n k h) h)
          (stored context_at m w ls stack hook p rest cx fits accepted new) new
          (first_waits context_at m w ls stack hook p rest cx fits accepted new (run_script s)
            (handed n k h) h)
          (update_self w.tasks (from_ptr ls p).stack (some stack)) d)

  abbrev called : Option Co → M P Cell U Co
  called opt = do co ← unwrap opt; run_script s (some co)

  -- The same of `callcc`, where the creation is the first resumption.
  pub callcc_and_use-Used :
      (n : ℕ) (dropped : Heap) (k : Built (Unit {0}) → Program P Cell U)
      (h : Payload P → Program P Cell U)
      → Stack.drop stack w.heap ≡ some dropped
      → Used context_at
          (at m w (callcc_and_use ls stack hook s n k h))
          (k (built tt))
          m.running
          dropped
          (state_after (suc n) s w.user_state)
          w.faulted
  unfolding callcc_unchecked callcc_on entry run_caught first_argument
  callcc_and_use-Used n dropped k h d =
      Used-after context_at
        (prepared-Reaches context_at m w ls stack hook p rest cx fits accepted new true called
          (λ r. callcc_used n r k h) h)
        (inside-Used context_at ls p cx
          (unwound context_at m w ls stack hook p rest cx fits accepted new)
          (unwound_eq context_at m w ls stack hook p rest cx fits accepted new) stack dropped
          (λ _. k (built tt)) h n s
          (prepared context_at m w ls stack hook p rest cx fits accepted new true called)
          (stored context_at m w ls stack hook p rest cx fits accepted new) new
          (use_and_drop-Used context_at ls p cx
            (unwound context_at m w ls stack hook p rest cx fits accepted new)
            (unwound_eq context_at m w ls stack hook p rest cx fits accepted new) stack dropped
            (λ _. k (built tt)) h n)
          (update_self w.tasks (from_ptr ls p).stack (some stack)) d)
