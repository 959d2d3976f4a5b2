-- ===== src/Ful/Sym/Script.antt =====
-- Symmetric coroutines that take turns with their resumer, as the tests of ful/src/sym.rs do, and a
-- resumer that drops the handle in the end.
use unico.Common.{ℕ, zero, suc, Option, none, some}
use unico.Context.Machine.{get, put}
use unico.Stack.{Stack}
use unico.Ful.Raw.{TaskLayouts}
use unico.Ful.Effect.{Co, Payload, World, M, pure, ◌>>=◌, ◌>>◌, unwrap}
use unico.Ful.Coroutine.{Built, built, failed}
use unico.Ful.Sym.{resume, drop, exit, build_unchecked, callcc_unchecked}

-- What a main function does with the captured state: it returns the coroutine that resumed it, exits to
-- it, or changes the state and resumes it.
pub data Script (U : Type 0) : Type 0 where
  returns : Script U
  exits : Script U
  turns : (U → U) → Script U → Script U

module _ {Cell U : Type 0} where
  abbrev pub changed : (U → U) → World Cell U → World Cell U
  changed f w = record w { user_state = f w.user_state }

-- The state after so many resumptions.
unfoldable pub state_after : {U : Type 0} → ℕ → Script U → U → U
state_after zero s u = u
state_after (suc n) returns u = u
state_after (suc n) exits u = u
state_after (suc n) (turns f s) u = state_after n s (f u)

module _ {P Cell U : Type 0} where
  abbrev pub modify : (U → U) → M P Cell U (Unit {0})
  modify f k h = get λ w. put (changed f w) (k tt)

  -- The main function; its argument is the coroutine that resumed it.
  unfoldable pub run_script : Script U → Option Co → M P Cell U Co
  run_script returns opt = unwrap opt
  run_script exits opt = do co ← unwrap opt; exit co
  run_script (turns f s) opt = do modify f; co ← unwrap opt; opt' ← resume co; run_script s opt'

  -- At most so many resumptions of what the last one gave back.
  abbrev pub resume_times : ℕ → Option Co → M P Cell U (Option Co)
  resume_times n none k h = k none
  resume_times zero (some co) k h = k (some co)
  resume_times (suc n) (some co) k h = resume co (λ opt. resume_times n opt k h) h

  -- An `Option<Co>` goes out of scope.
  abbrev pub drop_option : Option Co → M P Cell U (Unit {0})
  drop_option none = pure tt
  drop_option (some co) = drop co

  abbrev pub use_and_drop : ℕ → Option Co → M P Cell U (Unit {0})
  use_and_drop n opt = do rest ← resume_times n opt; drop_option rest

  abbrev pub spawn_used : ℕ → Built Co → M P Cell U (Built (Unit {0}))
  spawn_used n (built co) = do use_and_drop n (some co); pure (built tt)
  spawn_used n (failed e) = pure (failed e)

  abbrev pub callcc_used : ℕ → Built (Option Co) → M P Cell U (Built (Unit {0}))
  callcc_used n (built opt) = do use_and_drop n opt; pure (built tt)
  callcc_used n (failed e) = pure (failed e)

  -- A caller that builds a coroutine, uses it and drops it, and one that is the first resumer.
  abbrev pub spawn_and_use :
      TaskLayouts
      → Stack
      → (Payload P → M P Cell U Co)
      → Script U
      → ℕ
      → M P Cell U (Built (Unit {0}))
  spawn_and_use ls stack hook s n = do
    r ← build_unchecked ls stack hook (run_script s)
    spawn_used n r

  abbrev pub callcc_and_use :
      TaskLayouts
      → Stack
      → (Payload P → M P Cell U Co)
      → Script U
      → ℕ
      → M P Cell U (Built (Unit {0}))
  callcc_and_use ls stack hook s n = do
    r ← callcc_unchecked ls (λ co. run_script s (some co)) stack hook
    callcc_used n r
