-- ===== src/Ful/Sym.antt =====
-- ful/src/sym.rs: the operations of a symmetric coroutine's handle, and building one.
pub mod Script
pub mod Turn
pub mod Lives
pub mod Created
use unico.Common.{ℕ, Option}
use mathlib.Core.Option
use unico.Context.Machine.{null}
use unico.Stack.{Stack}
use unico.Ful.Raw.{TaskLayouts}
use unico.Ful.Effect.{
  Co, Payload, handle_drop, World, M, pure, ◌>>=◌, throw, unwrap, cx_resume, cx_resume_with,
}
use unico.Ful.Coroutine.{Built, from_inner, map, unwind, resume_unwind}
use unico.Ful.Coroutine

module _ {P Cell U : Type 0} where
  -- `Co::resume_payloaded`
  unfoldable pub resume_payloaded : Co → ℕ → M P Cell U (Option Co × ℕ)
  resume_payloaded co payload = do
    t ← cx_resume co.cx payload
    pure (Option.map from_inner t.context, t.data_ptr)

  -- `Co::resume`
  unfoldable pub resume : Co → M P Cell U (Option Co)
  resume co = do r ← resume_payloaded co null; pure r.0

  -- `Co::resume_payloaded_with`; the closure may use the shared memory.
  unfoldable pub resume_payloaded_with :
      Co → (Co → World Cell U → (Option Co × ℕ) × World Cell U) → M P Cell U (Option Co × ℕ)
  resume_payloaded_with co f = do
    t ← cx_resume_with co.cx null (map f)
    pure (Option.map from_inner t.context, t.data_ptr)

  -- `Co::resume_with`
  unfoldable pub resume_with :
      Co → (Co → World Cell U → Option Co × World Cell U) → M P Cell U (Option Co)
  resume_with co f = do
    r ← resume_payloaded_with co (λ c w. let (o, w') = f c w in ((o, null), w'))
    pure r.0

  -- `<Co as Drop>::drop`: unwinds the coroutine's stack.
  unfoldable pub drop : Co → M P Cell U (Unit {0})
  drop co = do _ ← cx_resume_with co.cx null unwind; pure tt

  -- `exit`: abandons the current coroutine for `next`.
  unfoldable pub exit : {A : Type 0} → Co → M P Cell U A
  exit next = throw (handle_drop next)

  -- `handle_exit`
  unfoldable pub handle_exit : Payload P → M P Cell U (Payload P)
  handle_exit payload = resume_unwind payload

  -- `BuildUnchecked::build_unchecked` of `Co`
  unfoldable pub build_unchecked :
      TaskLayouts
      → Stack
      → (Payload P → M P Cell U Co)
      → (Option Co → M P Cell U Co)
      → M P Cell U (Built Co)
  build_unchecked ls stack hook func = Coroutine.new_on ls stack hook func

  -- `Co::callcc_unchecked`
  unfoldable pub callcc_unchecked :
      TaskLayouts
      → (Co → M P Cell U Co)
      → Stack
      → (Payload P → M P Cell U Co)
      → M P Cell U (Built (Option Co))
  callcc_unchecked ls func stack hook =
      Coroutine.callcc_on ls stack hook (λ opt. do co ← unwrap opt; func co)
