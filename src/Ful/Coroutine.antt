-- ===== src/Ful/Coroutine.antt =====
-- ful/src/sym/raw.rs and ful/src/sym/raw/panicking.rs: creating a coroutine, its entry function, and
-- how it ends. The closure and the hook are handed to the entry function; the stack handle goes
-- through the coroutine's record in memory, from where `exit` reads it back.
pub mod Failure
pub mod Creation
use unico.Common.{ℕ, Bool, true, false, Option, none, some, ◌⊎◌, inl, inr}
use mathlib.Core.Option
use unico.Context.Machine.{
  null, update, transfer, unwinding, aborted, undefined, MapFn, stop, get, put,
}
use unico.Layout.{Layout}
use unico.Stack.{Stack}
use unico.Stack
use unico.Ful.Raw.{TaskLayouts, from_ptr, place, refused, placed}
use unico.Ful.Effect.{
  Co, Payload, user, message, handle_drop, World, Program, M, pure, ◌>>=◌, ◌>>◌, throw, catch,
  unwrap, cx_resume, cx_resume_with, cx_new_on,
}

-- `NewError`
pub data NewError : Type 0 where
  stack_too_small : Layout → Layout → NewError
  context : NewError

-- `Co::from_inner`; `Co::into_inner` is the field `cx`.
abbrev pub from_inner : ℕ → Co
from_inner cx = record { cx = cx }

-- A generic result of building a coroutine.
pub data Built (A : Type 0) : Type 0 where
  built : A → Built A
  failed : NewError → Built A

-- The destination of a coroutine's payload: `HandleDrop` names it, other payloads do not.
unfoldable pub downcast : {P : Type 0} → Payload P → Co ⊎ Payload P
downcast (handle_drop next) = inl next
downcast (user p) = inr (user p)
downcast message = inr message

-- Drops the stack handle that stands at an address.
abbrev pub release : {Cell U : Type 0} → ℕ → World Cell U → World Cell U
release p w = elim (w.tasks p) [
  | none ↦ record w { faulted = true }
  | some s ↦ elim (Stack.drop s w.heap) [
    | none ↦ record w { faulted = true }
    | some h ↦ record w { heap = h; tasks = update w.tasks p none }
  ]
]

module _ {P Cell U : Type 0} where
  -- `AbortHook`: `unreachable!`
  unfoldable pub abort_hook : Payload P → M P Cell U Co
  abort_hook payload = throw message

  -- `unwind`, executed on top of the stack of a coroutine that is dropped.
  unfoldable pub unwind : MapFn (World Cell U) (Payload P)
  unwind cx data_ptr w = (unwinding (handle_drop (from_inner cx)), w)

  -- `resume_unwind` of panicking.rs: lets a drop go on, and gives any other payload back.
  unfoldable pub resume_unwind : Payload P → M P Cell U (Payload P)
  resume_unwind (handle_drop next) = throw (handle_drop next)
  resume_unwind p = pure p

  -- `exit`, executed on top of the next stack: frees the stack of the coroutine that has ended.
  unfoldable pub exit_map : TaskLayouts → MapFn (World Cell U) (Payload P)
  exit_map ls cx p w =
      (transfer (record { context = none; data_ptr = null }), release (from_ptr ls p).stack w)

  -- `map`: runs the caller's closure on top of the target's stack.
  unfoldable pub map :
      (Co → World Cell U → (Option Co × ℕ) × World Cell U) → MapFn (World Cell U) (Payload P)
  map f cx payload w =
      let ((ret, data_ptr), w') = f (from_inner cx) w in
      (transfer (record { context = Option.map (λ (c : Co). c.cx) ret; data_ptr = data_ptr }), w')

  -- Runs the main function and the panic hook, as far as the next continuation.
  unfoldable pub run_caught : M P Cell U Co → (Payload P → M P Cell U Co) → M P Cell U Co
  run_caught run hook = do
    r ← catch run
    elim r [
      | inl co ↦ pure co
      | inr payload ↦ elim (downcast payload) [
        | inl next ↦ pure next
        | inr p ↦ do
          r' ← catch (hook p)
          elim r' [
            | inl co ↦ pure co
            | inr payload' ↦ elim (downcast payload') [
              | inl next ↦ pure next
              | inr p' ↦ abort_hook p'
            ]
          ]
      ]
    ]

  -- The argument of the main function: at once, or when the coroutine is resumed.
  unfoldable pub first_argument : Bool → ℕ → ℕ → M P Cell U (Option Co)
  first_argument true cx p = pure (some (from_inner cx))
  first_argument false cx p = do t ← cx_resume cx p; pure (Option.map from_inner t.context)

  -- `entry::<CALLCC>`. A panic that leaves it aborts the process.
  unfoldable pub entry :
      TaskLayouts
      → Bool
      → (Payload P → M P Cell U Co)
      → (Option Co → M P Cell U Co)
      → ℕ
      → ℕ
      → Program P Cell U
  entry ls callcc hook func cx p =
      (do
        next ← run_caught (do arg ← first_argument callcc cx p; func arg) hook
        cx_resume_with next.cx p (exit_map ls))
        (λ _. stop aborted) (λ _. stop aborted)

  -- The stack goes out of scope where creation fails.
  unfoldable pub drop_stack : Stack → M P Cell U (Unit {0})
  drop_stack s k h = get λ w. elim (Stack.drop s w.heap) [
    | none ↦ stop undefined
    | some heap ↦ put (record w { heap = heap }) (k tt)
  ]

  -- `raw.stack.write(stack)`
  abbrev pub write_stack : ℕ → Stack → M P Cell U (Unit {0})
  write_stack p s k h = get λ w. put (record w { tasks = update w.tasks p (some s) }) (k tt)

  -- `new_on_imp`
  unfoldable pub new_on_imp :
      TaskLayouts
      → Bool
      → Stack
      → (Payload P → M P Cell U Co)
      → (Option Co → M P Cell U Co)
      → M P Cell U (Built (Option Co))
  new_on_imp ls callcc stack hook func = elim (place ls stack.pointer stack.layout) [
    | refused expected actual ↦ do drop_stack stack; pure (failed (stack_too_small expected actual))
    | placed p rest ↦ do
      c ← cx_new_on stack.pointer rest (entry ls callcc hook func)
      elim c [
        | none ↦ do drop_stack stack; pure (failed context)
        | some cx ↦ do
          write_stack (from_ptr ls p).stack stack
          t ← cx_resume cx p
          pure (built (Option.map from_inner t.context))
      ]
  ]

  -- `RawCo::callcc_on`
  unfoldable pub callcc_on :
      TaskLayouts
      → Stack
      → (Payload P → M P Cell U Co)
      → (Option Co → M P Cell U Co)
      → M P Cell U (Built (Option Co))
  callcc_on ls = new_on_imp ls true

  -- `RawCo::new_on`
  unfoldable pub new_on :
      TaskLayouts
      → Stack
      → (Payload P → M P Cell U Co)
      → (Option Co → M P Cell U Co)
      → M P Cell U (Built Co)
  new_on ls stack hook func = do
    r ← new_on_imp ls false stack hook func
    elim r [ built o ↦ do co ← unwrap o; pure (built co) | failed e ↦ pure (failed e) ]

  -- `enter_root`
  unfoldable pub enter_root : {A : Type 0} → M P Cell U A → M P Cell U A
  enter_root f = do
    r ← catch f
    elim r [
      | inl ret ↦ pure ret
      | inr payload ↦ elim (downcast payload) [
        | inl next ↦ do _ ← cx_resume next.cx null; throw message
        | inr p ↦ throw p
      ]
    ]
