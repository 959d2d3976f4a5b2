-- ===== src/Ful/Builder.antt =====
-- ful/src/builder.rs: a builder holds the stack, as a computation that converts it, and the panic
-- hook. The layouts of the coroutine's record, which the closure's type decides, are parameters.
pub mod Global
use unico.Common.{Bool, ℕ, Option, none, some, Fallible, List}
use unico.Context.Machine.{get, put}
use unico.Layout.{Layout}
use unico.Stack.{Stack, Block, from_alloc}
use unico.Ful.Raw.{TaskLayouts}
use unico.Ful.Effect.{Co, Payload, message, World, M, pure, ◌>>=◌, throw}
use unico.Ful.Coroutine.{Built, built, failed, abort_hook}
use unico.Ful.Sym
use unico.Ful.Asym.{Cell, Gn}
use unico.Ful.Asym

pub record Builder (P Cell U : Type 0) : Type 0 where
  pub stack : M P Cell U Stack
  pub panic_hook : Payload P → M P Cell U Co

module _ {P Cell U : Type 0} where
  -- `Result::expect`
  abbrev pub expect : {A : Type 0} → Built A → M P Cell U A
  expect (built a) = pure a
  expect (failed e) = throw message

  -- A stack that is given as such.
  abbrev pub this_stack : Stack → M P Cell U Stack
  this_stack s = pure s

  -- `Stack::from(&Global)`, for the closure layout and the allocator of `Global`.
  unfoldable pub global_stack : Layout → (List Block → Layout → Option ℕ) → M P Cell U Stack
  global_stack closure find_block k h = get λ w. elim (from_alloc closure find_block w.heap) [
    | Fallible.ok (s, heap) ↦ put (record w { heap = heap }) (k s)
    | _ ↦ h message
  ]

  -- `Builder::new`
  unfoldable pub new : M P Cell U Stack → Builder P Cell U
  new global = record { stack = global; panic_hook = abort_hook }

  unfoldable pub on : Builder P Cell U → M P Cell U Stack → Builder P Cell U
  on b stack = record b { stack = stack }

  unfoldable pub hook_panic_with : Builder P Cell U → (Payload P → M P Cell U Co) → Builder P Cell U
  hook_panic_with b hook = record b { panic_hook = hook }

  unfoldable pub spawn_unchecked :
      TaskLayouts → Builder P Cell U → (Option Co → M P Cell U Co) → M P Cell U (Built Co)
  spawn_unchecked ls b func = do stack ← b.stack; Sym.build_unchecked ls stack b.panic_hook func

  unfoldable pub spawn :
      TaskLayouts → Builder P Cell U → (Option Co → M P Cell U Co) → M P Cell U (Built Co)
  spawn ls b func = spawn_unchecked ls b func

  unfoldable pub callcc_unchecked :
      TaskLayouts → Builder P Cell U → (Co → M P Cell U Co) → M P Cell U (Built (Option Co))
  callcc_unchecked ls b func = do stack ← b.stack; Sym.callcc_unchecked ls func stack b.panic_hook

  unfoldable pub callcc :
      TaskLayouts → Builder P Cell U → (Co → M P Cell U Co) → M P Cell U (Built (Option Co))
  callcc ls b func = callcc_unchecked ls b func

  -- The free functions on a given stack. `global` is what `Builder::new` starts from.
  unfoldable pub spawn_on :
      TaskLayouts
      → M P Cell U Stack
      → M P Cell U Stack
      → (Option Co → M P Cell U Co)
      → M P Cell U Co
  spawn_on ls global stack func = do r ← spawn ls (on (new global) stack) func; expect r

  unfoldable pub callcc_on :
      TaskLayouts
      → M P Cell U Stack
      → M P Cell U Stack
      → (Co → M P Cell U Co)
      → M P Cell U (Option Co)
  callcc_on ls global stack func = do r ← callcc ls (on (new global) stack) func; expect r

  unfoldable pub spawn_unchecked_on :
      TaskLayouts
      → M P Cell U Stack
      → M P Cell U Stack
      → (Option Co → M P Cell U Co)
      → M P Cell U Co
  spawn_unchecked_on ls global stack func = do
    r ← spawn_unchecked ls (on (new global) stack) func
    expect r

  unfoldable pub callcc_unchecked_on :
      TaskLayouts
      → M P Cell U Stack
      → M P Cell U Stack
      → (Co → M P Cell U Co)
      → M P Cell U (Option Co)
  callcc_unchecked_on ls global stack func = do
    r ← callcc_unchecked ls (on (new global) stack) func
    expect r

module _ {P Y R C U : Type 0} where
  -- `Builder::gen`
  unfoldable pub gen :
      (needs_drop : Bool)
      → TaskLayouts
      → Builder P (Cell P Y R C) U
      → (ℕ → R → M P (Cell P Y R C) U C)
      → M P (Cell P Y R C) U (Built Gn)
  gen needs_drop ls b func = do
    stack ← b.stack
    Asym.build_unchecked needs_drop ls stack b.panic_hook func

  unfoldable pub gen_on :
      (needs_drop : Bool)
      → TaskLayouts
      → M P (Cell P Y R C) U Stack
      → M P (Cell P Y R C) U Stack
      → (ℕ → R → M P (Cell P Y R C) U C)
      → M P (Cell P Y R C) U Gn
  gen_on needs_drop ls global stack func = do
    r ← gen needs_drop ls (on (new global) stack) func
    expect r
