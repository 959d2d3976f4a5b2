-- ===== src/Ful/Asym.antt =====
-- ful/src/asym.rs: generators. A value that crosses a switch stands in a cell of its sender's stack
-- frame, and a pointer to it is the payload of the switch.
pub mod Spec
pub mod Memory
pub mod Cycle
pub mod Ending
pub mod Represents
pub mod Refine
pub mod Drive
pub mod Dropped
pub mod Twice
pub mod Create
pub mod Freed
pub mod Whole
use unico.Common.{ℕ, Bool, true, false, if◌then◌else◌, Option, none, some, ◌⊎◌, inl, inr}
use unico.Context.Machine.{null, undefined, aborted, stop, get, put, update}
use unico.Stack.{Stack}
use unico.Ful.Raw.{TaskLayouts}
use unico.Ful.Effect.{
  Co, Payload, message, World, M, pure, ◌>>=◌, ◌>>◌, throw, catch, unwrap, alloc, read,
}
use unico.Ful.Coroutine.{Built, built, failed}
use unico.Ful.Sym.{drop, resume_payloaded, resume, handle_exit, callcc_unchecked}

-- What a pointer of asym.rs refers to: a resumed value, `Payload<Y>`, the return value, or the
-- field of the yield handle.
pub data Cell (P Y R C : Type 0) : Type 0 where
  resumed : R → Cell P Y R C
  yielded : Y → Cell P Y R C
  complete : ℕ → Cell P Y R C
  panicked : Payload P → Cell P Y R C
  returned : C → Cell P Y R C
  handle : Option Co → Cell P Y R C

-- `CoroutineState`
pub data CoroutineState (Y C : Type 0) : Type 0 where
  yielded : Y → CoroutineState Y C
  complete : C → CoroutineState Y C

-- `Gn`
pub record Gn : Type 0 where
  pub inner : Option Co

-- A result, and the generator as the call leaves it. A panic keeps the generator empty.
module _ {P Y R C U : Type 0} where
  -- A read of a cell of another kind is undefined.
  abbrev pub read_resumed : ℕ → M P (Cell P Y R C) U R
  read_resumed p k h = read p (λ c. elim c [ resumed r ↦ k r | _ ↦ stop undefined ]) h

  abbrev pub read_returned : ℕ → M P (Cell P Y R C) U C
  read_returned p k h = read p (λ c. elim c [ returned r ↦ k r | _ ↦ stop undefined ]) h

  -- `handle.inner.take()`: the handle stands in a cell, and taking it leaves `None`.
  abbrev pub take_handle : ℕ → M P (Cell P Y R C) U (Option Co)
  take_handle p k h =
      read p
        (λ c. elim c [
          | handle o ↦
              get λ w. put (record w { cells = update w.cells p (some (handle none)) }) (k o)
          | _ ↦ stop undefined
        ])
        h

  -- `self.inner = res`
  abbrev pub write_handle : ℕ → Option Co → M P (Cell P Y R C) U (Unit {0})
  write_handle p o k h =
      get λ w. put (record w { cells = update w.cells p (some (handle o)) }) (k tt)

  -- `YieldHandle::yield_`, on the handle at an address.
  unfoldable pub yield_ : ℕ → Y → M P (Cell P Y R C) U R
  yield_ self y = do
    inner ← take_handle self
    co ← unwrap inner
    p ← alloc (Cell.yielded y)
    r ← resume_payloaded co p
    write_handle self r.0
    read_resumed r.1

  -- The handle goes out of scope: a coroutine in it is dropped.
  abbrev pub drop_handle : ℕ → M P (Cell P Y R C) U (Unit {0})
  drop_handle p = do inner ← take_handle p; elim inner [ none ↦ pure tt | some co ↦ drop co ]

  -- The handle is dropped when `m` unwinds; a panic of that drop aborts.
  abbrev pub unwinding_drops : {A : Type 0} → ℕ → M P (Cell P Y R C) U A → M P (Cell P Y R C) U A
  unwinding_drops p m k h = m k (λ e. drop_handle p (λ _. h e) (λ _. stop aborted))

  -- The local `c` goes out of scope. Where the type `C` has a destructor (`needs_drop`) it runs, on the
  -- value at the address of `c`: this is undefined for a value that was moved out of it.
  abbrev pub drop_local : Bool → ℕ → M P (Cell P Y R C) U (Unit {0})
  drop_local needs_drop p = if needs_drop then (do c ← read_returned p; pure tt) else pure tt

  -- `c` is dropped when `m` unwinds; a panic of that drop aborts.
  abbrev pub unwinding_drops_local :
      {A : Type 0} → Bool → ℕ → M P (Cell P Y R C) U A → M P (Cell P Y R C) U A
  unwinding_drops_local needs_drop p m k h =
      m k (λ e. drop_local needs_drop p (λ _. h e) (λ _. stop aborted))

  -- `y` goes to the resumer, with the rest of the wrapper.
  abbrev pub hand_over : ℕ → Cell P Y R C → M P (Cell P Y R C) U Co
  hand_over self y = do
    inner ← take_handle self
    co ← unwrap inner
    p ← alloc y
    r ← resume_payloaded co p
    unwrap r.0

  -- The end of the wrapper below: what the main function has come to goes back to the resumer. When the
  -- wrapper is resumed it returns, and `c` is dropped, which is assigned if the function has returned.
  unfoldable pub finish : (needs_drop : Bool) → ℕ → C ⊎ Payload P → M P (Cell P Y R C) U Co
  finish needs_drop self (inl c) = do
    p ← alloc (returned c)
    next ← unwinding_drops_local needs_drop p (hand_over self (Cell.complete p))
    drop_local needs_drop p
    pure next
  finish needs_drop self (inr payload) = do
    p ← unwinding_drops self (handle_exit payload)
    hand_over self (panicked p)

  -- The closure that `build_unchecked` wraps around the generator's main function.
  unfoldable pub wrapper :
      (needs_drop : Bool) → (ℕ → R → M P (Cell P Y R C) U C) → Co → M P (Cell P Y R C) U Co
  wrapper needs_drop func caller = do
    r ← resume_payloaded caller null
    co ← unwrap r.0
    initial ← read_resumed r.1
    self ← alloc (handle (some co))
    outcome ← catch (func self initial)
    finish needs_drop self outcome

  -- `BuildUnchecked::build_unchecked` of `Gn`. `needs_drop`, here and above, is whether the type `C` has a
  -- destructor.
  unfoldable pub build_unchecked :
      (needs_drop : Bool)
      → TaskLayouts
      → Stack
      → (Payload P → M P (Cell P Y R C) U Co)
      → (ℕ → R → M P (Cell P Y R C) U C)
      → M P (Cell P Y R C) U (Built Gn)
  build_unchecked needs_drop ls stack hook func = do
    r ← callcc_unchecked ls (wrapper needs_drop func) stack hook
    elim r [ built inner ↦ pure (built (record { inner = inner })) | failed e ↦ pure (failed e) ]

  -- `debug_assert!(res.is_none())`
  abbrev pub assert_none : Option Co → M P (Cell P Y R C) U (Unit {0})
  assert_none none = pure tt
  assert_none (some co) = throw message

  -- What `Gn::resume` does with the payload that comes back. A panic drops the handle on its way.
  unfoldable pub receive : Co → Cell P Y R C → M P (Cell P Y R C) U (CoroutineState Y C × Gn)
  receive co (Cell.yielded y) = pure (CoroutineState.yielded y, record { inner = some co })
  receive co (Cell.complete p) = do
    c ← read_returned p
    res ← resume co
    assert_none res
    pure (CoroutineState.complete c, record { inner = none })
  receive co (panicked payload) = do drop co; throw payload
  receive co (resumed r) = λ k h. stop undefined
  receive co (returned c) = λ k h. stop undefined
  receive co (handle o) = λ k h. stop undefined

  -- `Gn::resume`
  unfoldable pub resume_gn : Gn → R → M P (Cell P Y R C) U (CoroutineState Y C × Gn)
  resume_gn gn r = do
    co ← unwrap gn.inner
    m ← alloc (resumed r)
    t ← resume_payloaded co m
    co' ← unwrap t.0
    cell ← read t.1
    receive co' cell
