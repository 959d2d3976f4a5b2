-- ===== src/Ful/Effect.antt =====
-- Code of one stack in direct style: a computation takes what follows it, in normal return and in a
-- panic. `catch` is `catch_unwind`. The shared memory holds the stack handles of the coroutines
-- (the record that raw.rs writes), the stacks' heap, and the cells that pointers refer to.
pub mod Steps
use unico.Common.{Bool, ℕ, suc, Option, none, some, ◌⊎◌, inl, inr}
use unico.Context.Machine.{
  Transfer, update, Arrival, transfer, unwinding, undefined, MapFn, Code, stop, resume, resume_with,
  new_on, get, put,
}
use unico.Stack.{Stack, Heap}

-- A handle of a suspended coroutine.
pub record Co : Type 0 where
  pub cx : ℕ

-- `Box<dyn Any + Send>`: a user's payload, the message of a panic of the library, or `HandleDrop`.
pub data Payload (P : Type 0) : Type 0 where
  user : P → Payload P
  message : Payload P
  handle_drop : Co → Payload P

-- The shared memory. `faulted` records a use of freed memory by code that has no result. `Cell` is what the program's pointers refer to, and `U` the user's own state.
pub record World (Cell U : Type 0) : Type 0 where
  pub heap : Heap
  pub tasks : ℕ → Option Stack
  pub cells : ℕ → Option Cell
  pub next_cell : ℕ
  pub faulted : Bool
  pub user_state : U

module _ (P Cell U : Type 0) where
  abbrev pub Program : Type 0
  Program = Code (World Cell U) (Payload P)

  abbrev pub M : Type 0 → Type 0
  M A = (A → Program) → (Payload P → Program) → Program

module _ {P Cell U : Type 0} where
  abbrev pub pure : {A : Type 0} → A → M P Cell U A
  pure a k h = k a

  infixl 5 ◌>>=◌ ◌>>◌
  abbrev pub ◌>>=◌ : {A B : Type 0} → M P Cell U A → (A → M P Cell U B) → M P Cell U B
  ◌>>=◌ m f k h = m (λ a. f a k h) h

  abbrev pub ◌>>◌ : {A B : Type 0} → M P Cell U A → M P Cell U B → M P Cell U B
  ◌>>◌ m n k h = m (λ _. n k h) h

  abbrev pub throw : {A : Type 0} → Payload P → M P Cell U A
  throw e k h = h e

  -- `catch_unwind`
  abbrev pub catch : {A : Type 0} → M P Cell U A → M P Cell U (A ⊎ Payload P)
  catch m k h = m (λ a. k (inl a)) (λ e. k (inr e))

  -- `Option::unwrap`
  abbrev pub unwrap : {A : Type 0} → Option A → M P Cell U A
  unwrap none = throw message
  unwrap (some a) = pure a

  abbrev pub arrived :
      (Transfer → Program P Cell U)
      → (Payload P → Program P Cell U)
      → Arrival (World Cell U) (Payload P)
      → Program P Cell U
  arrived k h (transfer t) = k t
  arrived k h (unwinding e) = h e

  -- `cx::resume`, `cx::resume_with` and `cx::new_on`
  abbrev pub cx_resume : ℕ → ℕ → M P Cell U Transfer
  cx_resume cx data_ptr k h = resume cx data_ptr (arrived k h)

  abbrev pub cx_resume_with : ℕ → ℕ → MapFn (World Cell U) (Payload P) → M P Cell U Transfer
  cx_resume_with cx data_ptr f k h = resume_with cx data_ptr f (arrived k h)

  abbrev pub cx_new_on : ℕ → ℕ → (ℕ → ℕ → Program P Cell U) → M P Cell U (Option ℕ)
  cx_new_on base len entry k h = new_on base len entry k

  -- A local variable that a pointer may refer to: its address.
  abbrev pub alloc : Cell → M P Cell U ℕ
  alloc c k h = get λ w.
      put (record w { cells = update w.cells w.next_cell (some c); next_cell = suc w.next_cell })
        (k w.next_cell)

  -- `ptr::read`: moves the value out. A second read is undefined.
  abbrev pub read : ℕ → M P Cell U Cell
  read p k h = get λ w. elim (w.cells p) [
    | none ↦ stop undefined
    | some c ↦ put (record w { cells = update w.cells p none }) (k c)
  ]
