-- ===== src/Examples/Awaits.antt =====
-- A stackful future made by `sync_with` and `into_future`, on an allocated stack, that waits on a future
-- of two polls.
use unico.Common.{ℕ, zero, suc, refl, arith, false, none, List, [], ◌∷◌}
use unico.Context.Machine.{Machine, stop, finished, uncaught}
use unico.Stack.{Block}
use unico.Ful.Effect.{Payload}
use unico.Ful.Asym.Spec.{Reply}
use unico.Ful.Asym.Cycle.{GWorld, GProgram}
use unico.Future.{Poll, pending, ready}
use unico.Future.Awaited.{Awaited, into_future-Awaited}
use unico.Examples.Lives.{
  closure, find_block, stack, heap, fields, place_context, closure-IsValid, allocates, fits,
}

abbrev W : Type 0
W = GWorld ℕ (Unit {0}) ℕ ℕ (Unit {0})

abbrev world : W
world = record {
  heap = record { blocks = []; droppers = λ _. none };
  tasks = λ _. none;
  cells = λ _. none;
  next_cell = 1;
  faulted = false;
  user_state = tt;
}

abbrev caller : Machine W (Payload ℕ)
caller = record { conts = λ _. none; running = 0; world = world; code = stop finished }

abbrev countdown : ℕ → ℕ → Poll ℕ × ℕ
countdown waker zero = (ready 42, zero)
countdown waker (suc n) = (pending, n)

abbrev replies : List (Reply ℕ (Unit {0}) ℕ) → GProgram ℕ (Unit {0}) ℕ ℕ (Unit {0})
replies xs = stop finished

abbrev panics : Payload ℕ → GProgram ℕ (Unit {0}) ℕ ℕ (Unit {0})
panics e = stop (uncaught e)

into_future-Awaited_example :
    (block : Block) × Awaited countdown 7 closure find_block place_context caller world fields 4 2
      block
      (1 ∷ 2 ∷ 3 ∷ [])
      replies
      panics
into_future-Awaited_example =
    into_future-Awaited countdown 7 closure find_block place_context caller world fields 4 2 stack
      heap 90032 24496 89984 allocates fits refl (omega arith) (1 ∷ 2 ∷ 3 ∷ []) replies panics
      closure-IsValid (omega arith)
