-- ===== src/Examples/Waits.antt =====
-- Waits on a machine with one running stack: on futures that count, inside and outside of `sync`.
use unico.Common.{
  Option, ℕ, zero, suc, ◌+◌, ◌≡◌, refl, arith, false, none, some, [], leb, if◌then◌else◌,
}
use unico.Context.Machine.{Machine, Reaches, stop, finished, uncaught}
use unico.Ful.Effect.{Payload, message, World, Program, pure}
use unico.Ful.Effect.Steps.{at}
use unico.Ful.Asym.{Cell}
use unico.Future.{Poll, pending, ready, AsymContext}
use unico.Future.Polls.{pure_polls}
use unico.Future.Local.{Local, sync, wait}
use unico.Future.Local.Lent.{Lent, sync-Lent}
use unico.Future.Local.Blocking.{idle, shared_polls, outcome, wait-Reaches}
use unico.Future.Local.Nested.{waiting_polls, wait-wait}

abbrev C : Type 0
C = Cell ℕ (Unit {0}) ℕ ℕ

abbrev W : Type 0
W = World C (Local ℕ ℕ)

abbrev world : W
world = record {
  heap = record { blocks = []; droppers = λ _. none };
  tasks = λ _. none;
  cells = λ _. none;
  next_cell = 1;
  faulted = false;
  user_state = record { cx = none; borrowed = false; rest = 0 };
}

abbrev caller : Machine W (Payload ℕ)
caller = record { conts = λ _. none; running = 0; world = world; code = stop finished }

abbrev place_context : ℕ → ℕ → Option ℕ
place_context base len = some base

abbrev finishes : ℕ → Program ℕ C (Local ℕ ℕ)
finishes t = stop finished

abbrev panics : Payload ℕ → Program ℕ C (Local ℕ ℕ)
panics e = stop (uncaught e)

abbrev countdown : ℕ → ℕ → Poll ℕ × ℕ
countdown waker zero = (ready 42, zero)
countdown waker (suc n) = (pending, n)

abbrev context : AsymContext ℕ
context = record { y = 1; waker = 5 }

sync-Lent_example :
    Lent
      (pure_polls countdown)
      7
      9
      (λ v. v + 1)
      place_context
      caller
      world
      3
      2
      (at caller world
        ((sync (wait (pure_polls countdown) 7 9 (λ v. v + 1) 3 2)).func context finishes panics))
      context
      (λ cx. none)
      finishes
      panics
sync-Lent_example =
    sync-Lent (pure_polls countdown) 7 9 (λ v. v + 1) place_context caller world 3 2 context
      finishes panics

-- Ready when the shared count has come to 2; a poll counts too.
abbrev reader : ℕ → ℕ → ℕ → (Poll ℕ × ℕ) × ℕ
reader waker future v = ((if leb 2 v then ready v else pending, future), v + 1)

read_outcome : outcome reader 9 (λ v. v + 1) 2 4 0 ≡ some (2, 3)
unfolding outcome
read_outcome = refl

wait-Reaches_example :
    Reaches place_context
      (at caller (idle 0 world) (wait (shared_polls reader) 7 9 (λ v. v + 1) 10 4 finishes panics))
      (at caller (idle 3 world) (finishes 2))
wait-Reaches_example =
    wait-Reaches reader 7 9 (λ v. v + 1) place_context caller 2 10 4 world 0 2 3 finishes panics
      read_outcome (omega arith)

wait-wait_example :
    Reaches place_context
      (at caller (idle 0 world) (
        wait
          (waiting_polls
            (pure_polls countdown)
            7
            9
            (λ v. v + 1)
            3
            (λ f. f)
            (λ t f. pure (ready t, f)))
          7
          9
          (λ v. v + 1)
          1
          2
          finishes
          panics))
      (at caller (idle 0 world) (panics message))
wait-wait_example =
    wait-wait (pure_polls countdown) 7 9 (λ v. v + 1) place_context caller world 3 (λ f. f)
      (λ t f. pure (ready t, f)) 0 2 0 finishes panics
