-- ===== src/Examples/Futures.antt =====
-- A stackful future on a machine with one running stack, that waits on a future of two polls.
use unico.Common.{
  ℕ, zero, suc, ◌+◌, ◌-◌, ◌≡◌, refl, arith, false, Option, none, some, [], if◌then◌else◌, leb,
}
use unico.Common.Words.{align_down}
use unico.Context.Machine.{Machine, stop, finished, uncaught}
use unico.Stack.{Stack, default_layout}
use unico.Stack
use unico.Ful.Raw.{TaskLayouts, from_ptr, placed, place}
use unico.Ful.Effect.{Payload}
use unico.Ful.Effect.Steps.{at}
use unico.Ful.Coroutine.{abort_hook}
use unico.Ful.Asym.{Gn}
use unico.Ful.Asym.Spec.{suspended}
use unico.Ful.Asym.Cycle.{GWorld, GProgram}
use unico.Ful.Asym.Create.{Created, build_unchecked-Created}
use unico.Future.{Poll, pending, ready, poll}
use unico.Future.Polls.{awaits}
use unico.Future.Polls.Once.{Polled, poll-Polled}

abbrev place_context : ℕ → ℕ → Option ℕ
place_context base len = if leb 1024 len then some (base + len - 48) else none

abbrev countdown : ℕ → ℕ → Poll ℕ × ℕ
countdown waker zero = (ready 42, zero)
countdown waker (suc n) = (pending, n)

abbrev W : Type 0
W = GWorld ℕ (Unit {0}) ℕ ℕ (Unit {0})

abbrev world : W
world = record {
  heap = record { blocks = []; droppers = λ _. none };
  tasks = λ _. none;
  cells = λ _. none;
  next_cell = 1;
  faulted = false;
  user_state = tt;
}

abbrev poller : Machine W (Payload ℕ)
poller = record { conts = λ _. none; running = 0; world = world; code = stop finished }

abbrev stack : Stack
stack = record { pointer = 65536; layout = default_layout; drop_fn = Stack.deallocate }

abbrev fields : TaskLayouts
fields = record {
  layout = record { size = 64; align = 8 };
  offset_stack = 0;
  offset_func = 32;
  offset_hook = 64;
}

fits : place fields 65536 default_layout ≡ placed 90048 24512
unfolding place align_down
fits = refl

abbrev panics : Payload ℕ → GProgram ℕ (Unit {0}) ℕ ℕ (Unit {0})
panics e = stop (uncaught e)

abbrev started :
    Created false place_context poller world fields stack abort_hook
      (awaits countdown 7 3 2)
      90048
      24512
      90000
      fits
      refl
      (omega arith)
      (λ b. stop finished)
      panics
started =
    build_unchecked-Created false place_context poller world fields stack abort_hook
      (awaits countdown 7 3 2) 90048 24512 90000 fits refl (omega arith) (λ b. stop finished) panics

abbrev with_poll : Poll ℕ × Gn → GProgram ℕ (Unit {0}) ℕ ℕ (Unit {0})
with_poll x = stop finished

poll-Polled_example :
    Polled countdown 7 place_context started.machine started.machine.world
      (at started.machine started.machine.world (poll started.gn 5 with_poll panics))
      (from_ptr fields 90048).stack
      with_poll
      pending
      (suspended (awaits countdown 7 3 2))
      (suspended (awaits countdown 7 2 1))
poll-Polled_example =
    poll-Polled countdown 7 place_context started.machine started.machine.world started.gn
      (from_ptr fields 90048).stack 5 with_poll panics 2 2 started.represents
