-- ===== src/Examples/Tasks.antt =====
-- A queue of tasks, a task that yields and one that is woken, and a stackful future.
use unico.Common.{
  ◌-◌, if◌then◌else◌, ℕ, zero, suc, ◌+◌, ◌≡◌, refl, arith, Bool, leb, Option, none, some, List, [],
  ◌∷◌, ◌++◌,
}
use unico.Context.Machine.{Arrival, Machine, Reaches, stop, finished, uncaught}
use unico.Stack.{Stack, default_layout}
use unico.Stack
use unico.Ful.Raw.{TaskLayouts, placed, place}
use unico.Common.Words.{align_down}
use unico.Ful.Effect.{Payload, World, Program}
use unico.Ful.Effect.Steps.{at}
use unico.Ful.Coroutine.{abort_hook}
use unico.Ful.Asym.Spec.{Reply}
use unico.Ful.Asym.Cycle.{GWorld, GProgram}
use unico.Sched.{Task, Scheduler, State, empty, notified, Slot, modify_user, wake, wait}
use unico.Sched.SymWait.{sym_wait, settle, sym_wait-settle}
use unico.Sched.Wait.{Separate, wait-wake}
use unico.Future.{Poll, pending, ready}
use unico.Future.Polls.{polls, poll_all, poll_all_refines}

-- The queue, first in first out, and the state of a waiting task.
abbrev place_context : ℕ → ℕ → Option ℕ
place_context base len = if leb 1024 len then some (base + len - 48) else none

abbrev Shared : Type 0
Shared = List (Task ℕ) × State ℕ

abbrev pop : Shared → Option (Task ℕ) × Shared
pop ([], st) = (none, ([], st))
pop (t ∷ ts, st) = (some t, (ts, st))

abbrev fifo : Scheduler ℕ Shared
fifo = record { switch = λ n u. (n + 1, u); enqueue = λ t u. (u.0 ++ (t ∷ []), u.1); dequeue = pop }

abbrev slot : Slot ℕ Shared
slot = record { read = λ u. u.1; write = λ v u. (u.0, v) }

slot-Separate : Separate fifo slot
slot-Separate = record {
  read_write = λ v u. refl;
  write_write = λ v v' u. refl;
  read_enqueue = λ t u. refl;
  write_enqueue = λ v t u. refl;
}

abbrev sleeper : Task ℕ
sleeper = record { co = record { cx = 5 }; metadata = 10 }

abbrev world : Shared → World ℕ Shared
world u = record {
  heap = record { blocks = []; droppers = λ _. none };
  tasks = λ _. none;
  cells = λ _. none;
  next_cell = 1;
  faulted = Bool.false;
  user_state = u;
}

abbrev sleeping : Arrival (World ℕ Shared) (Payload ℕ) → Program ℕ ℕ Shared
sleeping a = stop finished

abbrev machine : Machine (World ℕ Shared) (Payload ℕ)
machine = record {
  conts = λ c. elim c [ zero ↦ none | suc _ ↦ some sleeping ];
  running = 0;
  world = world ([], empty);
  code = stop finished;
}

wait-wake_example :
    Reaches {W = World ℕ Shared} {E = Payload ℕ} place_context
      (at machine
        (modify_user (wake fifo slot) (world ([], empty)))
        (wait fifo slot 1 1 (λ _. stop finished) (λ e. stop (uncaught e))))
      (at machine (modify_user (slot.write empty) (world ([], empty))) (stop finished))
wait-wake_example =
    wait-wake fifo slot slot-Separate place_context machine (world ([], empty)) 0 1
      (λ _. stop finished) (λ e. stop (uncaught e)) refl

abbrev goes_on : Bool → Program ℕ ℕ Shared
goes_on b = stop finished

abbrev fails : Payload ℕ → Program ℕ ℕ Shared
fails e = stop (uncaught e)

-- A future that is ready after some polls, and wakes the task in each before.
abbrev wakes_itself : ℕ → Shared → (Poll ℕ × ℕ) × Shared
wakes_itself zero u = ((ready 42, zero), u)
wakes_itself (suc n) u = ((pending, n), (u.0, notified))

abbrev goes_on_with : ℕ → Program ℕ ℕ Shared
goes_on_with n = stop finished

sym_wait-settle_example :
    Reaches place_context
      (at machine
        (world (sleeper ∷ [], empty))
        (sym_wait fifo slot wakes_itself 0 1 3 2 goes_on_with fails))
      (at machine (world (sleeper ∷ [], empty)) (stop finished))
unfolding settle
sym_wait-settle_example =
    sym_wait-settle fifo slot wakes_itself 0 1 place_context machine 3 2
      (world (sleeper ∷ [], empty)) 42 (sleeper ∷ [], empty) goes_on_with fails refl

-- A future that is ready after as many polls as its state says.
abbrev countdown : ℕ → ℕ → Poll ℕ × ℕ
countdown waker zero = (ready 42, zero)
countdown waker (suc n) = (pending, n)

abbrev W : Type 0
W = GWorld ℕ (Unit {0}) ℕ ℕ (Unit {0})

abbrev poller_world : W
poller_world = record {
  heap = record { blocks = []; droppers = λ _. none };
  tasks = λ _. none;
  cells = λ _. none;
  next_cell = 1;
  faulted = Bool.false;
  user_state = tt;
}

abbrev poller : Machine W (Payload ℕ)
poller = record { conts = λ _. none; running = 0; world = poller_world; code = stop finished }

abbrev stack : Stack
stack = record { pointer = 65536; layout = default_layout; drop_fn = Stack.deallocate }

abbrev fields : TaskLayouts
fields = record {
  layout = record { size = 64; align = 8 };
  offset_stack = 0;
  offset_func = 32;
  offset_hook = 64;
}

fits : place fields 65536 default_layout ≡ placed 90048 24512
unfolding place align_down
fits = refl

abbrev results : Option (List (Reply ℕ (Unit {0}) ℕ)) → GProgram ℕ (Unit {0}) ℕ ℕ (Unit {0})
results xs = stop finished

abbrev poller_panics : Payload ℕ → GProgram ℕ (Unit {0}) ℕ ℕ (Unit {0})
poller_panics e = stop (uncaught e)

poll_all_refines_example :
    (m : Machine W (Payload ℕ)) × Reaches place_context
      (at poller poller_world (
        poll_all countdown 7 4 2 fields stack abort_hook
          (1 ∷ 2 ∷ 3 ∷ 4 ∷ [])
          results
          poller_panics))
      m
    × (m.code ≡ results (some (polls countdown 7 (1 ∷ 2 ∷ 3 ∷ 4 ∷ []) 2)))
    × (m.running ≡ 0)
poll_all_refines_example =
    poll_all_refines countdown 7 place_context poller poller_world fields stack abort_hook 90048
      24512 90000 fits refl (omega arith) 4 2 (1 ∷ 2 ∷ 3 ∷ 4 ∷ []) results poller_panics
      (omega arith)
