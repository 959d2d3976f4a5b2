-- ===== src/Examples/Rounds.antt =====
-- Two tasks on a machine with one running stack: each adds to a number, and yields in between.
use unico.Common.{
  ◌-◌, if◌then◌else◌, ℕ, ◌+◌, ◌*◌, ◌≡◌, refl, arith, false, leb, Option, none, some, [], ◌∷◌,
}
use unico.Common.Words.{align_down}
use unico.Context.Machine.{stop, finished, uncaught}
use unico.Stack.{Stack, default_layout}
use unico.Stack
use unico.Ful.Raw.{TaskLayouts, place}
use unico.Ful.Effect.{Payload, World, Program}
use unico.Ful.Coroutine.{abort_hook}
use unico.Sched.Fifo.{Fifo, ends, steps, queued}
use unico.Sched.Fifo.Slice.{running}
use unico.Sched.Fifo.Freed.{Listed}
use unico.Sched.Fifo.Plan.{jobs, play}
use unico.Sched.Fifo.Whole.{Played}
use unico.Sched.Fifo.Spawned.{Birth, AreReady}
use unico.Sched.Fifo.Tasks.{entries, run_tasks, run_tasks-Played}

abbrev C : Type 0
C = Unit {0}

abbrev W : Type 0
W = World C (Fifo ℕ)

abbrev world : W
world = record {
  heap = record {
    blocks = (65536, default_layout) ∷ (131072, default_layout) ∷ [];
    droppers = λ _. none;
  };
  tasks = λ _. none;
  cells = λ _. none;
  next_cell = 1;
  faulted = false;
  user_state = record { queue = []; rest = 1 };
}

abbrev place_context : ℕ → ℕ → Option ℕ
place_context base len = if leb 1024 len then some (base + len - 48) else none

abbrev stack_at : ℕ → Stack
stack_at p = record { pointer = p; layout = default_layout; drop_fn = Stack.deallocate }

abbrev fields : TaskLayouts
fields = record {
  layout = record { size = 64; align = 8 };
  offset_stack = 0;
  offset_func = 32;
  offset_hook = 64;
}

abbrev adder : Birth ℕ C ℕ
adder = record {
  ls = fields;
  stack = stack_at 65536;
  hook = abort_hook;
  job = steps (λ n. n + 3) (steps (λ n. n + 5) ends);
  task = 90048;
  rest = 24512;
  cx = 90000;
}

abbrev doubler : Birth ℕ C ℕ
doubler = record {
  ls = fields;
  stack = stack_at 131072;
  hook = abort_hook;
  job = steps (λ n. n * 2) ends;
  task = 155584;
  rest = 24512;
  cx = 155536;
}

both_ready : AreReady place_context 0 [] (adder ∷ doubler ∷ [])
unfolding place align_down AreReady
both_ready = (refl, refl, omega arith, tt, (refl, refl, omega arith, (omega arith, tt), tt))

abbrev goes_on : Unit {0} → Program ℕ C (Fifo ℕ)
goes_on u = stop finished

abbrev panics : Payload ℕ → Program ℕ C (Fifo ℕ)
panics e = stop (uncaught e)

run_tasks-Played_example :
    Played 1 place_context 0
      (running
        (λ _. none)
        0
        (queued [] world)
        (run_tasks 1 4 (adder ∷ doubler ∷ []) goes_on panics))
      (goes_on tt)
      (play 3 (jobs (entries (adder ∷ doubler ∷ []))) 1)
      (λ slot. Listed slot (entries (adder ∷ doubler ∷ [])))
run_tasks-Played_example =
    run_tasks-Played 1 place_context 0 3 (adder ∷ doubler ∷ []) (λ _. none) world goes_on panics
      both_ready (omega arith)

-- The turns alternate: three is added, the sum is doubled, and five is added.
played : play 3 (jobs (entries (adder ∷ doubler ∷ []))) 1 ≡ 13
unfolding play
played = refl
