-- ===== src/Examples/Turns.antt =====
-- A symmetric coroutine that counts, on a machine with one running stack.
use unico.Common.{
  ◌-◌, if◌then◌else◌, ℕ, ◌+◌, ◌≡◌, refl, arith, false, leb, Option, none, some, [], ◌∷◌,
}
use unico.Common.Words.{align_down}
use unico.Context.Machine.{Machine, stop, finished, uncaught}
use unico.Stack.{Stack, Heap, default_layout}
use unico.Stack
use unico.Ful.Raw.{TaskLayouts, placed, place}
use unico.Ful.Effect.{Payload, World, Program}
use unico.Ful.Effect.Steps.{at}
use unico.Ful.Coroutine.{Built, built, abort_hook}
use unico.Ful.Sym.Script.{Script, exits, turns, state_after, spawn_and_use, callcc_and_use}
use unico.Ful.Sym.Lives.{Used}
use unico.Ful.Sym.Created.{spawn_and_use-Used, callcc_and_use-Used}

abbrev W : Type 0
W = World (Unit {0}) ℕ

abbrev heap : Heap
heap = record { blocks = (65536, default_layout) ∷ []; droppers = λ _. none }

abbrev no_blocks : Heap
no_blocks = record heap { blocks = [] }

abbrev world : W
world = record {
  heap = heap;
  tasks = λ _. none;
  cells = λ _. none;
  next_cell = 1;
  faulted = false;
  user_state = 0;
}

abbrev machine : Machine W (Payload ℕ)
machine = record { conts = λ _. none; running = 0; world = world; code = stop finished }

abbrev place_context : ℕ → ℕ → Option ℕ
place_context base len = if leb 1024 len then some (base + len - 48) else none

abbrev stack : Stack
stack = record { pointer = 65536; layout = default_layout; drop_fn = Stack.deallocate }

abbrev fields : TaskLayouts
fields = record {
  layout = record { size = 64; align = 8 };
  offset_stack = 0;
  offset_func = 32;
  offset_hook = 64;
}

fits : place fields 65536 default_layout ≡ placed 90048 24512
unfolding place align_down
fits = refl

abbrev counter : Script ℕ
counter = turns (λ n. n + 1) (turns (λ n. n + 1) (turns (λ n. n + 1) exits))

abbrev goes_on : Built (Unit {0}) → Program ℕ (Unit {0}) ℕ
goes_on b = stop finished

abbrev panics : Payload ℕ → Program ℕ (Unit {0}) ℕ
panics e = stop (uncaught e)

-- All of its turns are used, and it exits.
spawn_and_use-Used_example :
    Used place_context
      (at machine world (spawn_and_use fields stack abort_hook counter 4 goes_on panics))
      (goes_on (built tt))
      0
      no_blocks
      (state_after 4 counter 0)
      false
unfolding Stack.drop Stack.deallocate
spawn_and_use-Used_example =
    spawn_and_use-Used place_context machine world fields stack abort_hook counter 90048 24512 90000
      fits refl (omega arith) 4 no_blocks goes_on panics refl

counted : state_after 4 counter 0 ≡ 3
unfolding state_after
counted = refl

-- It is dropped after two turns.
callcc_and_use-Used_example :
    Used place_context
      (at machine world (callcc_and_use fields stack abort_hook counter 1 goes_on panics))
      (goes_on (built tt))
      0
      no_blocks
      (state_after 2 counter 0)
      false
unfolding Stack.drop Stack.deallocate
callcc_and_use-Used_example =
    callcc_and_use-Used place_context machine world fields stack abort_hook counter 90048 24512
      90000 fits refl (omega arith) 1 no_blocks goes_on panics refl

counted_twice : state_after 2 counter 0 ≡ 2
unfolding state_after
counted_twice = refl
