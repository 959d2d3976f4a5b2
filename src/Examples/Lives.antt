-- ===== src/Examples/Lives.antt =====
-- A generator on a stack from an allocator with one place, until it panics.
use unico.Common.{
  ℕ, ◌+◌, ◌-◌, ◌≡◌, refl, arith, false, Option, none, some, List, [], ◌∷◌, if◌then◌else◌, leb, ok,
}
use unico.Common.Words.{align_down, is_power_of_two, checked_sub}
use unico.Layout.{Layout, IsValid, from_size_align, pad_to_align, round_up}
use unico.Context.Machine.{Machine, stop, finished, uncaught}
use unico.Stack.Ownership.{default_layout-IsValid}
use unico.Stack.{
  Stack, Heap, Block, default_layout, allocate, execute_dropper, write_dropper, layouts, dropper_in,
  new,
}
use unico.Stack
use unico.Ful.Raw.{TaskLayouts, placed, place}
use unico.Ful.Effect.{Payload}
use unico.Ful.Coroutine.{abort_hook}
use unico.Ful.Asym.Spec.{Body, yields, finishes, Reply}
use unico.Ful.Asym.Cycle.{GWorld, GProgram}
use unico.Ful.Asym.Whole.{Lived, allocated-Lived}

abbrev U : Type 0
U = Unit {0}

abbrev W : Type 0
W = GWorld ℕ ℕ ℕ ℕ U

-- The closure is two words.
abbrev pub closure : Layout
closure = record { size = 16; align = 8 }

pub closure-IsValid : IsValid closure
closure-IsValid = record { aligned = (3, omega arith, refl); fits = omega arith }

abbrev pub find_block : List Block → Layout → Option ℕ
find_block bs l = some 65536

abbrev world : W
world = record {
  heap = record { blocks = []; droppers = λ _. none };
  tasks = λ _. none;
  cells = λ _. none;
  next_cell = 1;
  faulted = false;
  user_state = tt;
}

abbrev machine : Machine W (Payload ℕ)
machine = record { conts = λ _. none; running = 0; world = world; code = stop finished }

abbrev pub place_context : ℕ → ℕ → Option ℕ
place_context base len = if leb 1024 len then some (base + len - 48) else none

abbrev pub fields : TaskLayouts
fields = record {
  layout = record { size = 64; align = 8 };
  offset_stack = 0;
  offset_func = 32;
  offset_hook = 64;
}

abbrev body : ℕ → Body ℕ ℕ ℕ ℕ
body r = yields (r + r) (λ s. finishes s)

-- The stack is two words smaller than its block, and the closure stands behind it.
abbrev pub stack : Stack
stack = record {
  pointer = 65536;
  layout = record { size = 24560; align = 4096 };
  drop_fn = execute_dropper closure;
}

abbrev pub heap : Heap
heap = record {
  blocks = (65536, default_layout) ∷ [];
  droppers =
      Stack.update (λ _. none) 90096
        (some (record { allocated = default_layout; returned = stack.layout }));
}

pub allocates : allocate closure find_block world.heap default_layout ≡ ok (stack, heap)
unfolding allocate layouts pad_to_align from_size_align align_down is_power_of_two write_dropper
    dropper_in new round_up checked_sub
allocates = refl

pub fits : place fields 65536 stack.layout ≡ placed 90032 24496
unfolding place align_down
fits = refl

abbrev results : Option (List (Reply ℕ ℕ ℕ)) → GProgram ℕ ℕ ℕ ℕ U
results xs = stop finished

abbrev fails : Payload ℕ → GProgram ℕ ℕ ℕ ℕ U
fails e = stop (uncaught e)

allocated-Lived_example :
    (block : Block) × Lived closure find_block place_context machine world fields abort_hook body
      block heap stack
      (5 ∷ 6 ∷ [])
      results
      fails
allocated-Lived_example =
    allocated-Lived closure find_block place_context machine world fields abort_hook body
      default_layout stack heap 90032 24496 89984 closure-IsValid default_layout-IsValid allocates
      fits refl (omega arith) (5 ∷ 6 ∷ []) results fails
