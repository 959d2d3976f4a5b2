-- ===== src/Examples/Generators.antt =====
-- A generator that doubles numbers, on a machine with one running stack.
use unico.Common.{
  false, ◌-◌, if◌then◌else◌, ℕ, ◌+◌, ◌≡◌, refl, arith, Bool, true, leb, Option, none, some, List,
  [], ◌∷◌,
}
use unico.Context.Machine.{update, Machine, Reaches, stop, finished, uncaught}
use unico.Common.Words.{align_down}
use unico.Stack.{Stack, Heap, default_layout}
use unico.Stack
use unico.Ful.Raw.{from_ptr, TaskLayouts, placed, place}
use unico.Ful.Effect.{Co, Payload, message}
use unico.Ful.Effect.Steps.{at}
use unico.Ful.Coroutine.{Built, stack_too_small, abort_hook, new_on_imp}
use unico.Ful.Coroutine.Failure.{Refusal, by_size, new_on_imp-failed}
use unico.Ful.Asym.{resume_gn}
use unico.Ful.Asym.Spec.{
  finishes, answer, Body, yields, panics, Reply, suspended, drive_spec, resume_spec,
}
use unico.Ful.Asym.Cycle.{GWorld, GProgram}
use unico.Ful.Asym.Memory.{memory_of, Memory, final_spec}
use unico.Ful.Asym.Represents.{Served}
use unico.Ful.Asym.Refine.{resume_gn_refines}
use unico.Ful.Asym.Dropped.{DroppedGn, drop_gn, drop_gn-DroppedGn}
use unico.Ful.Asym.Freed.{heap_after}
use unico.Ful.Asym.Create.{Created, build_unchecked-Created, generate, generate_refines}

abbrev U : Type 0
U = Unit {0}

abbrev W : Type 0
W = GWorld ℕ ℕ ℕ ℕ U

abbrev heap : Heap
heap = record { blocks = (65536, default_layout) ∷ []; droppers = λ _. none }

abbrev world : W
world = record {
  heap = heap;
  tasks = λ _. none;
  cells = λ _. none;
  next_cell = 1;
  faulted = Bool.false;
  user_state = tt;
}

abbrev machine : Machine W (Payload ℕ)
machine = record { conts = λ _. none; running = 0; world = world; code = stop finished }

abbrev context_at : ℕ → ℕ → Option ℕ
context_at base len = if leb 1024 len then some (base + len - 48) else none

-- Frees the whole block.
abbrev stack : Stack
stack = record { pointer = 65536; layout = default_layout; drop_fn = Stack.deallocate }

abbrev fields : TaskLayouts
fields = record {
  layout = record { size = 64; align = 8 };
  offset_stack = 0;
  offset_func = 32;
  offset_hook = 64;
}

abbrev body : ℕ → Body ℕ ℕ ℕ ℕ
body r = yields (r + r) (λ s. yields (s + s) (λ t. panics t))

fits : place fields 65536 default_layout ≡ placed 90048 24512
unfolding place align_down
fits = refl

abbrev main_returns : Option (List (Reply ℕ ℕ ℕ)) → GProgram ℕ ℕ ℕ ℕ U
main_returns xs = stop finished

abbrev main_panics : Payload ℕ → GProgram ℕ ℕ ℕ ℕ U
main_panics e = stop (uncaught e)

generate_refines_example :
    (m : Machine W (Payload ℕ)) × Reaches context_at
      (at machine world
        (generate fields stack abort_hook body (5 ∷ 6 ∷ 7 ∷ 8 ∷ []) main_returns main_panics))
      m
    × (m.code ≡ main_returns (some (drive_spec (5 ∷ 6 ∷ 7 ∷ 8 ∷ []) (suspended body))))
    × (m.running ≡ 0)
    × Memory
        (from_ptr fields 90048).stack
        (update world.tasks (from_ptr fields 90048).stack (some stack), heap)
        (suspended body)
        (final_spec (5 ∷ 6 ∷ 7 ∷ 8 ∷ []) (suspended body))
        (memory_of m.world)
generate_refines_example =
    generate_refines context_at machine world fields stack abort_hook body 90048 24512 90000 fits
      refl (omega arith) (5 ∷ 6 ∷ 7 ∷ 8 ∷ []) main_returns main_panics

abbrev no_blocks : Heap
no_blocks = record heap { blocks = [] }

-- The generator has panicked, so its block is freed.
ends_free : heap_after heap no_blocks (final_spec (5 ∷ 6 ∷ 7 ∷ 8 ∷ []) (suspended body)) ≡ no_blocks
unfolding resume_spec answer
ends_free = refl

-- The machine and the generator after the creation.
abbrev started :
    Created false context_at machine world fields stack abort_hook body 90048 24512 90000 fits refl
      (omega arith)
      (λ b. stop finished)
      main_panics
started =
    build_unchecked-Created false context_at machine world fields stack abort_hook body 90048 24512
      90000 fits refl (omega arith) (λ b. stop finished) main_panics

resume_gn_refines_example :
    Served false context_at
      (at started.machine started.machine.world
        (resume_gn started.gn 5 (λ _. stop finished) main_panics))
      started.machine.running
      (resume_spec (suspended body) 5).0
      (from_ptr fields 90048).stack
      (memory_of started.machine.world)
      (suspended body)
      (resume_spec (suspended body) 5).1
      (λ _. stop finished)
      main_panics
resume_gn_refines_example =
    resume_gn_refines context_at started.machine started.machine.world started.gn 5
      (λ _. stop finished) main_panics (from_ptr fields 90048).stack (suspended body)
      started.represents

drop_gn-DroppedGn_example :
    DroppedGn false context_at started.machine started.machine.world started.gn
      (from_ptr fields 90048).stack
      (λ _. stop finished)
      main_panics
      (suspended body)
      (at started.machine started.machine.world
        (drop_gn started.gn (λ _. stop finished) main_panics))
drop_gn-DroppedGn_example =
    drop_gn-DroppedGn false context_at started.machine started.machine.world started.gn
      (from_ptr fields 90048).stack (λ _. stop finished) main_panics (suspended body)
      started.represents

-- A record that does not fit.
abbrev huge : TaskLayouts
huge = record {
  layout = record { size = 65536; align = 8 };
  offset_stack = 0;
  offset_func = 32;
  offset_hook = 64;
}

huge-Refusal : Refusal context_at huge stack (stack_too_small huge.layout default_layout)
unfolding place
huge-Refusal = by_size huge.layout default_layout refl

abbrev built_returns : Built (Option Co) → GProgram ℕ ℕ ℕ ℕ U
built_returns b = stop finished

new_on_imp-failed_example :
    Reaches context_at
      (at machine world
        (new_on_imp huge true stack abort_hook (λ _. abort_hook message) built_returns main_panics))
      (at machine (record world { heap = record heap { blocks = [] } }) (stop finished))
unfolding Stack.drop Stack.deallocate
new_on_imp-failed_example =
    new_on_imp-failed context_at machine world huge true stack abort_hook (λ _. abort_hook message)
      (record heap { blocks = [] }) refl built_returns main_panics
      (stack_too_small huge.layout default_layout) huge-Refusal

-- A generator that returns its first value, of a type with a destructor.
abbrev returns_once : ℕ → Body ℕ ℕ ℕ ℕ
returns_once r = finishes r

abbrev owning :
    Created true context_at machine world fields stack abort_hook returns_once 90048 24512 90000
      fits refl
      (omega arith)
      (λ b. stop finished)
      main_panics
owning =
    build_unchecked-Created true context_at machine world fields stack abort_hook returns_once 90048
      24512 90000 fits refl (omega arith) (λ b. stop finished) main_panics
