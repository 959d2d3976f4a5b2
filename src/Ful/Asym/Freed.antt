-- ===== src/Ful/Asym/Freed.antt =====
-- The block of a generator's stack, from the creation of the generator on.
use unico.Common.{ℕ, ◌≡◌, ◌≢◌, ◌∙◌, refl, ap, Option, some, List}
use unico.Context.Machine.{update, Machine, Reaches}
use unico.Stack.{Stack, Heap}
use unico.Stack
use unico.Ful.Raw.{TaskLayouts, from_ptr, placed, place}
use unico.Ful.Effect.{Co, Payload, M}
use unico.Ful.Effect.Steps.{update_self, at}
use unico.Ful.Asym.{Cell}
use unico.Ful.Asym.Spec.{Body, Reply, Generator, suspended, over, drive_spec}
use unico.Ful.Asym.Cycle.{GWorld, GProgram}
use unico.Ful.Asym.Memory.{Handles, memory_of, freed, Memory, final_spec}
use unico.Ful.Asym.Create.{generate, generate_refines}

-- The heap that a generator leaves: that with the stack dropped, once it is over.
abbrev pub heap_after : {P Y R C : Type 0} → Heap → Heap → Generator P Y R C → Heap
heap_after before dropped (suspended g) = before
heap_after before dropped over = dropped

freed-heap :
    (slot : ℕ) (handles : Handles) (heap dropped : Heap) (stack : Stack)
    → Stack.drop stack heap ≡ some dropped
    → (freed slot (update handles slot (some stack), heap)).1 ≡ dropped
freed-heap slot handles heap dropped stack e =
    rw (update_self handles slot (some stack), freed, e) refl

pub Memory-heap_after :
    {P Y R C : Type 0} (slot : ℕ) (handles : Handles) (heap dropped : Heap) (stack : Stack)
    (g : R → Body P Y R C) (s : Generator P Y R C) (m : Handles × Heap)
    → Stack.drop stack heap ≡ some dropped
    → Memory slot (update handles slot (some stack), heap) (suspended g) s m
    → m.1 ≡ heap_after heap dropped s
Memory-heap_after slot handles heap dropped stack g (suspended g') m e f =
    ap (λ (x : Handles × Heap). x.1) f
Memory-heap_after slot handles heap dropped stack g over m e f =
    ap (λ (x : Handles × Heap). x.1) f ∙ freed-heap slot handles heap dropped stack e

module _ {P Y R C U : Type 0} (context_at : ℕ → ℕ → Option ℕ)
    (m : Machine (GWorld P Y R C U) (Payload P)) (w : GWorld P Y R C U) (ls : TaskLayouts)
    (stack : Stack) (hook : Payload P → M P (Cell P Y R C) U Co) (body : R → Body P Y R C)
    (p rest cx : ℕ) (fits : place ls stack.pointer stack.layout ≡ placed p rest)
    (accepted : context_at stack.pointer rest ≡ some cx) (new : cx ≢ m.running) where
  -- A generator, whose return type has no destructor, that was created on a stack which can be dropped, and driven with a list of values, has
  -- its stack's block freed, once, if it completed or panicked, and otherwise the heap is as before.
  pub generate_frees :
      (rs : List R) (dropped : Heap) (k : Option (List (Reply P Y C)) → GProgram P Y R C U)
      (h : Payload P → GProgram P Y R C U)
      → Stack.drop stack w.heap ≡ some dropped
      → (m' : Machine (GWorld P Y R C U) (Payload P)) × Reaches context_at
          (at m w (generate ls stack hook body rs k h))
          m'
        × (m'.code ≡ k (some (drive_spec rs (suspended body))))
        × (m'.world.heap ≡ heap_after w.heap dropped (final_spec rs (suspended body)))
  generate_frees rs dropped k h e =
      let (m', q, c, r, f) =
        generate_refines context_at m w ls stack hook body p rest cx fits accepted new rs k h in
      (
        m',
        q,
        c,
        Memory-heap_after (from_ptr ls p).stack w.tasks w.heap dropped stack body
            (final_spec rs (suspended body)) (memory_of m'.world) e f,
      )
