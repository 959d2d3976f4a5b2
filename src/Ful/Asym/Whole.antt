-- ===== src/Ful/Asym/Whole.antt =====
-- The life of a generator on an allocated stack: allocation, creation, the calls, and the end.
use unico.Common.{ℕ, ◌≡◌, ◌≢◌, ◌∙◌, ap, Option, some, List, ◌∷◌, ok}
use unico.Layout.{Layout, IsValid}
use unico.Context.Machine.{Machine, Reaches}
use unico.Stack.{Stack, Heap, Block, allocate}
use unico.Stack.Ownership.{allocate-Allocated, Allocated, drop-Allocated}
use unico.Ful.Raw.{TaskLayouts, placed, place}
use unico.Ful.Effect.{Co, Payload, M}
use unico.Ful.Effect.Steps.{at}
use unico.Ful.Asym.{Cell}
use unico.Ful.Asym.Spec.{Body, Reply, Generator, suspended, over, drive_spec}
use unico.Ful.Asym.Cycle.{GWorld, GProgram}
use unico.Ful.Asym.Memory.{final_spec}
use unico.Ful.Asym.Freed.{heap_after, generate_frees}
use unico.Ful.Asym.Create.{generate}

-- The blocks that are live: the generator's own is, until it is over.
abbrev pub blocks_after : {P Y R C : Type 0} → Block → List Block → Generator P Y R C → List Block
blocks_after block before (suspended g) = block ∷ before
blocks_after block before over = before

pub heap_after-blocks_after :
    {P Y R C : Type 0} (block : Block) (bs : List Block) (h d : Heap) (s : Generator P Y R C)
    → h.blocks ≡ block ∷ bs
    → d.blocks ≡ bs
    → (heap_after h d s).blocks ≡ blocks_after block bs s
heap_after-blocks_after block bs h d (suspended g) p q = p
heap_after-blocks_after block bs h d over p q = q

module _ {P Y R C U : Type 0} (closure : Layout) (find_block : List Block → Layout → Option ℕ)
    (context_at : ℕ → ℕ → Option ℕ) (m : Machine (GWorld P Y R C U) (Payload P))
    (w : GWorld P Y R C U) (ls : TaskLayouts) (hook : Payload P → M P (Cell P Y R C) U Co)
    (body : R → Body P Y R C) where
  -- What a caller finds who drives a generator with `rs` on the stack of the block `block`, which is
  -- live beside the blocks of the first heap.
  pub record Lived (block : Block) (heap : Heap) (stack : Stack) (rs : List R)
      (k : Option (List (Reply P Y C)) → GProgram P Y R C U) (h : Payload P → GProgram P Y R C U)
      : Type 0 where
    pub machine : Machine (GWorld P Y R C U) (Payload P)
    pub reaches :
        Reaches context_at
          (at m (record w { heap = heap }) (generate ls stack hook body rs k h))
          machine
    pub code_eq : machine.code ≡ k (some (drive_spec rs (suspended body)))
    pub blocks_eq :
        machine.world.heap.blocks
        ≡ blocks_after block w.heap.blocks (final_spec rs (suspended body))

  -- On a stack that was just allocated, which holds the coroutine's record and the context, a caller
  -- that creates and drives a generator, whose return type has no destructor, gets the replies of the specification, and finds the blocks
  -- that were live before the allocation, and the generator's own exactly while it is not over.
  pub allocated-Lived :
      (layout : Layout) (stack : Stack) (heap : Heap) (p rest cx : ℕ)
      → IsValid closure
      → IsValid layout
      → allocate closure find_block w.heap layout ≡ ok (stack, heap)
      → place ls stack.pointer stack.layout ≡ placed p rest
      → context_at stack.pointer rest ≡ some cx
      → cx ≢ m.running
      → (rs : List R) (k : Option (List (Reply P Y C)) → GProgram P Y R C U)
        (h : Payload P → GProgram P Y R C U)
      → (block : Block) × Lived block heap stack rs k h
  allocated-Lived layout stack heap p rest cx c v e fits accepted new rs k h =
      let a : Allocated closure find_block w.heap layout stack heap =
        allocate-Allocated closure find_block w.heap layout stack heap c v e in
      let (d, f, b) = drop-Allocated closure find_block w.heap layout stack heap a in
      let (m', q, l, z) =
        generate_frees context_at m (record w { heap = heap }) ls stack hook body p rest cx fits
          accepted new rs d k h f in
      (
        a.block,
        record {
          machine = m';
          reaches = q;
          code_eq = l;
          blocks_eq =
              ap (λ (x : Heap). x.blocks) z
              ∙ heap_after-blocks_after a.block w.heap.blocks heap d
                  (final_spec rs (suspended body)) a.blocks_eq b;
        },
      )
