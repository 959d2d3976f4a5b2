-- ===== src/Future/Awaited.antt =====
-- `sync_with` and `into_future`: a stackful future on a stack of the global allocator, from its
-- creation to the end.
use unico.Common.{
  false, ℕ, ◌≤◌, ◌≡◌, ◌≢◌, ◌∙◌, refl, sym, ap, subst, ok, Option, some, List, length,
}
use unico.Layout.{Layout, IsValid}
use unico.Context.Machine.{Machine, Reaches, Reaches-trans}
use unico.Stack.{Stack, Heap, Block, allocate, from_alloc, from_alloc_layout, default_layout}
use unico.Stack.Ownership.{default_layout-IsValid, allocate-Allocated, Allocated, drop-Allocated}
use unico.Ful.Raw.{TaskLayouts, placed, place, from_ptr}
use unico.Ful.Effect.{Payload, M, ◌>>=◌}
use unico.Ful.Effect.Steps.{at, get-Reaches, put-Reaches}
use unico.Ful.Coroutine.{abort_hook, Built}
use unico.Ful.Builder.{new, global_stack, expect}
use unico.Ful.Asym.{Cell, Gn, build_unchecked}
use unico.Ful.Asym.Spec.{Reply, suspended}
use unico.Ful.Asym.Cycle.{GWorld, GProgram}
use unico.Ful.Asym.Memory.{Handles, memory_of, Memory, final_spec}
use unico.Ful.Asym.Drive.{drive, drive_refines}
use unico.Ful.Asym.Create.{Created, build_unchecked-Created}
use unico.Ful.Asym.Freed.{Memory-heap_after}
use unico.Ful.Asym.Whole.{blocks_after, heap_after-blocks_after}
use unico.Future.{Poll, build, wait_with}
use unico.Future.Local.{sync_with, into_future}
use unico.Future.Polls.{pure_polls, polls, awaits, awaits-polls, same_main}

module _ {P W T F U : Type 0} (poll_future : W → F → Poll T × F) (exhausted : P) where
  -- A caller that makes a future of a function that waits on `f`, and then resumes its generator with
  -- one waker after another, as `poll` does.
  abbrev pub await_all :
      ℕ
      → F
      → TaskLayouts
      → M P (Cell P (Unit {0}) W T) U Stack
      → List W
      → M P (Cell P (Unit {0}) W T) U (List (Reply P (Unit {0}) T))
  await_all n f ls global rs = do
    gn ← into_future false ls global (sync_with (wait_with (pure_polls poll_future) exhausted n f))
    drive rs gn

  module _ (closure : Layout) (find_block : List Block → Layout → Option ℕ)
      (context_at : ℕ → ℕ → Option ℕ) (m : Machine (GWorld P (Unit {0}) W T U) (Payload P))
      (w : GWorld P (Unit {0}) W T U) (ls : TaskLayouts) (n : ℕ) (f : F) where
    -- What the caller finds after so many calls: the polls of `f`, and the blocks that were live before,
    -- with the future's own while it is not over.
    pub record Awaited (block : Block) (rs : List W)
        (k : List (Reply P (Unit {0}) T) → GProgram P (Unit {0}) W T U)
        (h : Payload P → GProgram P (Unit {0}) W T U) : Type 0 where
      pub machine : Machine (GWorld P (Unit {0}) W T U) (Payload P)
      pub reaches :
          Reaches context_at
            (at m w (await_all n f ls (global_stack closure find_block) rs k h))
            machine
      pub code_eq : machine.code ≡ k (polls poll_future exhausted rs f)
      pub running_eq : machine.running ≡ m.running
      pub blocks_eq :
          machine.world.heap.blocks
          ≡ blocks_after block w.heap.blocks
              (final_spec rs (suspended (awaits poll_future exhausted n f)))

    module _ (stack : Stack) (heap : Heap) (p rest cx : ℕ)
        (allocated : allocate closure find_block w.heap default_layout ≡ ok (stack, heap))
        (fits : place ls stack.pointer stack.layout ≡ placed p rest)
        (accepted : context_at stack.pointer rest ≡ some cx) (new_cx : cx ≢ m.running) where
      abbrev grown : GWorld P (Unit {0}) W T U
      grown = record w { heap = heap }

      -- The creation with a main function, from the allocation on.
      abbrev creating :
          (ℕ → W → M P (Cell P (Unit {0}) W T) U T)
          → (Built Gn → GProgram P (Unit {0}) W T U)
          → (Payload P → GProgram P (Unit {0}) W T U)
          → GProgram P (Unit {0}) W T U
      creating g = build_unchecked false ls stack abort_hook g

      from_alloc_lem : from_alloc closure find_block w.heap ≡ ok (stack, heap)
      unfolding from_alloc from_alloc_layout
      from_alloc_lem = rw (allocated, from_alloc, from_alloc_layout) refl

      allocation-Reaches :
          (rs : List W) (k : List (Reply P (Unit {0}) T) → GProgram P (Unit {0}) W T U)
          (h : Payload P → GProgram P (Unit {0}) W T U)
          → Reaches context_at
              (at m w (await_all n f ls (global_stack closure find_block) rs k h))
              (at m grown (
                creating
                  (λ self r.
                    wait_with
                      (pure_polls poll_future)
                      exhausted
                      n
                      f
                      (record { y = self; waker = r }))
                  (λ b. expect b (λ gn. drive rs gn k h) h)
                  h))
      unfolding into_future sync_with global_stack new build
      allocation-Reaches rs k h =
          Reaches-trans context_at (get-Reaches context_at m w _)
            (rw from_alloc_lem (put-Reaches context_at m w grown _))

      created :
          (K : Built Gn → GProgram P (Unit {0}) W T U) (h : Payload P → GProgram P (Unit {0}) W T U)
          → Created false context_at m grown ls stack abort_hook
              (awaits poll_future exhausted n f)
              p
              rest
              cx
              fits
              accepted
              new_cx
              K
              h
      created K h =
          build_unchecked-Created false context_at m grown ls stack abort_hook
            (awaits poll_future exhausted n f) p rest cx fits accepted new_cx K h

      -- What the caller does after the creation.
      abbrev after_creation :
          List W
          → (List (Reply P (Unit {0}) T) → GProgram P (Unit {0}) W T U)
          → (Payload P → GProgram P (Unit {0}) W T U)
          → Built Gn
          → GProgram P (Unit {0}) W T U
      after_creation rs k h b = expect b (λ gn. drive rs gn k h) h

      creation-Reaches :
          (rs : List W) (k : List (Reply P (Unit {0}) T) → GProgram P (Unit {0}) W T U)
          (h : Payload P → GProgram P (Unit {0}) W T U)
          → Reaches context_at
              (at m w (await_all n f ls (global_stack closure find_block) rs k h))
              (created (after_creation rs k h) h).machine
      creation-Reaches rs k h = Reaches-trans context_at (allocation-Reaches rs k h) (
          subst
            (λ (g : ℕ → W → M P (Cell P (Unit {0}) W T) U T).
              Reaches context_at (at m grown (creating g (after_creation rs k h) h))
                (created (after_creation rs k h) h).machine)
            (same_main poll_future exhausted n f) (created (after_creation rs k h) h).reaches)

      -- A future made by `sync_with` and `into_future` from a function that waits on `f`, whose polls change
      -- it alone, with an output without a destructor, on a stack of the
      -- default layout that is allocated for it, which holds the coroutine's record and the context: with
      -- as many rounds of the wait as polls, the caller gets on its own stack what the polls of `f` give,
      -- and finds the blocks that were live before, and the future's own exactly while it is not over.
      pub into_future-Awaited :
          (rs : List W) (k : List (Reply P (Unit {0}) T) → GProgram P (Unit {0}) W T U)
          (h : Payload P → GProgram P (Unit {0}) W T U)
          → IsValid closure
          → length rs ≤ n
          → (block : Block) × Awaited block rs k h
      into_future-Awaited rs k h c l =
          let a : Allocated closure find_block w.heap default_layout stack heap =
            allocate-Allocated closure find_block w.heap default_layout stack heap c
              default_layout-IsValid allocated in
          let (d, freed, b) =
            drop-Allocated closure find_block w.heap default_layout stack heap a in
          let cr : Created false context_at m grown ls stack abort_hook
              (awaits poll_future exhausted n f) p rest cx fits accepted new_cx
              (after_creation rs k h) h =
            created (after_creation rs k h) h in
          let (m', q, e, r, mem) =
            drive_refines context_at (from_ptr ls p).stack rs cr.machine cr.gn
              (suspended (awaits poll_future exhausted n f)) k h cr.represents in
          (
            a.block,
            record {
              machine = m';
              reaches = Reaches-trans context_at (creation-Reaches rs k h) (
                  subst
                    (λ (x : GProgram P (Unit {0}) W T U).
                      Reaches context_at (at cr.machine cr.machine.world x) m')
                    (sym cr.code_eq) q);
              code_eq = e ∙ ap k (awaits-polls poll_future exhausted n rs f l);
              running_eq = r ∙ cr.running_eq;
              blocks_eq =
                  ap (λ (x : Heap). x.blocks)
                    (Memory-heap_after (from_ptr ls p).stack w.tasks heap d stack
                      (awaits poll_future exhausted n f)
                      (final_spec rs (suspended (awaits poll_future exhausted n f)))
                      (memory_of m'.world) freed
                      (subst
                        (λ (x : Handles × Heap).
                          Memory (from_ptr ls p).stack x
                            (suspended (awaits poll_future exhausted n f))
                            (final_spec rs (suspended (awaits poll_future exhausted n f)))
                            (memory_of m'.world))
                        cr.memory_eq mem))
                  ∙ heap_after-blocks_after a.block w.heap.blocks heap d
                      (final_spec rs (suspended (awaits poll_future exhausted n f))) a.blocks_eq b;
            },
          )
