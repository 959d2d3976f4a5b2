-- ===== src/Stack/Pool.antt =====
-- Several stacks of one allocator, created and dropped in any order.
use unico.Common.{
  ◌%◌, panicked, alloc_error, sym, ok, ℕ, ◌<◌, ◌≡◌, subst, refl, Option, none, some, List, [], ◌∷◌,
  arith, inl, inr, Option-cases,
}
use mathlib.Core.Option
use unico.Layout.{IsValid, Layout}
use unico.Stack.{allocate, Stack, Heap, Block, dropper_in, drop, update}
use unico.Stack.Ownership.{execute_dropper-Owns, allocate_lem, Allocated, dropper_in_block}
use unico.Stack.Held.{
  ApartFrom, Pool, take_at, Op, create, drop_at, AllOwn, IsSound, AllOwn-write, Removed,
  take_at-Removed,
}

module _ (closure : Layout) where
  drop-IsSound :
      (p : Pool) (i : ℕ) {s : Stack} {rest : List Stack}
      → 0 < closure.size
      → IsSound closure p
      → take_at i p.stacks ≡ some (s, rest)
      → (h : Heap) × (drop s p.heap ≡ some h) × IsSound closure (record { heap = h; stacks = rest })
  drop-IsSound p i {s} {rest} z v e =
      let m : Removed closure p.heap s rest p.heap.blocks =
        take_at-Removed closure p.heap i p.stacks p.heap.blocks z v.apart v.owned e in
      (
        after m.rest,
        execute_dropper-Owns closure m.owns m.removed,
        record {
          apart = m.disjoint;
          owned =
              AllOwn-write closure p.heap (after m.rest) m.block (dropper_in s.pointer s.layout)
                rest m.rest z (dropper_in_block m.owns z).0 (dropper_in_block m.owns z).1
                (λ q n. ground arith) m.apart m.kept;
        },
      )
    where
      after : List Block → Heap
      after bs = record {
        blocks = bs;
        droppers = update p.heap.droppers (dropper_in s.pointer s.layout) none;
      }

module _ (closure : Layout) (find_block : List Block → Layout → Option ℕ) where
  -- A client's step: the calls of `allocate` and `drop`; `none` is undefined behaviour or a panic.
  pub step : Pool → Op → Option Pool
  step p (create layout) = elim (allocate closure find_block p.heap layout) [
    | ok (s, h) ↦ some (record { heap = h; stacks = s ∷ p.stacks })
    | alloc_error ↦ some p
    | panicked ↦ none
  ]
  step p (drop_at i) = elim (take_at i p.stacks) [
    | none ↦ some p
    | some (s, rest) ↦ Option.map (λ h. record { heap = h; stacks = rest }) (drop s p.heap)
  ]

  pub run : Pool → List Op → Option Pool
  run p [] = some p
  run p (o ∷ ops) = elim (step p o) [ none ↦ none | some q ↦ run q ops ]

-- The layouts that are asked for are valid, and aligned for the closure as well.
abbrev pub AllValid : Layout → List Op → Type 0
AllValid closure [] = Unit
AllValid closure (create layout ∷ ops) =
    (IsValid layout × (layout.align % closure.align ≡ 0)) × AllValid closure ops
AllValid closure (drop_at i ∷ ops) = AllValid closure ops

abbrev pub empty : Pool
empty = record { heap = record { blocks = []; droppers = λ _. none }; stacks = [] }

-- The allocator's documented behaviour: a block that it hands out overlaps no live one, and is aligned
-- as it is asked to be.
module _ (closure : Layout) (find_block : List Block → Layout → Option ℕ)
    (find_apart : (bs : List Block) (l : Layout) (p : ℕ)
      → find_block bs l ≡ some p
      → ApartFrom (p, l) bs)
    (find_aligned : (bs : List Block) (l : Layout) (p : ℕ)
      → find_block bs l ≡ some p
      → p % l.align ≡ 0)
    (c : IsValid closure) (z : 0 < closure.size) where
  create-IsSound :
      (p : Pool) (layout : Layout)
      → IsValid layout × (layout.align % closure.align ≡ 0)
      → IsSound closure p
      → (q : Pool) × (step closure find_block p (create layout) ≡ some q) × IsSound closure q
  unfolding step
  create-IsSound p layout l v =
      elim (allocate_lem closure find_block p.heap layout c l.0 l.1 find_aligned) [
        | inl e ↦ (p, rw (e, step) refl, v)
        | inr (s, h, e, a) ↦
            (record { heap = h; stacks = s ∷ p.stacks }, rw (e, step) refl, grown s h a)
      ]
    where
      grown :
          (s : Stack) (h : Heap)
          → Allocated closure find_block p.heap layout s h
          → IsSound closure (record { heap = h; stacks = s ∷ p.stacks })
      grown s h a =
          let d : ApartFrom a.block p.heap.blocks =
            find_apart p.heap.blocks a.block.1 a.block.0 a.found in
          record {
            apart = rw a.blocks_eq (d, v.apart);
            owned = subst (AllOwn closure h (s ∷ p.stacks)) (sym a.blocks_eq) (
              a.owns,
              AllOwn-write closure p.heap h a.block (dropper_in s.pointer s.layout) p.stacks
                  p.heap.blocks z (dropper_in_block a.owns z).0 (dropper_in_block a.owns z).1
                  a.others d v.owned,
            );
          }

  step-IsSound :
      (p : Pool) (o : Op)
      → AllValid closure (o ∷ [])
      → IsSound closure p
      → (q : Pool) × (step closure find_block p o ≡ some q) × IsSound closure q
  unfolding step
  step-IsSound p (create layout) l v = create-IsSound p layout l.0 v
  step-IsSound p (drop_at i) l v = elim (Option-cases (take_at i p.stacks)) [
    | inl e ↦ (p, rw (e, step) refl, v)
    | inr (r, e) ↦
        let (h, f, w) = drop-IsSound closure p i z v e in
        (record { heap = h; stacks = r.1 }, rw (e, step, f) refl, w)
  ]

  -- With an allocator whose blocks overlap no live block and are aligned as asked, and a closure that is
  -- not empty, any sequence of allocations with valid layouts whose alignment the closure's divides, and
  -- of drops, runs from a sound pool without undefined behaviour or a panic, and leaves a sound pool: the live blocks are disjoint, and are those of the stacks held.
  pub run-IsSound :
      (ops : List Op) (p : Pool)
      → AllValid closure ops
      → IsSound closure p
      → (q : Pool) × (run closure find_block p ops ≡ some q) × IsSound closure q
  unfolding run
  run-IsSound [] p l v = (p, refl, v)
  run-IsSound (create layout ∷ ops) p l v =
      let (q, e, w) = step-IsSound p (create layout) (l.0, tt) v in
      rw (e, run) (run-IsSound ops q l.1 w)
  run-IsSound (drop_at i ∷ ops) p l v =
      let (q, e, w) = step-IsSound p (drop_at i) tt v in rw (e, run) (run-IsSound ops q l w)
