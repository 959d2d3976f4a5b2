-- ===== src/Ful/Asym/Memory.antt =====
-- What a call of `Gn::resume` does to the heap and to the stack handles in the coroutines' records: the
-- handle at `slot` is that of the generator's stack.
use unico.Common.{ℕ, ◌≡◌, refl, ap, ◌∙◌, inl, inr, Option, none, some, Option-cases, List, [], ◌∷◌}
use unico.Context.Machine.{update}
use unico.Stack.{Stack, Heap}
use unico.Stack
use unico.Ful.Effect.{World}
use unico.Ful.Coroutine.{release}
use unico.Ful.Asym.Spec.{
  Body, finishes, yields, panics, Generator, suspended, over, answer, resume_spec,
}

abbrev pub Handles : Type 0
Handles = ℕ → Option Stack

-- The stack handles and the heap.
abbrev pub memory_of : {Cell U : Type 0} → World Cell U → Handles × Heap
memory_of w = (w.tasks, w.heap)

-- The stack of the handle at `slot` is dropped.
abbrev pub freed : ℕ → Handles × Heap → Handles × Heap
freed slot m = elim (m.0 slot) [
  | none ↦ m
  | some s ↦ elim (Stack.drop s m.1) [ none ↦ m | some h ↦ (update m.0 slot none, h) ]
]

pub release-freed :
    {Cell U : Type 0} (slot : ℕ) (w : World Cell U)
    → memory_of (release slot w) ≡ freed slot (memory_of w)
release-freed slot w = elim (Option-cases (w.tasks slot)) [
  | inl e ↦ rw (e, release) refl
  | inr (s, e) ↦ elim (Option-cases (Stack.drop s w.heap)) [
    | inl f ↦ rw (e, f, release) refl
    | inr (h, f) ↦ rw (e, f, release) refl
  ]
]

module _ {P Y R C : Type 0} where
  -- A generator that ends frees its stack, and otherwise nothing changes.
  abbrev pub Memory :
      ℕ → Handles × Heap → Generator P Y R C → Generator P Y R C → Handles × Heap → Type 0
  Memory slot m (suspended g) over m' = m' ≡ freed slot m
  Memory slot m (suspended g) (suspended g') m' = m' ≡ m
  Memory slot m over s m' = m' ≡ m

  pub Memory-refl : (slot : ℕ) (m : Handles × Heap) (s : Generator P Y R C) → Memory slot m s s m
  Memory-refl slot m (suspended g) = refl
  Memory-refl slot m over = refl

  -- The generator after one value after another.
  abbrev pub final_spec : List R → Generator P Y R C → Generator P Y R C
  final_spec [] s = s
  final_spec (r ∷ rs) s = final_spec rs (resume_spec s r).1

  final_spec-over : (rs : List R) → final_spec rs over ≡ over
  unfolding resume_spec
  final_spec-over [] = refl
  final_spec-over (r ∷ rs) = final_spec-over rs

  -- From a generator that yielded on.
  Memory-yielded :
      (slot : ℕ) (m m₁ m' : Handles × Heap) (g g₁ : R → Body P Y R C) (s : Generator P Y R C)
      → m₁ ≡ m
      → Memory slot m₁ (suspended g₁) s m'
      → Memory slot m (suspended g) s m'
  Memory-yielded slot m m₁ m' g g₁ (suspended g₂) e f = f ∙ e
  Memory-yielded slot m m₁ m' g g₁ over e f = f ∙ ap (freed slot) e

  Memory-answer :
      (slot : ℕ) (m m₁ m' : Handles × Heap) (g : R → Body P Y R C) (b : Body P Y R C) (rs : List R)
      → Memory slot m (suspended g) (answer b).1 m₁
      → Memory slot m₁ (answer b).1 (final_spec rs (answer b).1) m'
      → Memory slot m (suspended g) (final_spec rs (answer b).1) m'
  unfolding answer
  Memory-answer slot m m₁ m' g (finishes c) rs e f = rw (final_spec-over rs) (f ∙ e)
  Memory-answer slot m m₁ m' g (panics p) rs e f = rw (final_spec-over rs) (f ∙ e)
  Memory-answer slot m m₁ m' g (yields y g₁) rs e f =
      Memory-yielded slot m m₁ m' g g₁ (final_spec rs (suspended g₁)) e f

  -- A call, and those after it.
  pub Memory-trans :
      (slot : ℕ) (m m₁ m' : Handles × Heap) (s : Generator P Y R C) (r : R) (rs : List R)
      → Memory slot m s (resume_spec s r).1 m₁
      → Memory slot m₁ (resume_spec s r).1 (final_spec rs (resume_spec s r).1) m'
      → Memory slot m s (final_spec (r ∷ rs) s) m'
  unfolding resume_spec
  Memory-trans slot m m₁ m' (suspended g) r rs e f = Memory-answer slot m m₁ m' g (g r) rs e f
  Memory-trans slot m m₁ m' over r rs e f = f ∙ e
