-- ===== src/Sched/Fifo/Freed.antt =====
-- The stacks of the tasks: each is in the queue with its task, or freed.
use unico.Common.{
  arith, subst, ℕ, ◌≡◌, ◌⊎◌, inl, inr, refl, true, none, Option-cases, List, [], ◌∷◌, ◌++◌,
}
use unico.Stack
use unico.Ful.Raw.{from_ptr}
use unico.Ful.Effect.{World}
use unico.Ful.Effect.Steps.{update_self}
use unico.Ful.Coroutine.{release}
use unico.Sched.Fifo.{Fifo, Job, ends, steps}
use unico.Sched.Fifo.Ring.{Entry}
use unico.Sched.Fifo.Slice.{put_back, world_after, with_job}
use unico.Sched.Fifo.Pass.{pass}

-- The stack handle at an address was taken and dropped, unless freed memory was used.
abbrev pub IsFreed : {Cell U : Type 0} → ℕ → World Cell U → Type 0
IsFreed slot w = (w.tasks slot ≡ none) ⊎ (w.faulted ≡ true)

module _ {Cell U : Type 0} where
  release-IsFreed : (slot : ℕ) (w : World Cell U) → IsFreed slot (release slot w)
  release-IsFreed slot w = elim (Option-cases (w.tasks slot)) [
    | inl q ↦ rw (release, q) (inr refl)
    | inr (s, q) ↦ elim (Option-cases (Stack.drop s w.heap)) [
      | inl d ↦ rw (release, q, d) (inr refl)
      | inr (h, d) ↦ rw (release, q, d) (inl (update_self w.tasks slot none))
    ]
  ]

  IsFreed-release :
      (slot other : ℕ) (w : World Cell U) → IsFreed slot w → IsFreed slot (release other w)
  IsFreed-release slot other w f = elim (Option-cases (w.tasks other)) [
    | inl q ↦ rw (release, q) (inr refl)
    | inr (s, q) ↦ elim (Option-cases (Stack.drop s w.heap)) [
      | inl d ↦ rw (release, q, d) (inr refl)
      | inr (h, d) ↦ rw (release, q, d) (ground (arith, f))
    ]
  ]

module _ {P Cell V : Type 0} where
  abbrev pub slot_of : Entry P Cell V → ℕ
  slot_of e = (from_ptr e.ls e.task).stack

  -- The address is that of the stack handle of one of the tasks.
  abbrev pub Listed : ℕ → List (Entry P Cell V) → Type 0
  Listed slot [] = ⊥
  Listed slot (e ∷ es) = (slot_of e ≡ slot) ⊎ Listed slot es

  Listed-append :
      (slot : ℕ) (xs ys : List (Entry P Cell V))
      → Listed slot xs ⊎ Listed slot ys
      → Listed slot (xs ++ ys)
  Listed-append slot [] ys (inl l) = elim l [ ]
  Listed-append slot [] ys (inr l) = l
  Listed-append slot (x ∷ xs) ys (inl (inl q)) = inl q
  Listed-append slot (x ∷ xs) ys (inl (inr l)) = inr (Listed-append slot xs ys (inl l))
  Listed-append slot (x ∷ xs) ys (inr l) = inr (Listed-append slot xs ys (inr l))

  -- The handle is with a task that is to have its turn, with one that had it, or freed.
  abbrev pub Kept : ℕ → List (Entry P Cell V) → List (Entry P Cell V) → World Cell (Fifo V) → Type 0
  Kept slot todo done w = Listed slot todo ⊎ Listed slot done ⊎ IsFreed slot w

  Kept-turn :
      (slot : ℕ) (e : Entry P Cell V) (j : Job V) (es done : List (Entry P Cell V))
      (w : World Cell (Fifo V))
      → Kept slot (e ∷ es) done w
      → Kept slot es (put_back done e j) (world_after e j w)
  Kept-turn slot e ends es done w (inl (inl q)) =
      inr (inr (subst (λ s. IsFreed s (release (slot_of e) w)) q (release-IsFreed (slot_of e) w)))
  Kept-turn slot e ends es done w (inl (inr l)) = inl l
  Kept-turn slot e ends es done w (inr (inl l)) = inr (inl l)
  Kept-turn slot e ends es done w (inr (inr f)) = inr (inr (IsFreed-release slot (slot_of e) w f))
  Kept-turn slot e (steps g j) es done w (inl (inl q)) =
      inr (inl (Listed-append slot done (with_job e j ∷ []) (inr (inl q))))
  Kept-turn slot e (steps g j) es done w (inl (inr l)) = inl l
  Kept-turn slot e (steps g j) es done w (inr (inl l)) =
      inr (inl (Listed-append slot done (with_job e j ∷ []) (inl l)))
  Kept-turn slot e (steps g j) es done w (inr (inr f)) = inr (inr f)

  -- A turn of every task in the queue keeps track of the handles.
  pub pass-Kept :
      (slot : ℕ) (es done : List (Entry P Cell V)) (w : World Cell (Fifo V))
      → Kept slot es done w
      → Listed slot (pass es done w).0 ⊎ IsFreed slot (pass es done w).1
  unfolding pass
  pass-Kept slot [] done w (inl l) = elim l [ ]
  pass-Kept slot [] done w (inr k) = k
  pass-Kept slot (e ∷ es) done w k =
      pass-Kept slot es (put_back done e e.job) (world_after e e.job w)
        (Kept-turn slot e e.job es done w k)
