-- ===== src/Stack/Ownership.antt =====
-- One stack: the block that it lives in, the closure in it, and its destructor.
use unico.Common.{
  ◌%◌, ◌==◌, false, ◌∙◌, sym, ap, panicked, Fallible, subst, none, ℕ, ◌+◌, ◌≤◌, ◌<◌, ◌≡◌, refl,
  Option, some, List, ◌∷◌, arith, ok, alloc_error, ◌⊎◌, inl, inr, Option-cases, ◌≢◌, true,
}
use native.Mathlib.Nat.{mod-mod_of_dvd, dvd_of_mod-eq-zero, zero-mod}
use native.Mathlib.Decide.{ℕ_discrete}
use unico.Layout.Bounds.{align-pad_to_align}
use unico.Layout.{pad_to_align, layout_eqb, Layout, IsValid}
use unico.Stack.{
  default_layout, drop, deallocate, update, remove_block, Stack, Heap, Block, Layouts, dropper_in,
  execute_dropper, allocate, block_eqb, write_dropper, new,
}
use unico.Stack.Sizes.{Split, layouts_lem, dropper_in-mod}

pub default_layout-IsValid : IsValid default_layout
default_layout-IsValid = record { aligned = (12, omega arith, refl); fits = omega arith }

-- `s` lives in the block `b`, and its closure stands behind the usable part and frees that block.
pub record Owns (closure : Layout) (h : Heap) (s : Stack) (b : Block) : Type 0 where
  pub at_block : s.pointer ≡ b.0
  pub dropper :
      h.droppers (dropper_in s.pointer s.layout)
      ≡ some (record { allocated = b.1; returned = s.layout })
  pub destructor : s.drop_fn ≡ execute_dropper closure
  pub aligned : dropper_in s.pointer s.layout % closure.align ≡ 0
  pub room : s.layout.size + closure.size ≤ b.1.size

pub block_eqb_refl : (b : Block) → block_eqb b b ≡ true
block_eqb_refl (p, l) = ground arith

-- The address of the closure lies in the block.
pub dropper_in_block :
    {closure : Layout} {h : Heap} {s : Stack} {b : Block}
    → Owns closure h s b
    → 0 < closure.size
    → (b.0 ≤ dropper_in s.pointer s.layout) × (dropper_in s.pointer s.layout < b.0 + b.1.size)
unfolding dropper_in
dropper_in_block o p = omega (arith, o.at_block)

layout_eqb_refl : (l : Layout) → layout_eqb l l ≡ true
layout_eqb_refl l = ground arith

-- A multiple of a multiple.
mod-zero_trans : (p a c : ℕ) → p % a ≡ 0 → a % c ≡ 0 → p % c ≡ 0
mod-zero_trans p a c e f =
    sym (mod-mod_of_dvd c p (dvd_of_mod-eq-zero c f)) ∙ ap (λ (x : ℕ). x % c) e ∙ zero-mod c

==-false : (a b : ℕ) → a ≢ b → (a == b) ≡ false
==-false a b n = ground arith

module _ (closure : Layout) where
  -- The drop of a stack frees the block that it owns, and takes the closure out of the memory.
  pub execute_dropper-Owns :
      {h : Heap} {s : Stack} {b : Block} {bs : List Block}
      → Owns closure h s b
      → remove_block b h.blocks ≡ some bs
      → drop s h
        ≡ some (record {
          blocks = bs;
          droppers = update h.droppers (dropper_in s.pointer s.layout) none;
        })
  unfolding drop execute_dropper deallocate
  execute_dropper-Owns o e =
      rw
        (
          o.destructor, execute_dropper, o.aligned, o.dropper, layout_eqb_refl, deallocate,
          o.at_block, e,
        )
        refl

module _ (closure : Layout) (find_block : List Block → Layout → Option ℕ) where
  -- A successful allocation adds one block, which the new stack owns, and writes one closure.
  pub record Allocated (h : Heap) (layout : Layout) (s : Stack) (h' : Heap) : Type 0 where
    pub block : Block
    pub found : find_block h.blocks block.1 ≡ some block.0
    pub blocks_eq : h'.blocks ≡ block ∷ h.blocks
    pub owns : Owns closure h' s block
    pub others : (a : ℕ) → a ≢ dropper_in s.pointer s.layout → h'.droppers a ≡ h.droppers a
    pub usable : Split closure layout (record { allocated = block.1; returned = s.layout })

module _ (closure : Layout) (find_block : List Block → Layout → Option ℕ) (h : Heap)
    (layout : Layout) where
  written : Layouts → ℕ → Stack × Heap
  written ls p = (
    new p ls.returned (execute_dropper closure),
    record h {
      blocks = (p, ls.allocated) ∷ h.blocks;
      droppers = update h.droppers (dropper_in p ls.returned) (some ls);
    },
  )

  written-Allocated :
      (ls : Layouts) (p : ℕ)
      → find_block h.blocks ls.allocated ≡ some p
      → Split closure layout ls
      → dropper_in p ls.returned % closure.align ≡ 0
      → Allocated closure find_block h layout (written ls p).0 (written ls p).1
  unfolding written new dropper_in
  written-Allocated ls p f sp al = record {
    block = (p, ls.allocated);
    found = f;
    blocks_eq = refl;
    owns = record {
      at_block = refl;
      dropper = ground arith;
      destructor = refl;
      aligned = al;
      room = sp.room;
    };
    others = λ a n. ground arith;
    usable = sp;
  }

  -- What a call of `allocate` comes to: a failure, a closure at a misaligned place in a block that the
  -- allocator gave, or a stack.
  allocate-cases :
      IsValid closure
      → IsValid layout
      → (allocate closure find_block h layout ≡ alloc_error)
        ⊎ (((p : ℕ) × (find_block h.blocks (pad_to_align layout) ≡ some p)
              × (p % closure.align ≢ 0)
              × (allocate closure find_block h layout ≡ panicked))
            ⊎ ((s : Stack) × (h' : Heap) × (allocate closure find_block h layout ≡ ok (s, h'))
                × Allocated closure find_block h layout s h'))
  unfolding allocate written write_dropper
  allocate-cases c v = elim (layouts_lem closure layout c v) [
    | inl (h', e) ↦ inl (rw (e, allocate) refl)
    | inr (ls, e, sp) ↦ elim (Option-cases (find_block h.blocks ls.allocated)) [
      | inl f ↦ inl (rw (e, allocate, f) refl)
      | inr (p, f) ↦ elim (ℕ_discrete (dropper_in p ls.returned % closure.align) 0) [
        | yes a ↦ inr (
            inr (
              (written ls p).0,
              (written ls p).1,
              rw (allocate, e, f, write_dropper, a) refl,
              written-Allocated ls p f sp a,
            ))
        | no n ↦ inr (
            inl (
              p,
              rw (← sp.allocated_eq) f,
              λ z. n (dropper_in-mod closure layout ls p sp ∙ z),
              rw (allocate, e, f, write_dropper, ==-false _ _ n) refl,
            ))
      ]
    ]
  ]

  -- For valid layouts, where the closure's alignment divides the layout's and the allocator aligns its
  -- blocks as it is asked to, allocation does not panic: it fails with an `AllocError`, or it returns a
  -- stack that owns one new block, which the allocator gave, and writes no closure but that stack's, at
  -- an aligned place.
  pub allocate_lem :
      IsValid closure
      → IsValid layout
      → layout.align % closure.align ≡ 0
      → ((bs : List Block) (l : Layout) (p : ℕ) → find_block bs l ≡ some p → p % l.align ≡ 0)
      → (allocate closure find_block h layout ≡ alloc_error)
        ⊎ ((s : Stack) × (h' : Heap) × (allocate closure find_block h layout ≡ ok (s, h'))
            × Allocated closure find_block h layout s h')
  allocate_lem c v d al = elim (allocate-cases c v) [
    | inl e ↦ inl e
    | inr (inl (p, f, n, e)) ↦ absurd (
        n (
          mod-zero_trans p layout.align closure.align
            (subst (λ (a : ℕ). p % a ≡ 0) (align-pad_to_align layout) (al h.blocks _ p f)) d))
    | inr (inr r) ↦ inr r
  ]

  -- For valid layouts, where the closure fits into the padded layout and the allocator gives a block
  -- that is not aligned for the closure, the closure is written to a misaligned place: this is undefined,
  -- or panics.
  pub allocate-misaligned :
      (p : ℕ)
      → IsValid closure
      → IsValid layout
      → closure.size ≤ (pad_to_align layout).size
      → find_block h.blocks (pad_to_align layout) ≡ some p
      → p % closure.align ≢ 0
      → allocate closure find_block h layout ≡ panicked
  unfolding allocate write_dropper
  allocate-misaligned p c v fits f n = elim (layouts_lem closure layout c v) [
    | inl (small, e) ↦ absurd (omega arith)
    | inr (ls, e, sp) ↦
        let g : find_block h.blocks ls.allocated ≡ some p = rw sp.allocated_eq f in
        rw
          (
            allocate,
            e,
            g,
            write_dropper,
            ==-false _ _ (λ z. n (sym (dropper_in-mod closure layout ls p sp) ∙ z)),
          )
          refl
  ]

ok_value : {A : Type 0} → A → Fallible A → A
ok_value d (ok a) = a
ok_value d alloc_error = d
ok_value d panicked = d

-- What a successful allocation has done.
pub allocate-Allocated :
    (closure : Layout) (find_block : List Block → Layout → Option ℕ) (h : Heap) (layout : Layout)
    (s : Stack) (h' : Heap)
    → IsValid closure
    → IsValid layout
    → allocate closure find_block h layout ≡ ok (s, h')
    → Allocated closure find_block h layout s h'
unfolding ok_value
allocate-Allocated closure find_block h layout s h' c v e =
    elim (allocate-cases closure find_block h layout c v) [
      | inl f ↦ cc
      | inr (inl (p, q, n, f)) ↦ cc
      | inr (inr (t, g, f, a)) ↦
          subst (λ (x : Stack × Heap). Allocated closure find_block h layout x.0 x.1)
            (ap (ok_value (s, h')) (sym f ∙ e)) a
    ]

-- The drop of a stack that was just allocated frees its block, and no other.
pub drop-Allocated :
    (closure : Layout) (find_block : List Block → Layout → Option ℕ) (h : Heap) (layout : Layout)
    (s : Stack) (h' : Heap)
    → Allocated closure find_block h layout s h'
    → (d : Heap) × (drop s h' ≡ some d) × (d.blocks ≡ h.blocks)
unfolding remove_block
drop-Allocated closure find_block h layout s h' a =
    let e : remove_block a.block h'.blocks ≡ some h.blocks =
      rw (a.blocks_eq, remove_block, block_eqb_refl a.block) refl in
    (
      record {
        blocks = h.blocks;
        droppers = update h'.droppers (dropper_in s.pointer s.layout) none;
      },
      execute_dropper-Owns closure a.owns e,
      refl,
    )
