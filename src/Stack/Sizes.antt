-- ===== src/Stack/Sizes.antt =====
-- The `layouts` helper: how a block is split into the usable stack and the room for the closure.
use unico.Common.{ℕ, ◌+◌, ◌-◌, ◌%◌, ◌≤◌, ◌<◌, ◌≡◌, ◌⊎◌, inl, inr, refl, arith, ok, alloc_error}
use native.Mathlib.Nat.{add-mod-mod, add-zero}
use native.Mathlib.Decide.{dec_lt}
use unico.Common.Words.{
  usize_mod, checked_sub, align_down, align_down-le, align_down-mod, lt-align_down-add,
}
use unico.Layout.{Layout, IsValid, pad_to_align}
use unico.Layout.Bounds.{align-pad_to_align, pad_to_align-IsValid, from_size_align-some}
use unico.Stack.{Layouts, layouts, dropper_in}

-- What the two layouts of a successful call satisfy.
pub record Split (closure layout : Layout) (ls : Layouts) : Type 0 where
  pub allocated_eq : ls.allocated ≡ pad_to_align layout
  pub valid : IsValid ls.allocated
  pub returned_valid : IsValid ls.returned
  pub align_eq : ls.returned.align ≡ layout.align
  pub room : ls.returned.size + closure.size ≤ ls.allocated.size
  pub tight : ls.allocated.size < ls.returned.size + closure.size + closure.align
  pub multiple : ls.returned.size % closure.align ≡ 0

module _ (closure layout : Layout) (c : IsValid closure) (v : IsValid layout) where
  returned_size : ℕ
  returned_size = align_down ((pad_to_align layout).size - closure.size) closure.align

  layouts-small : (pad_to_align layout).size < closure.size → layouts closure layout ≡ alloc_error
  unfolding layouts checked_sub
  layouts-small h = ground arith

  split : Layouts
  split = record {
    allocated = pad_to_align layout;
    returned = record { size = returned_size; align = layout.align };
  }

  split-Split : closure.size ≤ (pad_to_align layout).size → Split closure layout split
  unfolding split returned_size
  split-Split h = record {
    allocated_eq = refl;
    valid = padded;
    returned_valid = record {
      aligned = v.aligned;
      fits = omega (arith, padded, align-pad_to_align layout, align_down-le _ _ small c.aligned);
    };
    align_eq = refl;
    room = omega (arith, align_down-le _ _ small c.aligned);
    tight = omega (arith, lt-align_down-add _ _ small c.aligned);
    multiple = align_down-mod _ _ small c.aligned;
  }
    where
      padded : IsValid (pad_to_align layout)
      padded = pad_to_align-IsValid layout v

      small : (pad_to_align layout).size - closure.size < usize_mod
      small = omega (arith, padded)

  layouts-split : closure.size ≤ (pad_to_align layout).size → layouts closure layout ≡ ok split
  unfolding layouts checked_sub split returned_size
  layouts-split h =
      ground (arith, split-Split h, from_size_align-some returned_size layout.align v.aligned)

  -- For valid layouts the helper fails where the padded block has no room for the closure, and otherwise
  -- returns a valid split that wastes less than the closure's alignment.
  pub layouts_lem :
      (((pad_to_align layout).size < closure.size) × (layouts closure layout ≡ alloc_error))
      ⊎ ((ls : Layouts) × (layouts closure layout ≡ ok ls) × Split closure layout ls)
  layouts_lem = elim (dec_lt (pad_to_align layout).size closure.size) [
    | yes h ↦ inl (h, layouts-small h)
    | no h ↦ inr (split, layouts-split (omega arith), split-Split (omega arith))
  ]

-- In a split the closure's address has the remainder of the block's address by the closure's alignment.
pub dropper_in-mod :
    (closure layout : Layout) (ls : Layouts) (memory : ℕ)
    → Split closure layout ls
    → dropper_in memory ls.returned % closure.align ≡ memory % closure.align
unfolding dropper_in
dropper_in-mod closure layout ls memory s =
    rw (← add-mod-mod memory ls.returned.size closure.align, s.multiple, add-zero) refl
