-- ===== src/Context/Top.antt =====
-- `stack_top`: the value lies in the stack, aligned and as high as it can; when there is one.
use unico.Common.{
  ◌==◌, ltb, if◌then◌else◌, Option, ◌⊎◌, inl, inr, ◌∙◌, sym, dec_lt, ◌-◌, ℕ, ◌+◌, ◌≤◌, ◌<◌, ◌%◌,
  ◌^◌, ◌≡◌, refl, some, none, ok, arith, max,
}
use unico.Common.Words.{
  align_down, usize_mod, align_down-le, lt-align_down-add, align_down-mod, le-align_down,
}
use unico.Layout.{Layout, IsValid}
use unico.Layout.Bounds.{from_size_align-some, max-IsAlign}
use unico.Context.{layout_union, stack_top, stack_layout}

-- Where a value of layout `t` lies in a stack.
pub record Top (t : Layout) (base len p : ℕ) : Type 0 where
  pub above : base ≤ p
  pub within : p + t.size ≤ base + len
  pub high : base + len < p + t.size + t.align
  pub aligned : p % t.align ≡ 0
  pub nonnull : 0 < p

module _ (t : Layout) (base len : ℕ) (v : IsValid t)
    (small : max t.size stack_layout.size + max t.align stack_layout.align ≤ 2 ^ 63) where
  layout_union-ok :
      layout_union t stack_layout
      ≡ ok (record { size = max t.size stack_layout.size; align = max t.align stack_layout.align })
  unfolding layout_union
  layout_union-ok =
      rw (from_size_align-some _ _ (max-IsAlign t.align 8 v.aligned (3, omega arith, refl)) small)
        refl

  -- A stack below the minimal size is refused.
  pub stack_top_small : len < max t.size stack_layout.size → stack_top t base len ≡ ok none
  unfolding stack_top
  stack_top_small h = rw layout_union-ok (ground arith)

  -- The address that `stack_top` computes.
  raw_top : ℕ
  raw_top = align_down ((base + len + usize_mod - t.size) % usize_mod) t.align

  record RawTop : Type 0 where
    below : raw_top + t.size ≤ base + len
    near : base + len < raw_top + t.size + t.align
    multiple : raw_top % t.align ≡ 0
    reaches : base % t.align ≡ 0 → base ≤ raw_top

  raw_top-RawTop : base + len < usize_mod → t.size ≤ len → RawTop
  unfolding raw_top
  raw_top-RawTop h l = record {
    below = omega (arith, align_down-le start t.align fits v.aligned);
    near = omega (arith, lt-align_down-add start t.align fits v.aligned);
    multiple = align_down-mod start t.align fits v.aligned;
    reaches = λ m. le-align_down base start t.align fits v.aligned m (omega arith);
  }
    where
      start : ℕ
      start = (base + len + usize_mod - t.size) % usize_mod

      fits : start < usize_mod
      fits = omega arith

  -- Whatever the stack's alignment, a result lies in the stack, is aligned, not null and as high as
  -- it can be.
  pub stack_top-Top :
      {p : ℕ} → base + len < usize_mod → stack_top t base len ≡ ok (some p) → Top t base len p
  unfolding stack_top raw_top
  stack_top-Top {p} h e = elim (dec_lt len t.size) [
    | yes l ↦ cc (sym (stack_top_small (omega arith)) ∙ e)
    | no l ↦ ground (arith, rw layout_union-ok at e, raw_top-RawTop h (omega arith))
  ]

  -- An aligned, non-null stack of at least the minimal size has one.
  stack_top-some :
      base + len < usize_mod
      → 0 < base
      → base % t.align ≡ 0
      → max t.size stack_layout.size ≤ len
      → stack_top t base len ≡ ok (some raw_top)
  unfolding stack_top raw_top
  stack_top-some h z m l =
      let r : RawTop = raw_top-RawTop h (omega arith) in
      let b : base ≤ raw_top = r.reaches m in rw layout_union-ok (ground arith)

  pub stack_top_found :
      base + len < usize_mod
      → 0 < base
      → base % t.align ≡ 0
      → max t.size stack_layout.size ≤ len
      → (p : ℕ) × (stack_top t base len ≡ ok (some p)) × Top t base len p
  stack_top_found h z m l =
      let e : stack_top t base len ≡ ok (some raw_top) = stack_top-some h z m l in
      (raw_top, e, stack_top-Top h e)

  -- In a stack that is aligned for `t`, not at the null address and does not wrap, `stack_top` does
  -- not panic: it fails exactly below the minimal size, and otherwise finds the highest aligned place.
  pub stack_top_lem :
      base + len < usize_mod
      → 0 < base
      → base % t.align ≡ 0
      → ((len < max t.size stack_layout.size) × (stack_top t base len ≡ ok none))
        ⊎ ((p : ℕ) × (stack_top t base len ≡ ok (some p)) × Top t base len p)
  stack_top_lem h z m = elim (dec_lt len (max t.size stack_layout.size)) [
    | yes l ↦ inl (l, stack_top_small l)
    | no l ↦ inr (stack_top_found h z m (omega arith))
  ]

  -- `stack_top` does not panic.
  pub stack_top-ok : (o : Option ℕ) × (stack_top t base len ≡ ok o)
  unfolding stack_top
  stack_top-ok = (
    if ltb len (max t.size stack_layout.size)
        then none
        else if ltb (align_down ((base + len + usize_mod - t.size) % usize_mod) t.align) base
        then none
        else if align_down ((base + len + usize_mod - t.size) % usize_mod) t.align == 0
        then none
        else some (align_down ((base + len + usize_mod - t.size) % usize_mod) t.align),
    rw layout_union-ok refl,
  )
