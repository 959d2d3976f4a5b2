-- ===== src/Ful/Raw/Fields.antt =====
-- The fields of a coroutine's record: in order, disjoint, aligned, and the stack handle first.
use unico.Common.{ℕ, ◌+◌, ◌≤◌, ◌%◌, ◌≡◌, ◌⊎◌, inl, inr, refl, none, some, arith, ok}
use native.Mathlib.Nat.{mod-eq_of_lt}
use unico.Layout.{Layout, IsValid}
use unico.Ful.Extend.Bounds.{Extends, extend_lem, max-le}
use unico.Ful.Raw.{TaskLayouts, unit_layout, extend_all, eval_layouts}

pub record Fields (func stack hook : Layout) (ls : TaskLayouts) : Type 0 where
  pub valid : IsValid ls.layout
  pub stack_first : ls.offset_stack ≡ 0
  pub func_behind : stack.size ≤ ls.offset_func
  pub hook_behind : ls.offset_func + func.size ≤ ls.offset_hook
  pub end_eq : ls.offset_hook + hook.size ≡ ls.layout.size
  pub func_aligned : ls.offset_func % func.align ≡ 0
  pub hook_aligned : ls.offset_hook % hook.align ≡ 0
  pub stack_align : stack.align ≤ ls.layout.align
  pub func_align : func.align ≤ ls.layout.align
  pub hook_align : hook.align ≤ ls.layout.align

module _ (func stack hook : Layout) (vf : IsValid func) (vs : IsValid stack)
    (vh : IsValid hook) where
  unit-IsValid : IsValid unit_layout
  unit-IsValid = record { aligned = (0, omega arith, refl); fits = omega arith }

  extend_all-Fields :
      {l1 l2 l3 : Layout} {o1 o2 o3 : ℕ}
      → Extends unit_layout stack l1 o1
      → Extends l1 func l2 o2
      → Extends l2 hook l3 o3
      → Fields func stack hook
          (record { layout = l3; offset_stack = o1; offset_func = o2; offset_hook = o3 })
  extend_all-Fields {l1} {l2} {l3} {o1} {o2} {o3} a b c = record {
    valid = c.valid;
    stack_first =
        omega (arith, mod-eq_of_lt {n = o1} {m = stack.align} (omega (arith, a.near)), a.aligned);
    func_behind = omega (arith, a.size_eq, b.behind);
    hook_behind = omega (arith, b.size_eq, c.behind);
    end_eq = omega (arith, c.size_eq);
    func_aligned = b.aligned;
    hook_aligned = c.aligned;
    stack_align = omega (
      arith,
      a.align_eq,
      b.align_eq,
      c.align_eq,
      max-le 1 stack.align,
      max-le l1.align func.align,
      max-le l2.align hook.align,
    );
    func_align =
        omega
          (arith, b.align_eq, c.align_eq, max-le l1.align func.align, max-le l2.align hook.align);
    hook_align = omega (arith, c.align_eq, max-le l2.align hook.align);
  }

  -- Either some extension overflows, or the three offsets are those of the fields.
  extend_all_lem :
      (extend_all func stack hook ≡ none)
      ⊎ ((ls : TaskLayouts) × (extend_all func stack hook ≡ some ls) × Fields func stack hook ls)
  unfolding extend_all
  extend_all_lem = elim (extend_lem unit_layout stack unit-IsValid vs) [
    | inl e ↦ inl (rw e.1 refl)
    | inr (l1, o1, e1, a) ↦ elim (extend_lem l1 func a.valid vf) [
      | inl e ↦ inl (rw (e1, e.1) refl)
      | inr (l2, o2, e2, b) ↦ elim (extend_lem l2 hook b.valid vh) [
        | inl e ↦ inl (rw (e1, e2, e.1) refl)
        | inr (l3, o3, e3, c) ↦ inr (
          record { layout = l3; offset_stack = o1; offset_func = o2; offset_hook = o3 },
          rw (e1, e2, e3) refl,
          extend_all-Fields a b c,
        )
      ]
    ]
  ]

  -- For valid layouts the assertion on the first offset never fails: `eval_layouts` returns `None`, or
  -- a record whose fields are in order, disjoint and aligned, the stack handle first.
  pub eval_layouts_lem :
      (eval_layouts func stack hook ≡ ok none)
      ⊎ ((ls : TaskLayouts) × (eval_layouts func stack hook ≡ ok (some ls))
          × Fields func stack hook ls)
  unfolding eval_layouts
  eval_layouts_lem = elim extend_all_lem [
    | inl e ↦ inl (rw (e, eval_layouts) refl)
    | inr (ls, e, fs) ↦ inr (ls, rw (e, eval_layouts, fs.stack_first) refl, fs)
  ]
