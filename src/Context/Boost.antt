-- ===== src/Context/Boost.antt =====
-- context/src/boost.rs: the `Resume` trait over the assembly of Boost.Context, whose `make_fcontext` is a
-- parameter: from the top of a region of memory and its size, the context's address.
use unico.Common.{
  ◌%◌, ℕ, ◌+◌, ◌≤◌, ◌<◌, ◌≡◌, refl, ap, sym, ◌∙◌, ◌⊎◌, inl, inr, Option, none, some, Fallible, ok,
  alloc_error, panicked, arith, dec_lt,
}
use unico.Common.Words.{usize_mod}
use unico.Layout.{Layout, IsValid}
use unico.Context.{stack_top, stack_layout}
use unico.Context.Top.{stack_top_small, stack_top_found}
use unico.Ful.Raw.{TaskLayouts, place, placed, refused}
use unico.Ful.Raw.Fields.{Fields}
use unico.Ful.Raw.Placement.{place_lem}

-- `Layout::new::<()>()`
abbrev pub unit_layout : Layout
unit_layout = record { size = 0; align = 1 }

unit_layout-IsValid : IsValid unit_layout
unit_layout-IsValid = record { aligned = (0, omega arith, refl); fits = omega arith }

module _ (make_fcontext : ℕ → ℕ → ℕ) where
  -- `<Boost as Resume>::new_on`, for an entry function; `none` is its `NewError::StackTooSmall`.
  unfoldable pub boost_at : ℕ → ℕ → Fallible (Option ℕ)
  boost_at base len = elim (stack_top unit_layout base len) [
    | ok (some top) ↦ ok (some (make_fcontext top len))
    | ok none ↦ ok none
    | alloc_error ↦ alloc_error
    | panicked ↦ panicked
  ]

  -- On a stack that is not at the null address and does not wrap, `new_on` of the Boost backend does
  -- not panic: it fails exactly below half a page, and otherwise hands out the stack, from its base to
  -- its end.
  pub boost_at_lem :
      (base len : ℕ)
      → base + len < usize_mod
      → 0 < base
      → ((len < stack_layout.size) × (boost_at base len ≡ ok none))
        ⊎ ((stack_layout.size ≤ len)
            × (boost_at base len ≡ ok (some (make_fcontext (base + len) len))))
  unfolding boost_at
  boost_at_lem base len h z = elim (dec_lt len stack_layout.size) [
    | yes l ↦ inl (
      l,
      rw
          (
            boost_at,
            stack_top_small unit_layout base len unit_layout-IsValid (omega arith) (omega arith),
          )
          refl,
    )
    | no l ↦
        let (p, e, t) =
          stack_top_found unit_layout base len unit_layout-IsValid (omega arith) h z (omega arith)
            (omega arith) in
        let q : p ≡ base + len = omega (arith, t.within, t.high) in
        inr (omega arith, rw (boost_at, e) (ap (λ (x : ℕ). ok (some (make_fcontext x len))) q))
  ]

  -- The part of the stack of a coroutine that `new_on` of the Boost backend hands out, where the
  -- coroutine's record is placed at `p`: it lies within the stack, and ends where the record begins.
  pub record HandsOut (ls : TaskLayouts) (bottom : ℕ) (sl : Layout) (p rest : ℕ) : Type 0 where
    pub returns : boost_at bottom rest ≡ ok (some (make_fcontext p rest))
    pub begins : p ≡ bottom + rest
    pub ends : p + ls.layout.size ≤ bottom + sl.size

  -- On a stack that is not at the null address, either the coroutine's record is refused, or less than
  -- half a page is left below the record and `new_on` fails, or `new_on` is given exactly the memory from
  -- the stack's base to the record.
  pub place-boost_at :
      (func stack hook : Layout) (ls : TaskLayouts)
      → Fields func stack hook ls
      → IsValid func
      → IsValid stack
      → IsValid hook
      → (bottom : ℕ) (sl : Layout) → IsValid sl
      → bottom + sl.size < usize_mod
      → bottom % sl.align ≡ 0
      → 0 < bottom
      → (place ls bottom sl ≡ refused ls.layout sl)
        ⊎ ((p : ℕ) × (rest : ℕ) × (place ls bottom sl ≡ placed p rest)
            × (((rest < stack_layout.size) × (boost_at bottom rest ≡ ok none))
                ⊎ HandsOut ls bottom sl p rest))
  place-boost_at func stack hook ls fs vf vs vh bottom sl v h m z =
      elim (place_lem func stack hook ls fs vf vs vh bottom sl v h m) [
        | inl (o, e) ↦ inl e
        | inr (p, rest, e, x) ↦
            elim (boost_at_lem bottom rest (omega (arith, x.rest_below, x.within)) z) [
              | inl r ↦ inr (p, rest, e, inl r)
              | inr (l, r) ↦ inr (
                p,
                rest,
                e,
                inr (record {
                  returns = r ∙ ap (λ (q : ℕ). ok (some (make_fcontext q rest))) x.rest_below;
                  begins = sym x.rest_below;
                  ends = x.within;
                }),
              )
            ]
      ]
