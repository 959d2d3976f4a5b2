-- ===== src/Ful/Extend/Bounds.antt =====
-- `extend` places the second layout behind the first, aligned, and fails only on overflow.
use unico.Common.{
  ltb, dec_lt, lt→ltb, false, ℕ, ◌+◌, ◌≤◌, ◌<◌, ◌%◌, ◌^◌, ◌≡◌, ◌⊎◌, inl, inr, refl, none, some,
  arith, dec_le,
}
use unico.Common.Words.{checked_add, IsAlign, IsAlign-le}
use unico.Layout.{Layout, IsValid, round_up, padding_needed_for}
use unico.Layout.Bounds.{
  Rounds, round_up-Rounds, padding_needed_for-eq, from_size_align-some, from_size_align-none,
}
use unico.Ful.Extend.{max, extend}

-- `next` stands at `offset` of `extended`, behind `layout`.
pub record Extends (layout next extended : Layout) (offset : ℕ) : Type 0 where
  pub valid : IsValid extended
  pub behind : layout.size ≤ offset
  pub near : offset < layout.size + next.align
  pub aligned : offset % next.align ≡ 0
  pub size_eq : extended.size ≡ offset + next.size
  pub align_eq : extended.align ≡ max layout.align next.align

pub max-le : (a b : ℕ) → (a ≤ max a b) × (b ≤ max a b)
unfolding max
max-le a b = ground arith

max-IsAlign : (a b : ℕ) → IsAlign a → IsAlign b → IsAlign (max a b)
unfolding max
max-IsAlign a b p q = elim (dec_lt b a) [
  | yes l ↦ rw (lt→ltb b a l) p
  | no l ↦ let e : ltb b a ≡ false = ground arith in rw e q
]

module _ (layout next : Layout) (v : IsValid layout) (w : IsValid next) where
  offset_of : ℕ
  offset_of = round_up layout.size next.align

  offset_of-Rounds : Rounds layout.size next.align offset_of
  unfolding offset_of
  offset_of-Rounds =
      round_up-Rounds layout.size next.align w.aligned
        (omega (arith, IsAlign-le next.align w.aligned))

  abbrev joined : Layout
  joined = record { size = offset_of + next.size; align = max layout.align next.align }

  padded : layout.size + padding_needed_for layout next.align ≡ offset_of
  unfolding offset_of
  padded =
      padding_needed_for-eq layout next.align w.aligned
        (omega (arith, IsAlign-le next.align w.aligned))

  extend-some :
      offset_of + next.size + max layout.align next.align ≤ 2 ^ 63
      → extend layout next ≡ some (joined, offset_of)
  unfolding extend checked_add
  extend-some h =
      let r : Rounds layout.size next.align offset_of = offset_of-Rounds in
      rw padded (
        ground (
          arith,
          from_size_align-some (offset_of + next.size) (max layout.align next.align)
              (max-IsAlign layout.align next.align v.aligned w.aligned) h,
        ))

  extend-none :
      2 ^ 63 < offset_of + next.size + max layout.align next.align → extend layout next ≡ none
  unfolding extend checked_add
  extend-none h =
      let r : Rounds layout.size next.align offset_of = offset_of-Rounds in
      rw padded (
        ground (
          arith,
          from_size_align-none (offset_of + next.size) (max layout.align next.align)
              (max-IsAlign layout.align next.align v.aligned w.aligned) h,
        ))

  joined-Extends :
      offset_of + next.size + max layout.align next.align ≤ 2 ^ 63
      → Extends layout next joined offset_of
  joined-Extends h =
      let r : Rounds layout.size next.align offset_of = offset_of-Rounds in
      record {
        valid = record {
          aligned = max-IsAlign layout.align next.align v.aligned w.aligned;
          fits = h;
        };
        behind = r.above;
        near = r.near;
        aligned = r.multiple;
        size_eq = refl;
        align_eq = refl;
      }

  -- For valid layouts `extend` fails where the rounded result exceeds an `isize`; otherwise it places
  -- the second layout behind the first, at the nearest aligned offset, in a valid layout.
  pub extend_lem :
      ((2 ^ 63 < round_up layout.size next.align + next.size + max layout.align next.align)
        × (extend layout next ≡ none))
      ⊎ ((l : Layout) × (o : ℕ) × (extend layout next ≡ some (l, o)) × Extends layout next l o)
  unfolding offset_of
  extend_lem = elim (dec_le (offset_of + next.size + max layout.align next.align) (2 ^ 63)) [
    | yes h ↦ inr (joined, offset_of, extend-some h, joined-Extends h)
    | no h ↦ inl (omega arith, extend-none (omega arith))
  ]
