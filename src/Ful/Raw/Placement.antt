-- ===== src/Ful/Raw/Placement.antt =====
-- `new_on_imp`: the coroutine's record lies in the stack, its fields are aligned and disjoint, and
-- the rest of the stack, on which the context is created, ends where the record begins.
use unico.Common.{ℕ, ◌+◌, ◌-◌, ◌≤◌, ◌<◌, ◌%◌, ◌≡◌, ◌⊎◌, inl, inr, arith, dec_lt}
use native.Mathlib.Nat.{add-mod-mod, add-zero}
use unico.Common.Words.{
  usize_mod, IsAlign, align_down, align_down-le, lt-align_down-add, align_down-mod, le-align_down,
}
use unico.Layout.{Layout, IsValid}
use unico.Layout.Bounds.{mod_of_align_le}
use unico.Ful.Raw.{TaskLayouts, from_ptr, refused, placed, place}
use unico.Ful.Raw.Fields.{Fields}

-- The record at `p` and the rest of the stack of layout `sl` at `bottom`.
pub record Placed (func stack hook : Layout) (ls : TaskLayouts) (bottom : ℕ) (sl : Layout)
    (p rest : ℕ) : Type 0 where
  pub rest_below : bottom + rest ≡ p
  pub within : p + ls.layout.size ≤ bottom + sl.size
  pub high : bottom + sl.size < p + ls.layout.size + ls.layout.align
  pub stack_at : (from_ptr ls p).stack ≡ p
  pub stack_aligned : (from_ptr ls p).stack % stack.align ≡ 0
  pub func_aligned : (from_ptr ls p).func % func.align ≡ 0
  pub hook_aligned : (from_ptr ls p).panic_hook % hook.align ≡ 0
  pub func_behind : (from_ptr ls p).stack + stack.size ≤ (from_ptr ls p).func
  pub hook_behind : (from_ptr ls p).func + func.size ≤ (from_ptr ls p).panic_hook
  pub hook_within : (from_ptr ls p).panic_hook + hook.size ≤ bottom + sl.size

-- A sum of two multiples is a multiple.
add_multiple : (a b m : ℕ) → a % m ≡ 0 → b % m ≡ 0 → (a + b) % m ≡ 0
add_multiple a b m p q = rw (← add-mod-mod a b m, q, add-zero) p

module _ (func stack hook : Layout) (ls : TaskLayouts) (fs : Fields func stack hook ls)
    (vf : IsValid func) (vs : IsValid stack) (vh : IsValid hook) (bottom : ℕ) (sl : Layout)
    (v : IsValid sl) (in_memory : bottom + sl.size < usize_mod)
    (aligned : bottom % sl.align ≡ 0) where
  addr : ℕ
  addr = align_down ((bottom + sl.size + usize_mod - ls.layout.size) % usize_mod) ls.layout.align

  -- A stack that is not larger than the record, or less aligned, is refused.
  place_small :
      (sl.size ≤ ls.layout.size) ⊎ (sl.align < ls.layout.align)
      → place ls bottom sl ≡ refused ls.layout sl
  unfolding place
  place_small h = ground arith

  module _ (large : ls.layout.size < sl.size) (enough : ls.layout.align ≤ sl.align) where
    place_large : place ls bottom sl ≡ placed addr ((addr + usize_mod - bottom) % usize_mod)
    unfolding place addr
    place_large = ground arith

    record Addr : Type 0 where
      above : bottom ≤ addr
      below : addr + ls.layout.size ≤ bottom + sl.size
      near : bottom + sl.size < addr + ls.layout.size + ls.layout.align
      multiple : addr % ls.layout.align ≡ 0

    addr-Addr : Addr
    unfolding addr
    addr-Addr = record {
      above =
          le-align_down bottom start ls.layout.align fits fs.valid.aligned
            (mod_of_align_le bottom ls.layout.align sl.align fs.valid.aligned v.aligned enough
              aligned)
            (omega arith);
      below = omega (arith, align_down-le start ls.layout.align fits fs.valid.aligned);
      near = omega (arith, lt-align_down-add start ls.layout.align fits fs.valid.aligned);
      multiple = align_down-mod start ls.layout.align fits fs.valid.aligned;
    }
      where
        start : ℕ
        start = (bottom + sl.size + usize_mod - ls.layout.size) % usize_mod

        fits : start < usize_mod
        fits = omega arith

    addr-Placed : Placed func stack hook ls bottom sl addr ((addr + usize_mod - bottom) % usize_mod)
    unfolding from_ptr
    addr-Placed =
        let a : Addr = addr-Addr in
        record {
          rest_below = omega (arith, a.above, a.below);
          within = a.below;
          high = a.near;
          stack_at = omega (arith, fs.stack_first);
          stack_aligned =
              rw (fs.stack_first, add-zero) (field_aligned stack.align vs.aligned fs.stack_align);
          func_aligned =
              add_multiple addr ls.offset_func func.align
                (field_aligned func.align vf.aligned fs.func_align) fs.func_aligned;
          hook_aligned =
              add_multiple addr ls.offset_hook hook.align
                (field_aligned hook.align vh.aligned fs.hook_align) fs.hook_aligned;
          func_behind = omega (arith, fs.stack_first, fs.func_behind);
          hook_behind = omega (arith, fs.hook_behind);
          hook_within = omega (arith, fs.end_eq, a.below);
        }
      where
        field_aligned : (a : ℕ) → IsAlign a → a ≤ ls.layout.align → addr % a ≡ 0
        field_aligned a p h =
            mod_of_align_le addr a ls.layout.align p fs.valid.aligned h (addr-Addr).multiple

  -- Exactly the stacks that are not larger than the record, or less aligned, are refused; on any
  -- other the record is placed at its top, and nothing wraps.
  pub place_lem :
      (((sl.size ≤ ls.layout.size) ⊎ (sl.align < ls.layout.align))
        × (place ls bottom sl ≡ refused ls.layout sl))
      ⊎ ((p : ℕ) × (rest : ℕ) × (place ls bottom sl ≡ placed p rest)
          × Placed func stack hook ls bottom sl p rest)
  place_lem = elim (dec_lt ls.layout.size sl.size) [
    | no s ↦ inl (inl (omega arith), place_small (inl (omega arith)))
    | yes s ↦ elim (dec_lt sl.align ls.layout.align) [
      | yes a ↦ inl (inr a, place_small (inr a))
      | no a ↦ inr (_, _, place_large s (omega arith), addr-Placed s (omega arith))
    ]
  ]
