-- ===== src/Context.antt =====
-- context/src/lib.rs and context/src/page.rs: where a context is placed at the top of a stack.
pub mod Top
pub mod Machine
pub mod Ucx
pub mod Boost
pub mod Build
use unico.Common.{
  ℕ, ◌+◌, ◌-◌, ◌%◌, ◌/◌, ◌^◌, Option, none, some, Fallible, ok, panicked, ◌>>=◌, unwrap, max, ltb,
  if◌then◌else◌, ◌==◌,
}
use unico.Common.Words.{usize_mod, align_down}
use unico.Layout.{Layout, from_size_align}

abbrev pub page_shift : ℕ
page_shift = 12

abbrev pub page_size : ℕ
page_size = 2 ^ page_shift

-- `page::STACK_LAYOUT`: half a page, aligned as a `usize`.
abbrev pub stack_layout : Layout
stack_layout = record { size = page_size / 2; align = 8 }

unfoldable pub layout_union : Layout → Layout → Fallible Layout
layout_union l1 l2 = unwrap (from_size_align (max l1.size l2.size) (max l1.align l2.align))

-- The highest place for a value of layout `t` in the stack of `len` bytes from `base`, if it has
-- one. `NonNull` is not zero.
unfoldable pub stack_top : Layout → ℕ → ℕ → Fallible (Option ℕ)
stack_top t base len = do
  u ← layout_union t stack_layout
  let top = align_down ((base + len + usize_mod - t.size) % usize_mod) t.align
  ok (
      if ltb len u.size
      then none
      else if ltb top base
      then none
      else if top == 0
      then none
      else some top)
