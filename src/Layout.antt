-- ===== src/Layout.antt =====
-- `core::alloc::Layout`, as far as the program uses it: the checked constructor, padding, and the
-- layout's invariant. Not code of the repository; the clauses follow the standard library.
pub mod Bounds
use unico.Common.{
  ℕ, ◌+◌, ◌-◌, ◌%◌, ◌^◌, ◌≤◌, Bool, true, false, Option, none, some, leb, if◌then◌else◌, ◌&&◌, ◌==◌,
}
use unico.Common.Words.{usize_mod, align_down, is_power_of_two, IsAlign}

pub record Layout : Type 0 where
  pub size : ℕ
  pub align : ℕ

-- What every `Layout` of safe code satisfies: rounded up to the alignment, the size fits an `isize`.
pub record IsValid (l : Layout) : Type 0 where
  pub aligned : IsAlign l.align
  pub fits : l.size + l.align ≤ 2 ^ 63

-- `Layout::from_size_align`; `none` is its `LayoutError`.
unfoldable pub from_size_align : ℕ → ℕ → Option Layout
from_size_align size align =
    if is_power_of_two align && leb size (2 ^ 63 - align)
    then some (record { size = size; align = align })
    else none

-- `len.wrapping_add(align).wrapping_sub(1) & !align.wrapping_sub(1)`
unfoldable pub round_up : ℕ → ℕ → ℕ
round_up size align = align_down ((size + align + usize_mod - 1) % usize_mod) align

-- `Layout::padding_needed_for`
unfoldable pub padding_needed_for : Layout → ℕ → ℕ
padding_needed_for l align = (round_up l.size align + usize_mod - l.size) % usize_mod

-- `Layout::pad_to_align`
unfoldable pub pad_to_align : Layout → Layout
unfolding padding_needed_for
pad_to_align l = record l { size = l.size + padding_needed_for l l.align }

abbrev pub layout_eqb : Layout → Layout → Bool
layout_eqb a b = a.size == b.size && a.align == b.align
