-- ===== src/Ful/Extend.antt =====
-- ful/src/sym/layout.rs: one layout after another, as `Layout::extend` but in a `const fn`.
pub mod Bounds
use unico.Common.{ℕ, ◌+◌, Option, none, some, ltb, if◌then◌else◌}
use unico.Common.Words.{checked_add}
use unico.Layout.{Layout, from_size_align, padding_needed_for}

-- `max` of the module
unfoldable pub max : ℕ → ℕ → ℕ
max a b = if ltb b a then a else b

-- The `ct!` macro: leave with `None`.
infixl 5 ◌>>=◌
abbrev pub ◌>>=◌ {ℓ κ} : {A : Type ℓ} {B : Type κ} → Option A → (A → Option B) → Option B
none >>= f = none
some a >>= f = f a

unfoldable pub extend : Layout → Layout → Option (Layout × ℕ)
extend layout next = do
  let new_align = max layout.align next.align
  let pad = padding_needed_for layout next.align
  offset ← checked_add layout.size pad
  new_size ← checked_add offset next.size
  extended ← from_size_align new_size new_align
  some (extended, offset)
