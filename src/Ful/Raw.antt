-- ===== src/Ful/Raw.antt =====
-- ful/src/sym/raw.rs: the record of a coroutine at the top of its stack, and where it is placed.
pub mod Fields
pub mod Placement
use unico.Common.{
  ℕ, ◌+◌, ◌-◌, ◌%◌, ◌||◌, Option, none, some, Fallible, ok, panicked, ◌==◌, ltb, leb, if◌then◌else◌,
}
use unico.Common.Words.{usize_mod, align_down}
use unico.Layout.{Layout}
use unico.Ful.Extend.{extend, ◌>>=◌}

-- `Layouts` of raw.rs
pub record TaskLayouts : Type 0 where
  pub layout : Layout
  pub offset_stack : ℕ
  pub offset_func : ℕ
  pub offset_hook : ℕ

-- The three pointers of `RawCo`.
pub record RawCo : Type 0 where
  pub stack : ℕ
  pub func : ℕ
  pub panic_hook : ℕ

-- `Layout::new::<()>()`
abbrev pub unit_layout : Layout
unit_layout = record { size = 0; align = 1 }

-- The layouts of the closure, the stack handle and the panic hook are the parameters.
unfoldable pub extend_all : Layout → Layout → Layout → Option TaskLayouts
extend_all func stack hook = do
  (with_stack, offset_stack) ← extend unit_layout stack
  (with_func, offset_func) ← extend with_stack func
  (with_hook, offset_hook) ← extend with_func hook
  some (record {
    layout = with_hook;
    offset_stack = offset_stack;
    offset_func = offset_func;
    offset_hook = offset_hook;
  })

-- `eval_layouts`, with its assertion.
unfoldable pub eval_layouts : Layout → Layout → Layout → Fallible (Option TaskLayouts)
eval_layouts func stack hook = elim (extend_all func stack hook) [
  | none ↦ ok none
  | some ls ↦ if ls.offset_stack == 0 then ok (some ls) else panicked
]

-- `layouts`: reaching `None` is `unreachable!`.
unfoldable pub layouts : Layout → Layout → Layout → Fallible TaskLayouts
layouts func stack hook = elim (eval_layouts func stack hook) [
  | ok (some ls) ↦ ok ls
  | _ ↦ panicked
]

unfoldable pub from_ptr : TaskLayouts → ℕ → RawCo
from_ptr ls ptr = record {
  stack = ptr + ls.offset_stack;
  func = ptr + ls.offset_func;
  panic_hook = ptr + ls.offset_hook;
}

-- `StackTooSmall` with the expected and the actual layout, or the place that `new_on_imp` finds: the record's address, and the size of the rest
-- of the stack, on which the context is created.
pub data Place : Type 0 where
  refused : Layout → Layout → Place
  placed : ℕ → ℕ → Place

-- The guard and the address arithmetic of `new_on_imp`.
unfoldable pub place : TaskLayouts → ℕ → Layout → Place
place ls bottom stack_layout =
    if leb stack_layout.size ls.layout.size || ltb stack_layout.align ls.layout.align
    then refused ls.layout stack_layout
    else placed addr ((addr + usize_mod - bottom) % usize_mod)
  where
    addr : ℕ
    addr =
        align_down ((bottom + stack_layout.size + usize_mod - ls.layout.size) % usize_mod)
          ls.layout.align
