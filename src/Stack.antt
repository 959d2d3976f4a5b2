-- ===== src/Stack.antt =====
-- stack/src/lib.rs: the stack with its destructor, and the blanket `StackAllocator` that stores the
-- destructor's closure at the end of the block that it allocates.
pub mod Sizes
pub mod Ownership
pub mod Held
pub mod Pool
use unico.Common.{
  ℕ, ◌+◌, ◌*◌, ◌%◌, ◌≡◌, Bool, true, false, ◌&&◌, Option, none, some, List, [], ◌∷◌, ◌==◌,
  if◌then◌else◌, Fallible, ok, alloc_error, panicked, ◌>>=◌, or_alloc_error, unwrap,
}
use mathlib.Core.Option
use unico.Common.Words.{checked_sub, align_down}
use unico.Layout.{Layout, from_size_align, pad_to_align, layout_eqb}

-- A block that the allocator handed out, with the layout that it was asked for.
abbrev pub Block : Type 0
Block = ℕ × Layout

-- The captures of the closure that frees a block: `l`, the two layouts.
pub record Layouts : Type 0 where
  pub allocated : Layout
  pub returned : Layout

-- The memory as far as the stacks use it: the live blocks, and the closures written into them.
pub record Heap : Type 0 where
  pub blocks : List Block
  pub droppers : ℕ → Option Layouts

-- `unsafe fn(NonNull<u8>, Layout)`; `none` is undefined behaviour or a failed debug assertion.
abbrev pub DropFn : Type 0
DropFn = Heap → ℕ → Layout → Option Heap

pub record Stack : Type 0 where
  pub pointer : ℕ
  pub layout : Layout
  pub drop_fn : DropFn

abbrev pub default_layout : Layout
default_layout = record { size = 4096 * 6; align = 4096 }

-- `Stack::new`
unfoldable pub new : ℕ → Layout → DropFn → Stack
new pointer layout drop_fn = record { pointer = pointer; layout = layout; drop_fn = drop_fn }

-- `<Stack as Drop>::drop`
unfoldable pub drop : Stack → Heap → Option Heap
drop s h = s.drop_fn h s.pointer s.layout

abbrev pub block_eqb : Block → Block → Bool
block_eqb (p, l) (q, m) = p == q && layout_eqb l m

pub remove_block : Block → List Block → Option (List Block)
remove_block b [] = none
remove_block b (c ∷ bs) =
    if block_eqb b c then some bs else Option.map (λ r. c ∷ r) (remove_block b bs)

-- `Allocator::deallocate`: only a live block, with its own layout, may be freed.
unfoldable pub deallocate : Heap → ℕ → Layout → Option Heap
unfolding remove_block
deallocate h p l = Option.map (λ bs. record h { blocks = bs }) (remove_block (p, l) h.blocks)

-- The `layouts` helper for a closure type of the given layout.
unfoldable pub layouts : Layout → Layout → Fallible Layouts
layouts closure layout = do
  let allocated = pad_to_align layout
  room ← or_alloc_error (checked_sub allocated.size closure.size)
  returned ← unwrap (from_size_align (align_down room closure.align) layout.align)
  ok (record { allocated = allocated; returned = returned })

unfoldable pub dropper_in : ℕ → Layout → ℕ
dropper_in memory returned = memory + returned.size

abbrev pub update {ℓ} : {A : Type ℓ} → (ℕ → Option A) → ℕ → Option A → ℕ → Option A
update f p v q = if p == q then v else f q

-- `ptr::read` and `ptr::write` want a place that is aligned for the closure's type.
abbrev pub is_aligned_for : Layout → ℕ → Bool
is_aligned_for closure p = p % closure.align == 0

-- Reads a closure of a type of the given layout back and calls it. A read of a misaligned place is
-- undefined, and reading moves the closure out of the memory.
unfoldable pub execute_dropper : Layout → DropFn
execute_dropper closure h memory returned =
    if is_aligned_for closure (dropper_in memory returned)
    then (elim (h.droppers (dropper_in memory returned)) [
      | none ↦ none
      | some l ↦
          if layout_eqb returned l.returned
          then deallocate
              (record h { droppers = update h.droppers (dropper_in memory returned) none }) memory
              l.allocated
          else none
    ])
    else none

-- A write to a misaligned place is undefined, and panics where the language's checks are on; `panicked`
-- stands for both.
unfoldable pub write_dropper : Layout → Heap → ℕ → Layouts → Layouts → Fallible (Stack × Heap)
write_dropper closure h memory ls dropper =
    if is_aligned_for closure (dropper_in memory ls.returned)
    then ok (
      new memory ls.returned (execute_dropper closure),
      record h { droppers = update h.droppers (dropper_in memory ls.returned) (some dropper) },
    )
    else panicked

-- The parameters: the layout of the closure type, and `Allocator::allocate`, which picks an address
-- for a layout beside the live blocks, or fails.
module _ (closure : Layout) (find_block : List Block → Layout → Option ℕ) where
  -- `<T as StackAllocator>::allocate`
  unfoldable pub allocate : Heap → Layout → Fallible (Stack × Heap)
  allocate h layout = do
    ls ← layouts closure layout
    memory ← or_alloc_error (find_block h.blocks ls.allocated)
    write_dropper closure (record h { blocks = (memory, ls.allocated) ∷ h.blocks }) memory ls ls

  -- `From<(&A, Layout)>`: a failed allocation panics.
  unfoldable pub from_alloc_layout : Heap → Layout → Fallible (Stack × Heap)
  unfolding allocate
  from_alloc_layout h layout = elim (allocate h layout) [
    | ok r ↦ ok r
    | alloc_error ↦ panicked
    | panicked ↦ panicked
  ]

  -- `From<&A>`
  unfoldable pub from_alloc : Heap → Fallible (Stack × Heap)
  unfolding from_alloc_layout
  from_alloc h = from_alloc_layout h default_layout

  -- `Global`, as `global_stack_allocator!` defines it, and `From<Layout>`, which goes through it.
  unfoldable pub from_layout : Heap → Layout → Fallible (Stack × Heap)
  unfolding from_alloc_layout
  from_layout h layout = from_alloc_layout h layout

  -- `Default`, and `From<()>`.
  unfoldable pub default : Heap → Fallible (Stack × Heap)
  unfolding from_layout
  default h = from_layout h default_layout
