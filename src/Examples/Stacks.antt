-- ===== src/Examples/Stacks.antt =====
-- stack/src/lib.rs with an allocator that hands out addresses behind all live blocks.
use native.Mathlib.Nat.{mul-mod_left, lt-div-mul-add}
use native.Mathlib.Decide.{ℕ_discrete}
use unico.Common.{
  none, ◌==◌, if◌then◌else◌, ◌*◌, panicked, ◌/◌, ℕ, ◌+◌, ◌≤◌, ◌<◌, ◌%◌, ◌≡◌, refl, max, Option,
  some, List, [], ◌∷◌, arith, ok, alloc_error, ◌⊎◌, inr,
}
use unico.Layout.{Layout, IsValid, round_up, pad_to_align}
use unico.Stack.{Stack, Heap, Block, Layouts, layouts, default_layout, allocate}
use unico.Stack.Sizes.{Split, layouts_lem}
use unico.Stack.Ownership.{default_layout-IsValid, Allocated, allocate_lem, allocate-misaligned}
use unico.Stack.Held.{ApartFrom, Pool, Op, create, drop_at, IsSound}
use unico.Stack.Pool.{run, empty, run-IsSound}

abbrev closure : Layout
closure = record { size = 32; align = 8 }

closure-IsValid : IsValid closure
closure-IsValid = record { aligned = (3, omega arith, refl); fits = omega arith }

abbrev first_free : List Block → ℕ
first_free [] = 4096
first_free (b ∷ bs) = max (b.0 + b.1.size) (first_free bs)

-- It hands out a place behind all live blocks, rounded up to the alignment.
abbrev find_block : List Block → Layout → Option ℕ
find_block bs l = if l.align == 0 then none else some (first_free bs / l.align * l.align + l.align)

first_free-ApartFrom :
    (bs : List Block) (l : Layout) (p : ℕ) → first_free bs ≤ p → ApartFrom (p, l) bs
first_free-ApartFrom [] l p h = tt
first_free-ApartFrom (b ∷ bs) l p h = (inr (omega arith), first_free-ApartFrom bs l p (omega arith))

-- What it hands out.
found :
    (bs : List Block) (l : Layout) (p : ℕ)
    → find_block bs l ≡ some p
    → (0 < l.align) × (p ≡ (first_free bs / l.align + 1) * l.align)
found bs l p e = elim (ℕ_discrete l.align 0) [
  | yes z ↦ cc (rw z at e)
  | no n ↦ (omega (arith, n), ground arith)
]

find_apart : (bs : List Block) (l : Layout) (p : ℕ) → find_block bs l ≡ some p → ApartFrom (p, l) bs
find_apart bs l p e =
    let (z, f) = found bs l p e in
    first_free-ApartFrom bs l p (omega (arith, lt-div-mul-add {a = first_free bs} z, f))

find_aligned : (bs : List Block) (l : Layout) (p : ℕ) → find_block bs l ≡ some p → p % l.align ≡ 0
find_aligned bs l p e = rw (found bs l p e).1 (mul-mod_left (first_free bs / l.align + 1) l.align)

abbrev two_creations : List Op
two_creations =
    create default_layout
    ∷ create default_layout
    ∷ drop_at 1
    ∷ create default_layout
    ∷ drop_at 0
    ∷ []

run-IsSound_example :
    (q : Pool) × (run closure find_block empty two_creations ≡ some q) × IsSound closure q
run-IsSound_example =
    run-IsSound closure find_block find_apart find_aligned closure-IsValid (omega arith)
      two_creations empty
      (
        (default_layout-IsValid, refl),
        ((default_layout-IsValid, refl), ((default_layout-IsValid, refl), tt)),
      )
      (record { apart = tt; owned = tt })

allocate_lem_example :
    (allocate closure find_block empty.heap default_layout ≡ alloc_error)
    ⊎ ((s : Stack) × (h : Heap) × (allocate closure find_block empty.heap default_layout
          ≡ ok (s, h))
        × Allocated closure find_block empty.heap default_layout s h)
allocate_lem_example =
    allocate_lem closure find_block empty.heap default_layout closure-IsValid default_layout-IsValid
      refl find_aligned

layouts_lem_example :
    (((pad_to_align default_layout).size < 32) × (layouts closure default_layout ≡ alloc_error))
    ⊎ ((ls : Layouts) × (layouts closure default_layout ≡ ok ls) × Split closure default_layout ls)
layouts_lem_example = layouts_lem closure default_layout closure-IsValid default_layout-IsValid

-- A byte-aligned stack of 100 bytes, in a block at an odd address.
abbrev bytes : Layout
bytes = record { size = 100; align = 1 }

bytes-IsValid : IsValid bytes
bytes-IsValid = record { aligned = (0, omega arith, refl); fits = omega arith }

abbrev odd_block : List Block → Layout → Option ℕ
odd_block bs l = some 4099

allocate-misaligned_example : allocate closure odd_block empty.heap bytes ≡ panicked
unfolding pad_to_align round_up
allocate-misaligned_example =
    allocate-misaligned closure odd_block empty.heap bytes 4099 closure-IsValid bytes-IsValid
      (omega arith) refl (omega arith)
