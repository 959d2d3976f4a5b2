-- ===== src/Ful/Builder/Global.antt =====
-- ful/src/builder.rs: the free functions that take a stack from the global allocator.
use unico.Common.{Bool, ℕ, Option}
use unico.Stack.{Stack}
use unico.Ful.Raw.{TaskLayouts}
use unico.Ful.Effect.{Co, M}
use unico.Ful.Asym.{Cell, Gn}
use unico.Ful.Builder.{spawn_on, callcc_on, gen_on, spawn_unchecked_on, callcc_unchecked_on}

module _ {P Cell U : Type 0} where
  unfoldable pub spawn :
      TaskLayouts → M P Cell U Stack → (Option Co → M P Cell U Co) → M P Cell U Co
  spawn ls global func = spawn_on ls global global func

  unfoldable pub callcc :
      TaskLayouts → M P Cell U Stack → (Co → M P Cell U Co) → M P Cell U (Option Co)
  callcc ls global func = callcc_on ls global global func

  unfoldable pub spawn_unchecked :
      TaskLayouts → M P Cell U Stack → (Option Co → M P Cell U Co) → M P Cell U Co
  spawn_unchecked ls global func = spawn_unchecked_on ls global global func

  unfoldable pub callcc_unchecked :
      TaskLayouts → M P Cell U Stack → (Co → M P Cell U Co) → M P Cell U (Option Co)
  callcc_unchecked ls global func = callcc_unchecked_on ls global global func

unfoldable pub gen :
    {P Y R C U : Type 0}
    → (needs_drop : Bool) → TaskLayouts
    → M P (Cell P Y R C) U Stack
    → (ℕ → R → M P (Cell P Y R C) U C)
    → M P (Cell P Y R C) U Gn
gen needs_drop ls global func = gen_on needs_drop ls global global func
