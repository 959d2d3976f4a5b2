-- ===== src/Examples/Places.antt =====
-- Places in stacks: context/src/lib.rs, ful/src/sym/layout.rs and ful/src/sym/raw.rs.
use unico.Common.{◌-◌, ◌*◌, ℕ, ◌+◌, ◌≤◌, ◌<◌, ◌^◌, ◌≡◌, refl, max, none, some, arith, ok, ◌⊎◌}
use unico.Common.Words.{is_power_of_two, align_down}
use unico.Layout.{from_size_align, Layout, IsValid, round_up}
use unico.Context.{layout_union, stack_top, stack_layout}
use unico.Context.Boost.{boost_at, HandsOut, place-boost_at}
use unico.Context.Top.{Top, stack_top_lem}
use unico.Ful.Extend.{extend}
use unico.Ful.Extend
use unico.Ful.Extend.Bounds.{Extends, extend_lem}
use unico.Ful.Raw.{TaskLayouts, refused, placed, place, eval_layouts}
use unico.Ful.Raw.Fields.{Fields, eval_layouts_lem}
use unico.Ful.Raw.Placement.{Placed, place_lem}

abbrev words : ℕ → Layout
words n = record { size = 8 * n; align = 8 }

three_words-IsValid : IsValid (words 3)
three_words-IsValid = record { aligned = (3, omega arith, refl); fits = omega arith }

abbrev half : Layout
half = record { size = 6; align = 2 }

half-IsValid : IsValid half
half-IsValid = record { aligned = (1, omega arith, refl); fits = omega arith }

abbrev area : Layout
area = record { size = 16384; align = 16 }

area-IsValid : IsValid area
area-IsValid = record { aligned = (4, omega arith, refl); fits = omega arith }

extend_lem_example :
    ((2 ^ 63 < round_up 6 8 + 24 + Extend.max 2 8) × (extend half (words 3) ≡ none))
    ⊎ ((l : Layout) × (o : ℕ) × (extend half (words 3) ≡ some (l, o)) × Extends half (words 3) l o)
extend_lem_example = extend_lem half (words 3) half-IsValid three_words-IsValid

eval_layouts_lem_example :
    (eval_layouts half (words 3) half ≡ ok none)
    ⊎ ((ls : TaskLayouts) × (eval_layouts half (words 3) half ≡ ok (some ls))
        × Fields half (words 3) half ls)
eval_layouts_lem_example =
    eval_layouts_lem half (words 3) half half-IsValid three_words-IsValid half-IsValid

abbrev fields : TaskLayouts
fields = record {
  layout = record { size = 36; align = 8 };
  offset_stack = 0;
  offset_func = 24;
  offset_hook = 30;
}

fields-Fields : Fields half (words 3) half fields
fields-Fields = record {
  valid = record { aligned = (3, omega arith, refl); fits = omega arith };
  stack_first = refl;
  func_behind = omega arith;
  hook_behind = omega arith;
  end_eq = refl;
  func_aligned = refl;
  hook_aligned = refl;
  stack_align = omega arith;
  func_align = omega arith;
  hook_align = omega arith;
}

place_lem_example :
    (((16384 ≤ 36) ⊎ (16 < 8)) × (place fields 65536 area ≡ refused fields.layout area))
    ⊎ ((p : ℕ) × (rest : ℕ) × (place fields 65536 area ≡ placed p rest)
        × Placed half (words 3) half fields 65536 area p rest)
place_lem_example =
    place_lem half (words 3) half fields fields-Fields half-IsValid three_words-IsValid half-IsValid
      65536 area area-IsValid (omega arith) refl

-- A context of 64 bytes at the end of its stack.
abbrev make_fcontext : ℕ → ℕ → ℕ
make_fcontext top size = top - 64

place-boost_at_example :
    (place fields 65536 area ≡ refused fields.layout area)
    ⊎ ((p : ℕ) × (rest : ℕ) × (place fields 65536 area ≡ placed p rest)
        × (((rest < stack_layout.size) × (boost_at make_fcontext 65536 rest ≡ ok none))
            ⊎ HandsOut make_fcontext fields 65536 area p rest))
place-boost_at_example =
    place-boost_at make_fcontext half (words 3) half fields fields-Fields half-IsValid
      three_words-IsValid half-IsValid 65536 area area-IsValid (omega arith) refl (omega arith)

stack_top_lem_example :
    ((16384 < max 24 stack_layout.size) × (stack_top (words 3) 65536 16384 ≡ ok none))
    ⊎ ((p : ℕ) × (stack_top (words 3) 65536 16384 ≡ ok (some p)) × Top (words 3) 65536 16384 p)
stack_top_lem_example =
    stack_top_lem (words 3) 65536 16384 three_words-IsValid (omega arith) (omega arith)
      (omega arith) refl

-- A stack at an odd address.
odd_top : stack_top (words 3) 65537 16384 ≡ ok (some 81896)
unfolding stack_top layout_union from_size_align is_power_of_two align_down
odd_top = refl
