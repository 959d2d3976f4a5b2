-- ===== src/Examples/Contexts.antt =====
-- A thread over the C library's contexts that makes one context and switches to it twice.
use unico.Common.{◌==◌, if◌then◌else◌, ℕ, ◌+◌, ◌≡◌, refl, arith, none, some}
use unico.Common.Words.{align_down, is_power_of_two}
use unico.Layout.{Layout, IsValid, from_size_align}
use unico.Context.{stack_top, layout_union}
use unico.Context.Machine.{
  Arrival, transfer, unwinding, MapFn, finished, aborted, Code, stop, resume, resume_with, new_on,
  get, put, step_code, run, Machine,
}
use unico.Context.Ucx.{
  write_world, read_world, LibCode, lib_stop, Library, ucx_at, swap_with, wrapper,
}
use unico.Context.Ucx.Runs.{LibReaches, with_code, swapped}
use unico.Context.Ucx.Simulation.{started}
use unico.Context.Ucx.Refine.{contract_root, library_root, ucx_refines, resume_with-starting}

-- The C library's type on x86-64.
abbrev ucontext : Layout
ucontext = record { size = 968; align = 8 }

abbrev get_status : ℕ → ℕ
get_status p = 0

-- Adds the data to the memory, and sends the next number back, without an end.
abbrev count_in : ℕ → ℕ → Code ℕ ℕ
count_in from d = get λ w. put (w + d) (
    resume from (d + 1) λ a. elim a [
      | transfer t ↦ get λ w. put (w + t.data_ptr) (resume from (t.data_ptr + 1) λ a. stop aborted)
      | unwinding e ↦ stop aborted
    ])

abbrev add_on_top : MapFn ℕ ℕ
add_on_top from d w = (transfer (record { context = some from; data_ptr = d }), w + 100)

abbrev program : Code ℕ ℕ
program = new_on 65536 8192 count_in λ r. elim r [
  | none ↦ stop aborted
  | some c ↦ resume c 5 λ a. elim a [
    | transfer t ↦ resume_with c 20 add_on_top λ a. elim a [
      | transfer s ↦ get λ w. put (w + s.data_ptr) (stop finished)
      | unwinding e ↦ stop aborted
    ]
    | unwinding e ↦ stop aborted
  ]
]

ucontext-IsValid : IsValid ucontext
ucontext-IsValid = record { aligned = (3, omega arith, refl); fits = omega arith }

context_at : ucx_at ucontext get_status 65536 8192 ≡ some 72760
unfolding ucx_at stack_top layout_union from_size_align align_down is_power_of_two
context_at = refl

abbrev at_end : ℕ → Machine ℕ ℕ
at_end n = run (ucx_at ucontext get_status) n (contract_root 4096 0 program)

added : (at_end 11).world ≡ 146
unfolding run step_code ucx_at stack_top layout_union from_size_align align_down is_power_of_two
added = refl

ends : (at_end 11).code ≡ stop finished
unfolding run step_code ucx_at stack_top layout_union from_size_align align_down is_power_of_two
ends = refl

ucx_refines_example :
    (u : Library ℕ ℕ) × LibReaches get_status (library_root ucontext 1 4096 0 program) u
    × (u.code ≡ lib_stop finished)
    × (u.world ≡ (at_end 11).world)
unfolding run step_code started ucx_at stack_top layout_union from_size_align align_down
    is_power_of_two
ucx_refines_example =
    ucx_refines ucontext 1 get_status ucontext-IsValid (omega arith) 4096 0 program 11 finished
      (tt, (tt, (tt, (tt, (tt, (refl, (tt, (tt, (tt, (tt, (tt, tt))))))))))) ends

-- Adds the data to the memory and ends.
abbrev sums : ℕ → ℕ → LibCode ℕ ℕ
sums from d = read_world λ w. write_world (w + d) (lib_stop finished)

abbrev halt : Arrival ℕ ℕ → LibCode ℕ ℕ
halt a = lib_stop finished

-- The library after the context was made.
abbrev made : Library ℕ ℕ
made = record {
  saved = λ c. if c == 72760 then some (wrapper ucontext 1 sums) else none;
  local = record { from = none; ucx = 4096; on_top = none; data_ptr = 0 };
  world = 0;
  code = lib_stop finished;
}

resume_with-starting_example :
    LibReaches get_status
      (with_code get_status ucontext 1 made (swap_with ucontext 1 72760 (some add_on_top) 20 halt))
      (swapped get_status ucontext 1 made 72760 (some add_on_top) 20 halt (sums 4096 20))
resume_with-starting_example =
    resume_with-starting ucontext 1 get_status made 72760 20 add_on_top halt sums refl
