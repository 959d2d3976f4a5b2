-- ===== src/Context/Ucx/Refine.antt =====
-- Whole runs: a program of the trait's calls over the C library ends as the contract says.
use unico.Common.{
  ℕ, zero, suc, ◌+◌, ◌≤◌, ◌^◌, ◌≡◌, refl, ap, sym, ◌∙◌, ◌⊎◌, inl, inr, Bool, false, Option, none,
  some, max,
}
use unico.Layout.{Layout, IsValid}
use unico.Context.{stack_layout}
use unico.Context.Top.{stack_top-ok}
use unico.Context.Machine.{
  Arrival, MapFn, Stop, Code, stop, resume, resume_with, new_on, get, put, Machine, step_code, run,
}
use unico.Context.Ucx.{
  LibCode, lib_stop, Library, lib_step, swap_with, wrapper, over_library, ucx_at,
}
use unico.Context.Ucx.Runs.{
  lib_run, LibReaches, LibReaches-trans, with_code, swapped, swap_with-Reaches,
}
use unico.Context.Ucx.Simulation.{started, IsProper, Simulates, Halted}
use unico.Context.Ucx.Calls.{Follows, from_code, resume-Follows, resume_with-Follows}
use unico.Context.Ucx.Creation.{new_on-Follows}

-- Every `resume_with` of the first `n` steps has a target that has started.
abbrev pub ProperRun : {W E : Type 0} → (ℕ → ℕ → Option ℕ) → ℕ → (ℕ → Bool) → Machine W E → Type 0
ProperRun context_at zero f m = Unit {0}
ProperRun context_at (suc n) f m =
    IsProper f m.code
    × ProperRun context_at n (started context_at f m.code) (step_code context_at m m.code)

-- The thread's first state: one stack, at `root`, and no other context.
abbrev pub contract_root : {W E : Type 0} → ℕ → W → Code W E → Machine W E
contract_root root w program = record {
  conts = λ c. none;
  running = root;
  world = w;
  code = program;
}

abbrev pub library_root : {W E : Type 0} → Layout → E → ℕ → W → Code W E → Library W E
library_root ucontext failure root w program = record {
  saved = λ c. none;
  local = record { from = none; ucx = root; on_top = none; data_ptr = 0 };
  world = w;
  code = over_library ucontext failure program;
}

module _ {W E : Type 0} (ucontext : Layout) (failure : E) (get_status : ℕ → ℕ)
    (v : IsValid ucontext)
    (small : max ucontext.size stack_layout.size + max ucontext.align stack_layout.align
      ≤ 2 ^ 63) where
  call-Follows :
      (f : ℕ → Bool) (m : Machine W E) (u : Library W E) (code : Code W E)
      → Simulates ucontext failure f m u
      → IsProper f code
      → m.code ≡ code
      → Follows ucontext failure get_status f m code u
  unfolding over_library started step_code lib_run lib_step
  call-Follows f m u (stop how) s p e = record {
    library = u;
    reaches = record { rounds = 0; ends = refl };
    related = inr (record {
      how = how;
      machine_eq = e;
      library_eq = s.code_eq ∙ ap (over_library ucontext failure) e;
      world_eq = s.world_eq;
    });
  }
  call-Follows f m u (resume c d k) s p e =
      resume-Follows ucontext failure get_status f m u s c d k e
  call-Follows f m u (resume_with c d g k) s p e =
      resume_with-Follows ucontext failure get_status f m u s c d g k e p
  call-Follows f m u (new_on base len entry k) s p e =
      let (o, h) = stack_top-ok ucontext base len v small in
      new_on-Follows ucontext failure get_status f m u s base len entry k o e h
  call-Follows f m u (get k) s p e = record {
    library = record u { code = over_library ucontext failure (k u.world) };
    reaches =
        from_code ucontext failure get_status u (s.code_eq ∙ ap (over_library ucontext failure) e)
          (record { rounds = 1; ends = refl });
    related = inl (record {
      running_eq = s.running_eq;
      world_eq = s.world_eq;
      code_eq = ap (λ (w : W). over_library ucontext failure (k w)) s.world_eq;
      contexts = s.contexts;
    });
  }
  call-Follows f m u (put w k) s p e = record {
    library = record u { world = w; code = over_library ucontext failure k };
    reaches =
        from_code ucontext failure get_status u (s.code_eq ∙ ap (over_library ucontext failure) e)
          (record { rounds = 1; ends = refl });
    related = inl (record {
      running_eq = s.running_eq;
      world_eq = refl;
      code_eq = refl;
      contexts = s.contexts;
    });
  }

  -- A machine that has stopped stays as it is.
  run-stop :
      (n : ℕ) (m : Machine W E) (how : Stop W E)
      → m.code ≡ stop how
      → run (ucx_at ucontext get_status) n m ≡ m
  unfolding run step_code
  run-stop zero m how e = refl
  run-stop (suc n) m how e =
      ap
        (λ (c : Code W E).
          run (ucx_at ucontext get_status) n (step_code (ucx_at ucontext get_status) m c))
        e
      ∙ run-stop n m how e

  -- What the library's machine comes to in a run of the contract's.
  record Tracks (u : Library W E) (m : Machine W E) : Type 0 where
    library : Library W E
    flags : ℕ → Bool
    reaches : LibReaches get_status u library
    related : Simulates ucontext failure flags m library ⊎ Halted ucontext failure m library

  run-Tracks :
      (n : ℕ) (f : ℕ → Bool) (m : Machine W E) (u : Library W E)
      → Simulates ucontext failure f m u
      → ProperRun (ucx_at ucontext get_status) n f m
      → Tracks u (run (ucx_at ucontext get_status) n m)
  unfolding run lib_run
  run-Tracks zero f m u s p = record {
    library = u;
    flags = f;
    reaches = record { rounds = 0; ends = refl };
    related = inl s;
  }
  run-Tracks (suc n) f m u s p =
      let x : Follows ucontext failure get_status f m m.code u =
        call-Follows f m u m.code s p.0 refl in
      elim x.related [
        | inl s' ↦
            let t : Tracks x.library (
                run (ucx_at ucontext get_status) n
                  (step_code (ucx_at ucontext get_status) m m.code)) =
              run-Tracks n (started (ucx_at ucontext get_status) f m.code)
                (step_code (ucx_at ucontext get_status) m m.code) x.library s' p.1 in
            record {
              library = t.library;
              flags = t.flags;
              reaches = LibReaches-trans get_status x.reaches t.reaches;
              related = t.related;
            }
        | inr h ↦ record {
          library = x.library;
          flags = f;
          reaches = x.reaches;
          related = inr (
              rw (run-stop n (step_code (ucx_at ucontext get_status) m m.code) h.how h.machine_eq)
                h);
        }
      ]

  -- A program of calls into the trait that stops on the contract's machine, from one stack, stops over
  -- the C library in the same way and with the same memory, provided that each `resume_with` in the run
  -- has a target that has started. Contexts stand where `stack_top` and `getcontext` let them.
  pub ucx_refines :
      (root : ℕ) (w : W) (program : Code W E) (n : ℕ) (how : Stop W E)
      → ProperRun (ucx_at ucontext get_status) n (λ c. false) (contract_root root w program)
      → (run (ucx_at ucontext get_status) n (contract_root root w program)).code ≡ stop how
      → (u : Library W E) × LibReaches get_status (library_root ucontext failure root w program) u
        × (u.code ≡ lib_stop how)
        × (u.world ≡ (run (ucx_at ucontext get_status) n (contract_root root w program)).world)
  unfolding over_library
  ucx_refines root w program n how p e =
      let t : Tracks (library_root ucontext failure root w program)
          (run (ucx_at ucontext get_status) n (contract_root root w program)) =
        run-Tracks n (λ c. false) (contract_root root w program)
          (library_root ucontext failure root w program)
          (record { running_eq = refl; world_eq = refl; code_eq = refl; contexts = λ c. tt }) p in
      elim t.related [
        | inl s ↦
            (t.library, t.reaches, s.code_eq ∙ ap (over_library ucontext failure) e, s.world_eq)
        | inr h ↦ (
          t.library,
          t.reaches,
          h.library_eq ∙ ap (over_library ucontext failure) (sym h.machine_eq ∙ e),
          h.world_eq,
        )
      ]

-- `resume_with` on a context that has not started calls its entry function and does not execute the
-- function: the memory stays as it is.
pub resume_with-starting :
    {W E : Type 0} (ucontext : Layout) (failure : E) (get_status : ℕ → ℕ) (u : Library W E)
    (c d : ℕ) (g : MapFn W E) (k : Arrival W E → LibCode W E) (entry : ℕ → ℕ → LibCode W E)
    → u.saved c ≡ some (wrapper ucontext failure entry)
    → LibReaches get_status
        (with_code get_status ucontext failure u (swap_with ucontext failure c (some g) d k))
        (swapped get_status ucontext failure u c (some g) d k (entry u.local.ucx d))
unfolding wrapper lib_run lib_step
resume_with-starting ucontext failure get_status u c d g k entry e =
    LibReaches-trans get_status (swap_with-Reaches get_status ucontext failure u c (some g) d k e)
      (record { rounds = 1; ends = refl })
