-- ===== src/Context/Ucx/Runs.antt =====
-- Runs of the C library's machine, and what a switch of the module does in one.
use unico.Common.{ℕ, zero, suc, ◌+◌, ◌≡◌, refl, ap, ◌∙◌, Option, none, some, arith}
use unico.Layout.{Layout}
use unico.Context.Machine.{update, Arrival, MapFn, undefined}
use unico.Context.Ucx.{LibCode, lib_stop, Library, lib_step, landing, swap_with}

module _ {W E : Type 0} (get_status : ℕ → ℕ) where
  unfoldable pub lib_run : ℕ → Library W E → Library W E
  lib_run zero u = u
  lib_run (suc n) u = lib_run n (lib_step get_status u u.code)

  -- The library's machine gets from one state to another.
  pub record LibReaches (u u' : Library W E) : Type 0 where
    pub rounds : ℕ
    pub ends : lib_run rounds u ≡ u'

  lib_run-add : (a b : ℕ) (u : Library W E) → lib_run (a + b) u ≡ lib_run b (lib_run a u)
  unfolding lib_run
  lib_run-add zero b u = let e : 0 + b ≡ b = omega arith in rw e refl
  lib_run-add (suc a) b u =
      let e : suc a + b ≡ suc (a + b) = omega arith in
      rw e (lib_run-add a b (lib_step get_status u u.code))

  pub LibReaches-trans :
      {u₁ u₂ u₃ : Library W E} → LibReaches u₁ u₂ → LibReaches u₂ u₃ → LibReaches u₁ u₃
  LibReaches-trans {u₁} p q = record {
    rounds = p.rounds + q.rounds;
    ends = lib_run-add p.rounds q.rounds u₁ ∙ ap (lib_run q.rounds) p.ends ∙ q.ends;
  }

  module _ (ucontext : Layout) (failure : E) (u : Library W E) where
    abbrev pub with_code : LibCode W E → Library W E
    with_code c = record u { code = c }

    -- The state when `target` goes on.
    abbrev pub swapped :
        ℕ → Option (MapFn W E) → ℕ → (Arrival W E → LibCode W E) → LibCode W E → Library W E
    swapped target on_top d k c = record {
      saved = update (update u.saved u.local.ucx (some (landing ucontext failure k 0))) target none;
      local = record { from = some u.local.ucx; ucx = target; on_top = on_top; data_ptr = d };
      world = u.world;
      code = c;
    }

    pub swap_with-Reaches :
        (target : ℕ) (on_top : Option (MapFn W E)) (d : ℕ) (k : Arrival W E → LibCode W E)
        {c : LibCode W E}
        → u.saved target ≡ some c
        → LibReaches
            (with_code (swap_with ucontext failure target on_top d k))
            (swapped target on_top d k c)
    unfolding swap_with lib_run lib_step
    swap_with-Reaches target on_top d k e = record {
      rounds = 3;
      ends = rw (e, lib_run, lib_step) refl;
    }

    -- The state when the target is not a suspended context.
    abbrev pub lost : ℕ → Option (MapFn W E) → ℕ → Library W E
    lost target on_top d = record u {
      local = record { from = some u.local.ucx; ucx = target; on_top = on_top; data_ptr = d };
      code = lib_stop undefined;
    }

    pub swap_with-lost :
        (target : ℕ) (on_top : Option (MapFn W E)) (d : ℕ) (k : Arrival W E → LibCode W E)
        → u.saved target ≡ none
        → LibReaches
            (with_code (swap_with ucontext failure target on_top d k))
            (lost target on_top d)
    unfolding swap_with lib_run lib_step
    swap_with-lost target on_top d k e = record {
      rounds = 3;
      ends = rw (e, lib_run, lib_step) refl;
    }
