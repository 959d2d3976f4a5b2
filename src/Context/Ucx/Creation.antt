-- ===== src/Context/Ucx/Creation.antt =====
-- `new_on` of the module does what the contract says.
use unico.Common.{
  Bool-cases, ℕ, zero, suc, ◌≡◌, refl, ap, ◌∙◌, ◌⊎◌, inl, inr, Bool, true, Option, none, some, ◌==◌,
  ok,
}
use unico.Layout.{Layout}
use unico.Context.{stack_top}
use unico.Context.Machine.{update, enter, Code, new_on, Machine, step_code}
use unico.Context.Ucx.{
  Library, lib_step, wrapper, getcontext, make_at, make_on, over_library, ucx_at,
}
use unico.Context.Ucx.Runs.{lib_run, LibReaches, with_code}
use unico.Context.Ucx.Simulation.{set_flag, started, starting, Matches, Simulates}
use unico.Context.Ucx.Calls.{Follows, from_code}

ℕ-cases : (n : ℕ) → (n ≡ zero) ⊎ ((k : ℕ) × (n ≡ suc k))
ℕ-cases zero = inl refl
ℕ-cases (suc k) = inr (k, refl)

module _ {W E : Type 0} (ucontext : Layout) (failure : E) (get_status : ℕ → ℕ) where
  module _ (f : ℕ → Bool) (m : Machine W E) (u : Library W E)
      (s : Simulates ucontext failure f m u) where
    refused-Follows :
        (base len : ℕ) (entry : ℕ → ℕ → Code W E) (k : Option ℕ → Code W E)
        → LibReaches get_status u
            (with_code get_status ucontext failure u (over_library ucontext failure (k none)))
        → ucx_at ucontext get_status base len ≡ none
        → Follows ucontext failure get_status f m (new_on base len entry k) u
    unfolding step_code started
    refused-Follows base len entry k r e = record {
      library = _;
      reaches = r;
      related = inl (
          rw (e, step_code, started)
            (record {
              running_eq = s.running_eq;
              world_eq = s.world_eq;
              code_eq = refl;
              contexts = s.contexts;
            }));
    }

    -- The contexts after a new one at `p`.
    Matches-new :
        (entry : ℕ → ℕ → Code W E) (p q : ℕ)
        → Matches ucontext failure (set_flag f p true q) (update m.conts p (some (enter entry)) q) (
            update u.saved p
              (some (wrapper ucontext failure (λ c d. over_library ucontext failure (entry c d))))
              q)
    Matches-new entry p q = elim (Bool-cases (p == q)) [
      | inl e ↦ rw e (starting entry refl refl refl)
      | inr e ↦ rw e (s.contexts q)
    ]

    made-Follows :
        (base len p : ℕ) (entry : ℕ → ℕ → Code W E) (k : Option ℕ → Code W E)
        → LibReaches get_status u (record u {
          saved =
              update u.saved p (
                some (wrapper ucontext failure (λ c d. over_library ucontext failure (entry c d))));
          code = over_library ucontext failure (k (some p));
        })
        → ucx_at ucontext get_status base len ≡ some p
        → Follows ucontext failure get_status f m (new_on base len entry k) u
    unfolding step_code started
    made-Follows base len p entry k r e = record {
      library = _;
      reaches = r;
      related = inl (
          rw (e, step_code, started)
            (record {
              running_eq = s.running_eq;
              world_eq = s.world_eq;
              code_eq = refl;
              contexts = Matches-new entry p;
            }));
    }

    pub new_on-Follows :
        (base len : ℕ) (entry : ℕ → ℕ → Code W E) (k : Option ℕ → Code W E) (o : Option ℕ)
        → m.code ≡ new_on base len entry k
        → stack_top ucontext base len ≡ ok o
        → Follows ucontext failure get_status f m (new_on base len entry k) u
    unfolding over_library make_on make_at ucx_at lib_run lib_step
    new_on-Follows base len entry k none e h =
        refused-Follows base len entry k
          (from_code ucontext failure get_status u
            (s.code_eq ∙ ap (over_library ucontext failure) e ∙ rw (h, make_on) refl)
            (record { rounds = 0; ends = refl }))
          (rw (h, ucx_at) refl)
    new_on-Follows base len entry k (some p) e h =
        let q : u.code
            ≡ getcontext p (
                make_at ucontext failure p (λ c d. over_library ucontext failure (entry c d))
                  (λ r. over_library ucontext failure (k r))) =
          s.code_eq ∙ ap (over_library ucontext failure) e ∙ rw (h, make_on) refl in
        elim (ℕ-cases (get_status p)) [
          | inl z ↦
              made-Follows base len p entry k
                (from_code ucontext failure get_status u q
                  (record { rounds = 2; ends = rw z refl }))
                (rw (h, ucx_at, z) refl)
          | inr (n, z) ↦
              refused-Follows base len entry k
                (from_code ucontext failure get_status u q
                  (record { rounds = 1; ends = rw z refl }))
                (rw (h, ucx_at, z) refl)
        ]
