-- ===== src/Context/Ucx/Calls.antt =====
-- `resume` and `resume_with` of the module, over the C library, do what the contract says.
use unico.Common.{
  ℕ, ◌≡◌, refl, ap, sym, subst, ◌∙◌, ◌⊎◌, inl, inr, Bool, false, Option, none, some, Option-cases,
}
use unico.Layout.{Layout}
use unico.Context.Machine.{
  switch, Arrival, transfer, MapFn, undefined, Code, stop, resume, resume_with, Machine, step_code,
}
use unico.Context.Ucx.{
  LibCode, Library, lib_step, landing, swap_with, wrapper, over_library, ucx_at,
}
use unico.Context.Ucx.Runs.{
  lib_run, LibReaches, LibReaches-trans, with_code, swapped, swap_with-Reaches, lost,
  swap_with-lost,
}
use unico.Context.Ucx.Simulation.{
  set_flag, started, Saved, landed, starting, Matches-none, Matches-some, Matches-switch, Simulates,
  Halted,
}

module _ {W E : Type 0} (ucontext : Layout) (failure : E) where
  module _ (get_status : ℕ → ℕ) where
    -- What the library's machine comes to while the contract's makes the step of one call.
    pub record Follows (f : ℕ → Bool) (m : Machine W E) (code : Code W E) (u : Library W E)
        : Type 0 where
      pub library : Library W E
      pub reaches : LibReaches get_status u library
      pub related :
          Simulates ucontext failure
            (started (ucx_at ucontext get_status) f code)
            (step_code (ucx_at ucontext get_status) m code)
            library
          ⊎ Halted ucontext failure (step_code (ucx_at ucontext get_status) m code) library

    pub from_code :
        (u : Library W E) {c : LibCode W E} {u' : Library W E}
        → u.code ≡ c
        → LibReaches get_status (with_code get_status ucontext failure u c) u'
        → LibReaches get_status u u'
    from_code u {u' = u'} e p =
        subst
          (λ (c : LibCode W E).
            LibReaches get_status (with_code get_status ucontext failure u c) u')
          (sym e) p

    -- The saved code of a target of `resume` goes on as the target does.
    Saved-resumed :
        (u : Library W E) (b : Bool) (c d : ℕ) (k : Arrival W E → LibCode W E)
        (target : Arrival W E → Code W E) (o : LibCode W E)
        → Saved ucontext failure b target o
        → LibReaches get_status (swapped get_status ucontext failure u c none d k o) (
            swapped get_status ucontext failure u c none d k (
              over_library ucontext failure
                (target (transfer (record { context = some u.local.ucx; data_ptr = d })))))
    unfolding landing wrapper lib_run lib_step
    Saved-resumed u b c d k target o (landed q) = rw q (record { rounds = 1; ends = refl })
    Saved-resumed u b c d k target o (starting entry n p q) =
        rw (q, p) (record { rounds = 1; ends = refl })

    -- That of a target of `resume_with`, which has started, executes the function first.
    Saved-resumed_with :
        (u : Library W E) (c d : ℕ) (g : MapFn W E) (k : Arrival W E → LibCode W E)
        (target : Arrival W E → Code W E) (o : LibCode W E)
        → Saved ucontext failure false target o
        → LibReaches get_status
            (swapped get_status ucontext failure u c (some g) d k o)
            (record (swapped get_status ucontext failure u c
              (some g)
              d
              k
              (over_library ucontext failure (target (g u.local.ucx d u.world).0))) {
                world = (g u.local.ucx d u.world).1;
              })
    unfolding landing wrapper lib_run lib_step
    Saved-resumed_with u c d g k target o (landed q) = rw q (record { rounds = 3; ends = refl })
    Saved-resumed_with u c d g k target o (starting entry n p q) = cc

    module _ (f : ℕ → Bool) (m : Machine W E) (u : Library W E)
        (s : Simulates ucontext failure f m u) where
      lost-Follows :
          (c d : ℕ) (on_top : Option (MapFn W E)) (k : Arrival W E → LibCode W E) (code : Code W E)
          → u.code ≡ swap_with ucontext failure c on_top d k
          → u.saved c ≡ none
          → step_code (ucx_at ucontext get_status) m code ≡ record m { code = stop undefined }
          → Follows f m code u
      lost-Follows c d on_top k code e h g = record {
        library = lost get_status ucontext failure u c on_top d;
        reaches = from_code u e (swap_with-lost get_status ucontext failure u c on_top d k h);
        related = inr (
            rw g (record {
              how = undefined;
              machine_eq = refl;
              library_eq = refl;
              world_eq = s.world_eq;
            }));
      }

      -- After a switch the contexts match again, and the code is what the call says.
      switched-Simulates :
          (c d : ℕ) (on_top : Option (MapFn W E)) (k : Arrival W E → Code W E) (w w' : W)
          (code : Code W E) (landed_code : LibCode W E)
          → w' ≡ w
          → landed_code ≡ over_library ucontext failure code
          → Simulates ucontext failure
              (set_flag f c false)
              (switch m c k w code)
              (record (swapped get_status ucontext failure u c on_top d
                (λ a. over_library ucontext failure (k a))
                landed_code) { world = w' })
      switched-Simulates c d on_top k w w' code landed_code v e = record {
        running_eq = refl;
        world_eq = v;
        code_eq = e;
        contexts = λ p.
            rw s.running_eq
              (Matches-switch ucontext failure f m.conts u.saved m.running c k s.contexts p);
      }

      pub resume-Follows :
          (c d : ℕ) (k : Arrival W E → Code W E)
          → m.code ≡ resume c d k
          → Follows f m (resume c d k) u
      unfolding over_library step_code started
      resume-Follows c d k e =
          let q : u.code
              ≡ swap_with ucontext failure c none d (λ a. over_library ucontext failure (k a)) =
            s.code_eq ∙ ap (over_library ucontext failure) e in
          elim (Option-cases (m.conts c)) [
            | inl g ↦
                lost-Follows c d none (λ a. over_library ucontext failure (k a)) (resume c d k) q
                  (Matches-none ucontext failure (f c) (u.saved c) (rw g at (s.contexts c)))
                  (rw (g, step_code) refl)
            | inr (target, g) ↦
                let (o, h, sv) =
                  Matches-some ucontext failure (f c) target (u.saved c) (rw g at (s.contexts c)) in
                record {
                  library = _;
                  reaches = from_code u q (
                      LibReaches-trans get_status
                        (swap_with-Reaches get_status ucontext failure u c none d _ h)
                        (Saved-resumed u (f c) c d _ target o sv));
                  related = inl (
                      rw (g, step_code)
                        (switched-Simulates c d none k m.world u.world
                          (target (transfer (record { context = some m.running; data_ptr = d }))) _
                          s.world_eq
                          (ap
                            (λ (q : ℕ).
                              over_library ucontext failure
                                (target (transfer (record { context = some q; data_ptr = d }))))
                            s.running_eq)));
                }
          ]

      pub resume_with-Follows :
          (c d : ℕ) (g : MapFn W E) (k : Arrival W E → Code W E)
          → m.code ≡ resume_with c d g k
          → f c ≡ false
          → Follows f m (resume_with c d g k) u
      unfolding over_library step_code started
      resume_with-Follows c d g k e n =
          let same : g u.local.ucx d u.world ≡ g m.running d m.world =
            ap (λ (q : ℕ). g q d u.world) s.running_eq
            ∙ ap (λ (w : W). g m.running d w) s.world_eq in
          let q : u.code
              ≡ swap_with ucontext failure c (some g) d (λ a. over_library ucontext failure (k a)) =
            s.code_eq ∙ ap (over_library ucontext failure) e in
          elim (Option-cases (m.conts c)) [
            | inl l ↦
                lost-Follows c d (some g) (λ a. over_library ucontext failure (k a))
                  (resume_with c d g k) q
                  (Matches-none ucontext failure (f c) (u.saved c) (rw l at (s.contexts c)))
                  (rw (l, step_code) refl)
            | inr (target, l) ↦
                let (o, h, sv) =
                  Matches-some ucontext failure (f c) target (u.saved c) (rw l at (s.contexts c)) in
                record {
                  library = _;
                  reaches = from_code u q (
                      LibReaches-trans get_status
                        (swap_with-Reaches get_status ucontext failure u c (some g) d _ h)
                        (Saved-resumed_with u c d g _ target o (rw n at sv)));
                  related = inl (
                      rw (l, step_code)
                        (switched-Simulates c d (some g) k (g m.running d m.world).1
                          (g u.local.ucx d u.world).1 (target (g m.running d m.world).0) _
                          (ap (λ (x : Arrival W E × W). x.1) same)
                          (ap (λ (x : Arrival W E × W). over_library ucontext failure (target x.0))
                            same)));
                }
          ]
