-- ===== src/Ful/Asym/Drive.antt =====
-- Driving a generator over contexts with one value after another.
use unico.Common.{false, ℕ, ◌≡◌, ◌∙◌, refl, sym, subst, Option, none, List, [], ◌∷◌}
use unico.Context.Machine.{run, Machine, Reaches, Reaches-trans}
use unico.Ful.Effect.{Co, Payload, M}
use unico.Ful.Effect.Steps.{at}
use unico.Ful.Asym.{Cell, Gn, resume_gn}
use unico.Ful.Asym.Spec.{
  Generator, Reply, state, panic, resume_spec, drive_spec, Coherent, resume_spec-Coherent,
}
use unico.Ful.Asym.Cycle.{GWorld, GProgram}
use unico.Ful.Asym.Memory.{memory_of, Memory, Memory-refl, final_spec, Memory-trans}
use unico.Ful.Asym.Represents.{Represents, continue, Served}
use unico.Ful.Asym.Refine.{resume_gn_refines}

module _ {P Y R C U : Type 0} where
  -- A caller that resumes a generator with one value after another, and notes each reply; after a
  -- panic the generator is empty.
  abbrev pub drive : List R → Gn → M P (Cell P Y R C) U (List (Reply P Y C))
  drive [] gn k h = k []
  drive (r ∷ rs) gn k h =
      resume_gn gn r (λ x. drive rs x.1 (λ xs. k (state x.0 ∷ xs)) h)
        (λ e. drive rs (record { inner = none }) (λ xs. k (panic e ∷ xs)) h)

no_handle : ◌≡◌ {A = Option Co} none none
no_handle = refl

module _ {P Y R C U : Type 0} (context_at : ℕ → ℕ → Option ℕ) where
  -- The caller gets to go on with the replies of the specification, on its own stack, and the memory is
  -- the one that the generator leaves.
  abbrev Driven :
      ℕ
      → Machine (GWorld P Y R C U) (Payload P)
      → Machine (GWorld P Y R C U) (Payload P)
      → List R
      → Generator P Y R C
      → (List (Reply P Y C) → GProgram P Y R C U)
      → Type 0
  Driven slot before m rs s k =
      (m' : Machine (GWorld P Y R C U) (Payload P)) × Reaches context_at before m'
      × (m'.code ≡ k (drive_spec rs s))
      × (m'.running ≡ m.running)
      × Memory slot (memory_of m.world) s (final_spec rs s) (memory_of m'.world)

  drive_on :
      (slot : ℕ) (rs : List R) (m : Machine (GWorld P Y R C U) (Payload P)) (gn : Gn)
      (a : Reply P Y C) (s : Generator P Y R C) (k : List (Reply P Y C) → GProgram P Y R C U)
      (h : Payload P → GProgram P Y R C U)
      → ((m : Machine (GWorld P Y R C U) (Payload P)) (gn : Gn) (s : Generator P Y R C)
            (k : List (Reply P Y C) → GProgram P Y R C U) (h : Payload P → GProgram P Y R C U)
          → Represents false context_at slot m m.world gn s
          → Driven slot (at m m.world (drive rs gn k h)) m rs s k)
      → Coherent a s
      → Represents false context_at slot m m.world gn s
      → m.code
        ≡ continue false context_at a gn
            (λ x. drive rs x.1 (λ xs. k (state x.0 ∷ xs)) h)
            (λ e. drive rs (record { inner = none }) (λ xs. k (panic e ∷ xs)) h)
      → Driven slot m m rs s (λ xs. k (a ∷ xs))
  drive_on slot rs m gn (state st) s k h ih c v e =
      let (m', p, q, l, f) = ih m gn s (λ xs. k (state st ∷ xs)) h v in
      (
        m',
        subst (λ (x : GProgram P Y R C U). Reaches context_at (at m m.world x) m') (sym e) p,
        q,
        l,
        f,
      )
  drive_on slot rs m gn (panic x) s k h ih c v e =
      let (m', p, q, l, f) =
        ih m (record { inner = none }) s (λ xs. k (panic x ∷ xs)) h (rw c no_handle) in
      (
        m',
        subst (λ (y : GProgram P Y R C U). Reaches context_at (at m m.world y) m') (sym e) p,
        q,
        l,
        f,
      )

  -- A caller that drives a generator over contexts sees the replies of the specification.
  pub drive_refines :
      (slot : ℕ) (rs : List R) (m : Machine (GWorld P Y R C U) (Payload P)) (gn : Gn)
      (s : Generator P Y R C) (k : List (Reply P Y C) → GProgram P Y R C U)
      (h : Payload P → GProgram P Y R C U)
      → Represents false context_at slot m m.world gn s
      → Driven slot (at m m.world (drive rs gn k h)) m rs s k
  unfolding run
  drive_refines slot [] m gn s k h v = (
    at m m.world (k []),
    record { rounds = 0; ends = refl },
    refl,
    refl,
    Memory-refl slot (memory_of m.world) s,
  )
  drive_refines slot (r ∷ rs) m gn s k h v =
      let served : Served false context_at (at m m.world (drive (r ∷ rs) gn k h)) m.running
          (resume_spec s r).0 slot (memory_of m.world) s (resume_spec s r).1 _ _ =
        resume_gn_refines context_at m m.world gn r (λ x. drive rs x.1 (λ xs. k (state x.0 ∷ xs)) h)
          (λ e. drive rs (record { inner = none }) (λ xs. k (panic e ∷ xs)) h) slot s v in
      let (m', p, q, l, f) =
        drive_on slot rs served.machine served.gn (resume_spec s r).0 (resume_spec s r).1 k h
          (drive_refines slot rs) (resume_spec-Coherent s r) served.represents served.code_eq in
      (
        m',
        Reaches-trans context_at served.reaches p,
        q,
        l ∙ served.running_eq,
        Memory-trans slot (memory_of m.world) (memory_of served.machine.world) (memory_of m'.world)
            s r rs served.memory f,
      )
