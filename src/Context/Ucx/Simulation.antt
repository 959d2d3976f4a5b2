-- ===== src/Context/Ucx/Simulation.antt =====
-- The C library's machine does what the contract of `Resume` says, call by call.
use unico.Common.{
  Bool-cases, ℕ, ◌≡◌, refl, inl, inr, Bool, true, false, Option, none, some, ◌==◌, if◌then◌else◌,
}
use unico.Layout.{Layout}
use unico.Context.Machine.{
  update, enter, Arrival, Stop, Code, stop, resume, resume_with, new_on, get, put, Machine,
}
use unico.Context.Ucx.{LibCode, lib_stop, Library, landing, wrapper, over_library}

-- Which contexts have not started yet.
abbrev pub set_flag : (ℕ → Bool) → ℕ → Bool → ℕ → Bool
set_flag f c b q = if c == q then b else f q

module _ {W E : Type 0} where
  unfoldable pub started : (ℕ → ℕ → Option ℕ) → (ℕ → Bool) → Code W E → ℕ → Bool
  started context_at f (stop s) = f
  started context_at f (resume c d k) = set_flag f c false
  started context_at f (resume_with c d g k) = set_flag f c false
  started context_at f (new_on base len entry k) = elim (context_at base len) [
    | none ↦ f
    | some c ↦ set_flag f c true
  ]
  started context_at f (get k) = f
  started context_at f (put w k) = f

  -- `resume_with` has a target that has started.
  abbrev pub IsProper : (ℕ → Bool) → Code W E → Type 0
  IsProper f (resume_with c d g k) = f c ≡ false
  IsProper f _ = Unit

module _ {W E : Type 0} (ucontext : Layout) (failure : E) where
  -- A saved context is one that waits in the module's `resume_with`, or a new one.
  pub data Saved (is_new : Bool) (k : Arrival W E → Code W E) (c : LibCode W E) : Type 0 where
    landed :
        c ≡ landing ucontext failure (λ a. over_library ucontext failure (k a)) 0 → Saved is_new k c
    starting :
        (entry : ℕ → ℕ → Code W E)
        → is_new ≡ true
        → k ≡ enter entry
        → c ≡ wrapper ucontext failure (λ q d. over_library ucontext failure (entry q d))
        → Saved is_new k c

  abbrev pub Matches : Bool → Option (Arrival W E → Code W E) → Option (LibCode W E) → Type 0
  Matches b none none = Unit
  Matches b none (some c) = ⊥
  Matches b (some k) none = ⊥
  Matches b (some k) (some c) = Saved b k c

  pub Matches-none : (b : Bool) (o : Option (LibCode W E)) → Matches b none o → o ≡ none
  Matches-none b none m = refl
  Matches-none b (some c) m = absurd m

  pub Matches-some :
      (b : Bool) (k : Arrival W E → Code W E) (o : Option (LibCode W E))
      → Matches b (some k) o
      → (c : LibCode W E) × (o ≡ some c) × Saved b k c
  Matches-some b k none m = absurd m
  Matches-some b k (some c) m = (c, refl, m)

  -- The two machines are at the same call, with the same contexts and memory.
  pub record Simulates (f : ℕ → Bool) (m : Machine W E) (u : Library W E) : Type 0 where
    pub running_eq : u.local.ucx ≡ m.running
    pub world_eq : u.world ≡ m.world
    pub code_eq : u.code ≡ over_library ucontext failure m.code
    pub contexts : (c : ℕ) → Matches (f c) (m.conts c) (u.saved c)

  -- Both have stopped, in the same way.
  pub record Halted (m : Machine W E) (u : Library W E) : Type 0 where
    pub how : Stop W E
    pub machine_eq : m.code ≡ stop how
    pub library_eq : u.code ≡ lib_stop how
    pub world_eq : u.world ≡ m.world

  -- The contexts after a switch from `q` to `c`.
  pub Matches-switch :
      (f : ℕ → Bool) (conts : ℕ → Option (Arrival W E → Code W E))
      (saved : ℕ → Option (LibCode W E)) (q c : ℕ) (k : Arrival W E → Code W E)
      → ((p : ℕ) → Matches (f p) (conts p) (saved p))
      → (p : ℕ)
      → Matches (set_flag f c false p) (update (update conts q (some k)) c none p) (
          update
            (update saved q
              (some (landing ucontext failure (λ a. over_library ucontext failure (k a)) 0)))
            c
            none
            p)
  Matches-switch f conts saved q c k h p = elim (Bool-cases (c == p)) [
    | inl e ↦ rw e tt
    | inr e ↦ elim (Bool-cases (q == p)) [
      | inl g ↦ rw (e, g) (landed refl)
      | inr g ↦ rw (e, g) (h p)
    ]
  ]
