-- ===== src/Ful/Effect/Steps.antt =====
-- How the machine runs the computations of `Effect`, one operation at a time.
use unico.Common.{ℕ, suc, ◌≡◌, ◌≢◌, refl, Option, none, some, arith}
use unico.Context.Machine.{
  update, Arrival, transfer, Machine, get, put, resume, resume_with, new_on, enter, MapFn, run,
  step_code, Reaches,
}
use unico.Ful.Effect.{Payload, World, Program, alloc, read}

pub update_self {ℓ} : {A : Type ℓ} (f : ℕ → Option A) (p : ℕ) (v : Option A) → update f p v p ≡ v
update_self f p v = ground arith

pub update_other {ℓ} :
    {A : Type ℓ} (f : ℕ → Option A) (p q : ℕ) (v : Option A) → p ≢ q → update f p v q ≡ f q
update_other f p q v n = ground arith

module _ {Cell U : Type 0} where
  abbrev pub allocated : World Cell U → Cell → World Cell U
  allocated w c = record w {
    cells = update w.cells w.next_cell (some c);
    next_cell = suc w.next_cell;
  }

  abbrev pub set_cell : World Cell U → ℕ → Option Cell → World Cell U
  set_cell w p c = record w { cells = update w.cells p c }

module _ {P Cell U : Type 0} (m : Machine (World Cell U) (Payload P)) where
  -- The machine with another memory and other code for the running stack.
  abbrev pub at : World Cell U → Program P Cell U → Machine (World Cell U) (Payload P)
  at w code = record m { world = w; code = code }

  -- The machine after the running stack was suspended and `c` continued.
  abbrev pub switched :
      ℕ
      → (Arrival (World Cell U) (Payload P) → Program P Cell U)
      → Machine (World Cell U) (Payload P)
  switched c k = record m { conts = update (update m.conts m.running (some k)) c none; running = c }

module _ {P Cell U : Type 0} (context_at : ℕ → ℕ → Option ℕ)
    (m : Machine (World Cell U) (Payload P)) where
  pub alloc-Reaches :
      (w : World Cell U) (c : Cell) (k : ℕ → Program P Cell U) (h : Payload P → Program P Cell U)
      → Reaches context_at (at m w (alloc c k h)) (at m (allocated w c) (k w.next_cell))
  unfolding run step_code
  alloc-Reaches w c k h = record { rounds = 2; ends = refl }

  pub read-Reaches :
      (w : World Cell U) (p : ℕ) {c : Cell} (k : Cell → Program P Cell U)
      (h : Payload P → Program P Cell U)
      → w.cells p ≡ some c
      → Reaches context_at (at m w (read p k h)) (at m (set_cell w p none) (k c))
  unfolding run step_code
  read-Reaches w p k h e = record { rounds = 2; ends = rw e refl }

  pub put-Reaches :
      (w w' : World Cell U) (k : Program P Cell U)
      → Reaches context_at (at m w (put w' k)) (at m w' k)
  unfolding run step_code
  put-Reaches w w' k = record { rounds = 1; ends = refl }

  pub get-Reaches :
      (w : World Cell U) (k : World Cell U → Program P Cell U)
      → Reaches context_at (at m w (get k)) (at m w (k w))
  unfolding run step_code
  get-Reaches w k = record { rounds = 1; ends = refl }

  pub resume-Reaches :
      (w : World Cell U) (c d : ℕ) (k : Arrival (World Cell U) (Payload P) → Program P Cell U)
      {target : Arrival (World Cell U) (Payload P) → Program P Cell U}
      → m.conts c ≡ some target
      → Reaches context_at (at m w (resume c d k)) (record (switched m c k) {
        world = w;
        code = target (transfer (record { context = some m.running; data_ptr = d }));
      })
  unfolding run step_code
  resume-Reaches w c d k e = record { rounds = 1; ends = rw (e, run, step_code) refl }

  pub resume_with-Reaches :
      (w : World Cell U) (c d : ℕ) (f : MapFn (World Cell U) (Payload P))
      (k : Arrival (World Cell U) (Payload P) → Program P Cell U)
      {target : Arrival (World Cell U) (Payload P) → Program P Cell U}
      → m.conts c ≡ some target
      → Reaches context_at (at m w (resume_with c d f k)) (record (switched m c k) {
        world = (f m.running d w).1;
        code = target (f m.running d w).0;
      })
  unfolding run step_code
  resume_with-Reaches w c d f k e = record { rounds = 1; ends = rw (e, run, step_code) refl }

  pub new_on-Reaches :
      (w : World Cell U) (base len c : ℕ) (entry : ℕ → ℕ → Program P Cell U)
      (k : Option ℕ → Program P Cell U)
      → context_at base len ≡ some c
      → Reaches context_at
          (at m w (new_on base len entry k))
          (record m { conts = update m.conts c (some (enter entry)); world = w; code = k (some c) })
  unfolding run step_code
  new_on-Reaches w base len c entry k e = record { rounds = 1; ends = rw (e, run, step_code) refl }

  pub new_on-refused :
      (w : World Cell U) (base len : ℕ) (entry : ℕ → ℕ → Program P Cell U)
      (k : Option ℕ → Program P Cell U)
      → context_at base len ≡ none
      → Reaches context_at (at m w (new_on base len entry k)) (at m w (k none))
  unfolding run step_code
  new_on-refused w base len entry k e = record { rounds = 1; ends = rw (e, run, step_code) refl }
