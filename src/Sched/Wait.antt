-- ===== src/Sched/Wait.antt =====
-- `wait` and `wake`: a wake-up is neither lost nor given twice.
use unico.Common.{Option, ℕ, zero, suc, ◌≡◌, refl, ◌∙◌, ap}
use unico.Context.Machine.{Machine, Reaches, run, step_code}
use unico.Ful.Effect.{Payload, World, Program}
use unico.Ful.Effect.Steps.{at}
use unico.Sched.{Task, Scheduler, State, empty, notified, waiting, Slot, modify_user, wait, wake}

-- The slot and the scheduler are separate parts of the shared state.
pub record Separate {Meta U : Type 0} (s : Scheduler Meta U) (slot : Slot Meta U) : Type 0 where
  pub read_write : (v : State Meta) (u : U) → slot.read (slot.write v u) ≡ v
  pub write_write : (v v' : State Meta) (u : U) → slot.write v (slot.write v' u) ≡ slot.write v u
  pub read_enqueue : (t : Task Meta) (u : U) → slot.read (s.enqueue t u) ≡ slot.read u
  pub write_enqueue :
      (v : State Meta) (t : Task Meta) (u : U)
      → slot.write v (s.enqueue t u) ≡ s.enqueue t (slot.write v u)

-- So many calls of `wake`, one after another.
module _ {Meta U : Type 0} (s : Scheduler Meta U) (slot : Slot Meta U) where
  abbrev pub wakes : ℕ → U → U
  wakes zero u = u
  wakes (suc n) u = wake s slot (wakes n u)

module _ {Meta U : Type 0} (s : Scheduler Meta U) (slot : Slot Meta U) (sep : Separate s slot) where
  wake_enqueued :
      (u : U) (t : Task Meta)
      → wake s slot (s.enqueue t (slot.write notified u)) ≡ s.enqueue t (slot.write notified u)
  unfolding wake
  wake_enqueued u t =
      rw (wake, sep.read_enqueue t (slot.write notified u), sep.read_write notified u)
        (sep.write_enqueue notified t (slot.write notified u)
          ∙ ap (s.enqueue t) (sep.write_write notified notified u))

  -- However often a waiting task is woken before it runs, it is enqueued once, and the state is
  -- `Notified`.
  pub wake_once :
      (n : ℕ) (u : U) (t : Task Meta)
      → slot.read u ≡ waiting t
      → wakes s slot (suc n) u ≡ s.enqueue t (slot.write notified u)
  unfolding wake
  wake_once zero u t e = rw (wake, e) refl
  wake_once (suc n) u t e = ap (wake s slot) (wake_once n u t e) ∙ wake_enqueued u t

module _ {Meta P Cell U : Type 0} (s : Scheduler Meta U) (slot : Slot Meta U)
    (sep : Separate s slot) (context_at : ℕ → ℕ → Option ℕ) (m : Machine (World Cell U) (Payload P))
    (w : World Cell U) where
  -- A wake-up that comes before the task waits is kept: the next `wait` returns without scheduling,
  -- and uses the wake-up up.
  pub wait-wake :
      (n spins : ℕ) (k : Unit {0} → Program P Cell U) (h : Payload P → Program P Cell U)
      → slot.read w.user_state ≡ empty
      → Reaches context_at
          (at m (modify_user (wake s slot) w) (wait s slot (suc n) spins k h))
          (at m (modify_user (slot.write empty) w) (k tt))
  unfolding wake wait run step_code
  wait-wake n spins k h e = record {
    rounds = 2;
    ends =
        rw
          (
            wake,
            e,
            sep.read_write notified w.user_state,
            sep.write_write empty notified w.user_state,
          )
          refl;
  }
