-- ===== src/Sched/Lock.antt =====
-- async/src/sym/cx.rs on several threads: a task that waits, and wakers on other threads. A step is
-- what one thread does between two points at which another may come in; the lock of the state is a part
-- of what they share.
pub mod Exclusion
pub mod Progress
use unico.Common.{ℕ, suc, ◌+◌, ◌≡◌, Bool, true, false}
use unico.Sched.{Task, State, empty, notified, waiting}

-- Who holds the lock of the state.
pub data Holder : Type 0 where
  nobody : Holder
  waiter : Holder
  waker : Holder

-- Where the task is: outside of `wait`, before `lock`, after `lock`, in the loop of `schedule` that
-- looks for a next task, in the state, in the hands of the waker that took it out of the state, in
-- the run queue, or in a panic.
pub data Place : Type 0 where
  running : Place
  locking : Place
  deciding : Place
  spinning : Place
  parked : Place
  carried : Place
  queued : Place
  panicking : Place

pub record Shared (Meta : Type 0) : Type 0 where
  pub lock : Holder
  pub state : State Meta
  pub place : Place
  -- The number of other tasks in the run queue.
  pub others : ℕ
  -- A wake-up came, and no `wait` has returned since.
  pub woken : Bool

module _ {Meta : Type 0} (task : Task Meta) where
  -- The steps of `SchedContext::wait`.
  pub data WaitStep (s t : Shared Meta) : Type 0 where
    call : s.place ≡ running → t ≡ record s { place = locking } → WaitStep s t
    acquire :
        s.place ≡ locking
        → s.lock ≡ nobody
        → t ≡ record s { place = deciding; lock = waiter }
        → WaitStep s t
    take_notified :
        s.place ≡ deciding
        → s.state ≡ notified
        → t ≡ record s { place = running; lock = nobody; state = empty; woken = false }
        → WaitStep s t
    take_empty :
        s.place ≡ deciding → s.state ≡ empty → t ≡ record s { place = spinning } → WaitStep s t
    take_waiting :
        (other : Task Meta)
        → s.place ≡ deciding
        → s.state ≡ waiting other
        → t ≡ record s { place = panicking; lock = nobody; state = empty }
        → WaitStep s t
    -- `schedule` found a next task, and the closure runs on its stack.
    park :
        (n : ℕ)
        → s.place ≡ spinning
        → s.others ≡ suc n
        → t ≡ record s { place = parked; lock = nobody; state = waiting task; others = n }
        → WaitStep s t

  -- The steps of `wake_by_ref`. `replaced` is where the task is after the exchange of the state.
  abbrev pub replaced : State Meta → Place → Place
  replaced (waiting t) p = carried
  replaced empty p = p
  replaced notified p = p

  pub data WakeStep (s t : Shared Meta) : Type 0 where
    acquire : s.lock ≡ nobody → t ≡ record s { lock = waker } → WakeStep s t
    replace :
        s.lock ≡ waker
        → t ≡ record s {
          lock = nobody;
          state = notified;
          place = replaced s.state s.place;
          woken = true;
        }
        → WakeStep s t
    enqueue : s.place ≡ carried → t ≡ record s { place = queued } → WakeStep s t

  -- Another running task or thread, in `schedule`, `yield_now` or `leave`, takes the task out of the run
  -- queue and switches to it, and its loop in `wait` goes on.
  pub data DequeueStep (s t : Shared Meta) : Type 0 where
    continue_loop : s.place ≡ queued → t ≡ record s { place = locking } → DequeueStep s t

  -- Other tasks come into the run queue, and are taken out by other threads.
  pub data OtherStep (s t : Shared Meta) : Type 0 where
    push : t ≡ record s { others = suc s.others } → OtherStep s t
    pop : (n : ℕ) → s.others ≡ suc n → t ≡ record s { others = n } → OtherStep s t

  pub data Step (s t : Shared Meta) : Type 0 where
    by_wait : WaitStep s t → Step s t
    by_wake : WakeStep s t → Step s t
    by_dequeue : DequeueStep s t → Step s t
    by_others : OtherStep s t → Step s t

  -- The task runs, and nobody has woken it.
  abbrev pub at_first : ℕ → Shared Meta
  at_first n = record { lock = nobody; state = empty; place = running; others = n; woken = false }

  pub data Reachable : Shared Meta → Type 0 where
    initial : (n : ℕ) → Reachable (at_first n)
    after : (s t : Shared Meta) → Reachable s → Step s t → Reachable t
