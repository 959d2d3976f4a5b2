-- ===== src/Context/Ucx.antt =====
-- context/src/ucx.rs: the `Resume` trait over the C library's contexts. The library is a machine with
-- its documented operations: `swapcontext` saves the running context and continues the target's,
-- `makecontext` prepares one, and both, with `getcontext`, may fail. The thread-local slot `TRANSFER`
-- is a part of the machine's state.
pub mod Runs
pub mod Simulation
pub mod Calls
pub mod Creation
pub mod Refine
use unico.Common.{ℕ, zero, suc, Option, none, some, Fallible, ok, alloc_error, panicked}
use unico.Layout.{Layout}
use unico.Context.{stack_top}
use unico.Context.Machine.{
  Transfer, update, Arrival, transfer, unwinding, MapFn, Stop, aborted, uncaught, undefined, Code,
  stop, resume, resume_with, new_on, get, put,
}

module _ (W E : Type 0) where
  -- `LocalTransfer`. The field `data` is `data_ptr`.
  pub record LocalTransfer : Type 0 where
    pub from : Option ℕ
    pub ucx : ℕ
    pub on_top : Option (MapFn W E)
    pub data_ptr : ℕ

  -- Code of one stack in terms of the C library. `swapcontext` and `getcontext` go on with a status.
  pub data LibCode : Type 0 where
    lib_stop : Stop W E → LibCode
    get_transfer : (LocalTransfer → LibCode) → LibCode
    set_transfer : LocalTransfer → LibCode → LibCode
    swapcontext : ℕ → ℕ → (ℕ → LibCode) → LibCode
    getcontext : ℕ → (ℕ → LibCode) → LibCode
    makecontext : ℕ → LibCode → LibCode → LibCode
    read_world : (W → LibCode) → LibCode
    write_world : W → LibCode → LibCode

  -- The saved contexts, the slot, the shared memory, and the running stack's code.
  pub record Library : Type 0 where
    pub saved : ℕ → Option LibCode
    pub local : LocalTransfer
    pub world : W
    pub code : LibCode

-- Where the trait's `new_on` puts a context, if it does.
unfoldable pub ucx_at : Layout → (ℕ → ℕ) → ℕ → ℕ → Option ℕ
ucx_at ucontext get_status base len = elim (stack_top ucontext base len) [
  | ok (some pointer) ↦ elim (get_status pointer) [ zero ↦ some pointer | suc n ↦ none ]
  | _ ↦ none
]

module _ {W E : Type 0} where
  -- The parameter: the status of `getcontext` at an address, zero for success. That of `swapcontext`
  -- is zero when the context goes on.
  module _ (get_status : ℕ → ℕ) where
    unfoldable pub lib_step : Library W E → LibCode W E → Library W E
    lib_step u (lib_stop s) = u
    lib_step u (get_transfer k) = record u { code = k u.local }
    lib_step u (set_transfer t k) = record u { local = t; code = k }
    lib_step u (swapcontext src target k) = elim (u.saved target) [
      | none ↦ record u { code = lib_stop undefined }
      | some c ↦ record u { saved = update (update u.saved src (some (k 0))) target none; code = c }
    ]
    lib_step u (getcontext p k) = record u { code = k (get_status p) }
    lib_step u (makecontext p c k) = record u { saved = update u.saved p (some c); code = k }
    lib_step u (read_world k) = record u { code = k u.world }
    lib_step u (write_world w k) = record u { world = w; code = k }

  -- The parameters: the layout of `ucontext_t`, and the payload of a failed assertion.
  module _ (ucontext : Layout) (failure : E) where
    -- `resume_with` of the module after `swapcontext` has returned.
    unfoldable pub landing : (Arrival W E → LibCode W E) → ℕ → LibCode W E
    landing k zero = get_transfer λ t. elim t.from [
      | none ↦ k (unwinding failure)
      | some ucx ↦ elim t.on_top [
        | none ↦ k (transfer (record { context = some ucx; data_ptr = t.data_ptr }))
        | some on_top ↦
            read_world λ w. write_world (on_top ucx t.data_ptr w).1 (k (on_top ucx t.data_ptr w).0)
      ]
    ]
    landing k (suc status) = k (unwinding failure)

    -- `resume_with` of the module
    unfoldable pub swap_with :
        ℕ → Option (MapFn W E) → ℕ → (Arrival W E → LibCode W E) → LibCode W E
    swap_with target on_top data_ptr k = get_transfer λ t.
        set_transfer
          (record { from = some t.ucx; ucx = target; on_top = on_top; data_ptr = data_ptr })
          (swapcontext t.ucx target (landing k))

    -- `wrapper`, with which a new context starts; a panic does not leave it.
    unfoldable pub wrapper : (ℕ → ℕ → LibCode W E) → LibCode W E
    wrapper entry =
        get_transfer
          λ t. elim t.from [ none ↦ lib_stop aborted | some from ↦ entry from t.data_ptr ]

    -- `new_on` after `getcontext`
    unfoldable pub make_at : ℕ → (ℕ → ℕ → LibCode W E) → (Option ℕ → LibCode W E) → ℕ → LibCode W E
    make_at pointer entry k zero = makecontext pointer (wrapper entry) (k (some pointer))
    make_at pointer entry k (suc status) = k none

    -- `new_on`: the context stands at the top of its stack.
    unfoldable pub make_on : ℕ → ℕ → (ℕ → ℕ → LibCode W E) → (Option ℕ → LibCode W E) → LibCode W E
    make_on base len entry k = elim (stack_top ucontext base len) [
      | ok (some pointer) ↦ getcontext pointer (make_at pointer entry k)
      | ok none ↦ k none
      | _ ↦ lib_stop (uncaught failure)
    ]

    -- `impl Resume for Ucontext`: a program of the trait's calls, over the C library.
    unfoldable pub over_library : Code W E → LibCode W E
    over_library (stop s) = lib_stop s
    over_library (resume c d k) = swap_with c none d (λ a. over_library (k a))
    over_library (resume_with c d f k) = swap_with c (some f) d (λ a. over_library (k a))
    over_library (new_on base len entry k) =
        make_on base len (λ c d. over_library (entry c d)) (λ r. over_library (k r))
    over_library (get k) = read_world λ w. over_library (k w)
    over_library (put w k) = write_world w (over_library k)
