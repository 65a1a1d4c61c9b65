-- ===== src/Threads.antt =====
-- The threads of src/thrd-compat.h over those of the system, and init_util of src/util.c.
pub mod Joined
use cik.Prelude.{
  ℕ, zero, suc, ◌+◌, ◌-◌, ◌*◌, ◌/◌, ◌%◌, ◌^◌, ◌≤◌, ◌<◌, min, ◌≡◌, ◌≢◌, ◌↔◌, ◌⊎◌, inl, inr, refl,
  sym, ◌∙◌, ap, subst, Bool, true, false, Option, none, some, List, [], ◌∷◌, ◌++◌, append-nil,
  append_assoc, length, length-set, length-append, length-take, get_elem?, get_elem?-set_self,
  get_elem?-set_ne, lt_of_get_elem?, set, take, drop, take-append, drop-append, replicate, ltb, leb,
  ◌==◌, ==_iff, if◌then◌else◌, arith, Bool-cases, Option-cases,
}
use cik.Memory.{Memory, reserve_memory, release_memory}
use cik.Memory.Buckets.{count, IsMemory, HasRoom}
use cik.Memory.Safety.{Reserved, reserve_memory-Reserved, release_memory-IsMemory}

-- `thrd_success`, `thrd_error` and `thrd_nomem`.
pub data ThreadStatus : Type 0 where
  thrd_success thrd_error thrd_nomem : ThreadStatus

-- `struct _thrd_start_routine_arg`: a function of the program with the int that it returns.
pub record Wrapper : Type 0 where
  pub func : ℕ → ℕ
  pub arg : ℕ
  pub res : ℕ

-- The memory, and what stands in the buckets of wrappers, the latest write first.
pub record Threads : Type 0 where
  pub memory : Memory
  pub wrappers : List (ℕ × Wrapper)

unfoldable pub wrapper_at : ℕ → List (ℕ × Wrapper) → Option Wrapper
wrapper_at address [] = none
wrapper_at address ((a, wrapper) ∷ rest) =
    let later = wrapper_at address rest in if a == address then some wrapper else later

-- sizeof (struct _thrd_start_routine_arg), and ENOMEM.
abbrev pub wrapper_size : ℕ
wrapper_size = 24

abbrev pub enomem : ℕ
enomem = 12

-- The status of tss_create, tss_set and, but for ENOMEM, thrd_create.
abbrev pub status_of : ℕ → ThreadStatus
status_of err = if err == 0 then thrd_success else thrd_error

-- A key for data of the thread by what pthread_key_create or pthread_setspecific returns.
unfoldable pub tss_create : ℕ → ThreadStatus
tss_create err = status_of err

unfoldable pub tss_set : ℕ → ThreadStatus
tss_set err = status_of err

-- `init_util`: both calls of tss_create, of which the first that fails is returned.
unfoldable pub init_util : ℕ → ℕ → ThreadStatus
unfolding tss_create
init_util key_err tag_err = elim (tss_create key_err) [
  | thrd_success ↦ elim (tss_create tag_err) [ thrd_success ↦ thrd_success | err ↦ err ]
  | err ↦ err
]

-- With what pthread_create returns. The wrapper's address comes with the status; `none` is the
-- failed assertion.
unfoldable pub thrd_create : ℕ → (ℕ → ℕ) → ℕ → Threads → Option (ThreadStatus × ℕ × Threads)
thrd_create err func arg s =
    let (found, m) = reserve_memory wrapper_size s.memory in
    elim found [
      | none ↦ none
      | some address ↦ some (
        if err == enomem then thrd_nomem else status_of err,
        address,
        record {
          memory = m;
          wrappers = (address, record { func = func; arg = arg; res = 0 }) ∷ s.wrappers;
        },
      )
    ]

-- What the thread runs; `none` is a crash.
unfoldable pub start_routine : ℕ → Threads → Option Threads
unfolding wrapper_at
start_routine address s = elim (wrapper_at address s.wrappers) [
  | none ↦ none
  | some wrapper ↦ some (record s {
    wrappers = (address, record wrapper { res = wrapper.func wrapper.arg }) ∷ s.wrappers;
  })
]

-- With what pthread_join returns, and the wrapper's address, which it gets from the thread. The
-- result comes with the status if there is one.
unfoldable pub thrd_join : ℕ → ℕ → Threads → Option (ThreadStatus × Option ℕ × Threads)
unfolding wrapper_at
thrd_join err address s =
    if err == 0
    then elim (wrapper_at address s.wrappers) [
      | none ↦ none
      | some wrapper ↦ elim (release_memory address s.memory) [
        | none ↦ none
        | some m ↦ some (thrd_success, some wrapper.res, record s { memory = m })
      ]
    ]
    else some (thrd_error, none, s)
