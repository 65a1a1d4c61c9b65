-- ===== src/Threads/Joined.antt =====
-- A thread of src/thrd-compat.h from its creation to its join, and its wrapper's memory.
use cik.Prelude.{
  ℕ, ◌≡◌, ◌↔◌, ◌⊎◌, inl, inr, refl, true, Option, none, some, List, ◌∷◌, ◌==◌, if◌then◌else◌, arith,
}
use cik.Threads.{
  ThreadStatus, thrd_success, thrd_nomem, Wrapper, Threads, wrapper_at, wrapper_size, enomem,
  status_of, thrd_create, start_routine, thrd_join,
}
use cik.Memory.{Memory, reserve_memory, release_memory}
use cik.Memory.Buckets.{count, IsMemory, HasRoom}
use cik.Memory.Safety.{Reserved, reserve_memory-Reserved, release_memory-IsMemory}

-- The state behind `thrd_create` that got this bucket.
abbrev created : (ℕ → ℕ) → ℕ → ℕ → Memory → Threads → Threads
created func arg a m s = record {
  memory = m;
  wrappers = (a, record { func = func; arg = arg; res = 0 }) ∷ s.wrappers;
}

wrapper_at_first :
    (a : ℕ) (w : Wrapper) (rest : List (ℕ × Wrapper)) → wrapper_at a ((a, w) ∷ rest) ≡ some w
unfolding wrapper_at
wrapper_at_first a w rest = let same : (a == a) ≡ true = ground arith in rw (same, wrapper_at) refl

thrd_create-reserve :
    (err : ℕ) (func : ℕ → ℕ) (arg : ℕ) (s : Threads) (a : ℕ) (m : Memory)
    → reserve_memory wrapper_size s.memory ≡ (some a, m)
    → thrd_create err func arg s
      ≡ some (if err == enomem then thrd_nomem else status_of err, a, created func arg a m s)
unfolding thrd_create
thrd_create-reserve err func arg s a m h = ground (arith, h)

thrd_join-release :
    (a : ℕ) (w : Wrapper) (rest : List (ℕ × Wrapper)) (m m' : Memory)
    → release_memory a m ≡ some m'
    → thrd_join 0 a (record { memory = m; wrappers = (a, w) ∷ rest })
      ≡ some (thrd_success, some w.res, record { memory = m'; wrappers = (a, w) ∷ rest })
unfolding thrd_join
thrd_join-release a w rest m m' h = rw (wrapper_at_first a w rest, thrd_join) (rw h refl)

-- A failed assertion, or the status with the bucket in use; and what a join comes to after the
-- thread's function has returned.
abbrev pub CreatesAndJoins : ℕ → (ℕ → ℕ) → ℕ → Threads → List ℕ → Type 0
CreatesAndJoins err func arg s live =
    (thrd_create err func arg s ≡ none)
    ⊎ ((a : ℕ) × (s₁ : Threads) × (status : ThreadStatus) × (thrd_create err func arg s
          ≡ some (status, a, s₁))
        × ((status ≡ thrd_success) ↔ (err ≡ 0))
        × (count a live ≡ 0)
        × IsMemory s₁.memory (a ∷ live)
        × (s₂ : Threads) × (s₃ : Threads) × (start_routine a s₁ ≡ some s₂)
        × (thrd_join 0 a s₂ ≡ some (thrd_success, some (func arg), s₃))
        × IsMemory s₃.memory live)

-- In a consistent memory with room for the cursor a thread's creation gets a bucket that was not in
-- use, or an assertion fails because there is none. The bucket is in use then, whatever
-- pthread_create returned: the status is success for 0, and else one of the two errors. If it was 0,
-- the thread's function returns and pthread_join hands over its wrapper, then the join succeeds with
-- the function's result, and just the buckets are in use that were so before the creation.
pub thrd_create-thrd_join :
    (err : ℕ) (func : ℕ → ℕ) (arg : ℕ) (s : Threads) (live : List ℕ)
    → IsMemory s.memory live
    → HasRoom s.memory
    → CreatesAndJoins err func arg s live
unfolding start_routine thrd_create
thrd_create-thrd_join err func arg s live mem room =
    by_result (reserve_memory wrapper_size s.memory) refl
      (reserve_memory-Reserved s.memory live wrapper_size mem room)
  where
    by_result :
        (r : Option ℕ × Memory)
        → reserve_memory wrapper_size s.memory ≡ r
        → Reserved s.memory live wrapper_size r
        → CreatesAndJoins err func arg s live
    by_result (none, m) h reserved = inl (ground (arith, h))
    by_result (some a, m) h reserved =
        let wrapper : Wrapper = record { func = func; arg = arg; res = 0 } in
        let done : Wrapper = record { func = func; arg = arg; res = func arg } in
        let s₁ = created func arg a m s in
        let s₂ : Threads = record { memory = m; wrappers = (a, done) ∷ s₁.wrappers } in
        let (m', freed, mem') = release_memory-IsMemory m live a reserved.1 in
        inr (
          a,
          s₁,
          (if err == enomem then thrd_nomem else status_of err),
          thrd_create-reserve err func arg s a m h,
          ground arith,
          reserved.0,
          reserved.1,
          s₂,
          record { memory = m'; wrappers = s₂.wrappers },
          rw (wrapper_at_first a wrapper s.wrappers, start_routine) refl,
          thrd_join-release a done s₁.wrappers m m' freed,
          mem',
        )
