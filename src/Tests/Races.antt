-- ===== src/Tests/Races.antt =====
-- A witness for the free list under several threads.
use cik.Prelude.{ℕ, List, [], ◌∷◌, ◌+◌, ◌≤◌}
use cik.Memory.Races.{Choice, interleave, new_partition, reserve, release, fail_once}
use cik.Memory.Races.Exclusive.{Linked, interleave-Linked}
use cik.Memory.Buckets.{count}

-- Two threads reserve at once, one marks the list and the other pushes a bucket. The first gives its
-- bucket back, an exchange fails, and it is popped again while the second gives back another.
abbrev two_threads : List (ℕ × Choice)
two_threads =
    (0, reserve)
    ∷ (1, reserve)
    ∷ (1, reserve)
    ∷ (0, reserve)
    ∷ (0, reserve)
    ∷ (0, reserve)
    ∷ (0, release 0)
    ∷ (0, fail_once)
    ∷ (0, fail_once)
    ∷ (0, reserve)
    ∷ (0, reserve)
    ∷ (1, release 1)
    ∷ (0, reserve)
    ∷ (0, reserve)
    ∷ (1, reserve)
    ∷ (1, reserve)
    ∷ (0, reserve)
    ∷ (0, reserve)
    ∷ (1, reserve)
    ∷ (1, reserve)
    ∷ []

interleave-Linked_example :
    (free : List ℕ) × Linked
      (interleave two_threads new_partition).next
      (interleave two_threads new_partition).free_buckets.pointer
      free
    × ((b : ℕ) → count b free + (interleave two_threads new_partition).uses b ≤ 1)
interleave-Linked_example = interleave-Linked two_threads
