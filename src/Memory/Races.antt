-- ===== src/Memory/Races.antt =====
-- One partition's free list of src/memory.c under several threads, access by access.
pub mod Consistent
pub mod Moved
pub mod Popping
pub mod Releasing
pub mod Exclusive
use cik.Prelude.{
  ℕ, ◌+◌, ◌-◌, Bool, true, false, Option, none, some, List, [], ◌∷◌, ◌==◌, if◌then◌else◌,
}
use mathlib.Core.Bool.{not, ◌&&◌}

-- A pointer and its mark bit.
pub record Word : Type 0 where
  pub pointer : Option ℕ
  pub is_marked : Bool

-- Where a thread stands between two accesses of the shared memory. In `reserve_memory`: behind a
-- mark that succeeded, behind the read of the list, behind the read of its first bucket's `next`,
-- and before `push_memory`. In `release_memory` of a bucket: at the start of a round, and before its
-- exchange with what was read.
pub data Place : Type 0 where
  outside marked pushing : Place
  seen : Option ℕ → Place
  popping : ℕ → Word → Place
  linking : ℕ → Place
  swapping : ℕ → Option ℕ → Place

-- One partition: `free_buckets`, `next` of each bucket, the number of buckets that were pushed, of
-- which each is its number, how often each is in use, and the threads.
pub record Shared : Type 0 where
  pub free_buckets : Word
  pub next : ℕ → Word
  pub pushed : ℕ
  pub uses : ℕ → ℕ
  pub places : ℕ → Place

abbrev pub change : {A : Type 0} → (ℕ → A) → ℕ → A → ℕ → A
change f i a j = if j == i then a else f j

abbrev pub go_to : ℕ → Place → Shared → Shared
go_to i place s = record s { places = change s.places i place }

-- `MARK_POINTER`, the start of `reserve_memory`.
unfoldable pub mark : ℕ → Shared → Shared
mark i s =
    if s.free_buckets.is_marked
    then go_to i pushing s
    else go_to i marked (record s { free_buckets = record s.free_buckets { is_marked = true } })

-- `READ_POINTER`.
unfoldable pub read_list : ℕ → Shared → Shared
read_list i s = go_to i (seen s.free_buckets.pointer) s

-- `UNMARK_POINTER`.
unfoldable pub unmark : ℕ → Shared → Shared
unmark i s =
    go_to i pushing (record s { free_buckets = record s.free_buckets { is_marked = false } })

unfoldable pub read_next : ℕ → ℕ → Shared → Shared
read_next i b s = go_to i (popping b (s.next b)) s

-- `WRITE_POINTER`; then the bucket is returned.
unfoldable pub write_list : ℕ → ℕ → Word → Shared → Shared
write_list i b word s =
    go_to i outside (record s { free_buckets = word; uses = change s.uses b (s.uses b + 1) })

-- `push_memory`, while there is memory.
unfoldable pub push_new : ℕ → Shared → Shared
push_new i s =
    go_to i outside
      (record s { pushed = s.pushed + 1; uses = change s.uses s.pushed (s.uses s.pushed + 1) })

-- The call of `release_memory` for a bucket in use.
unfoldable pub give_back : ℕ → ℕ → Shared → Shared
give_back i b s =
    if s.uses b == 0
    then s
    else go_to i (linking b) (record s { uses = change s.uses b (s.uses b - 1) })

-- `bucket->next = READ_POINTER (free_list)`.
unfoldable pub link : ℕ → ℕ → Shared → Shared
link i b s = go_to i (swapping b s.free_buckets.pointer) (record s {
  next = change s.next b (record { pointer = s.free_buckets.pointer; is_marked = false });
})

abbrev pub same_pointer : Option ℕ → Option ℕ → Bool
same_pointer none none = true
same_pointer none (some b) = false
same_pointer (some a) none = false
same_pointer (some a) (some b) = a == b

-- `atomic_compare_exchange_weak`, which may also fail for no reason. If it fails it stores what it
-- found.
unfoldable pub swap : Bool → ℕ → ℕ → Option ℕ → Shared → Shared
swap spurious i b expected s =
    if not spurious
      && (not s.free_buckets.is_marked && same_pointer s.free_buckets.pointer expected)
    then go_to i outside
        (record s { free_buckets = record { pointer = some b; is_marked = false } })
    else go_to i (linking b) (record s { next = change s.next b s.free_buckets })

-- What a thread is to do next; what it is in the middle of goes on in any case.
pub data Choice : Type 0 where
  reserve : Choice
  release : ℕ → Choice
  fail_once : Choice

abbrev pub is_spurious : Choice → Bool
is_spurious fail_once = true
is_spurious other = false

unfoldable pub begin : Choice → ℕ → Shared → Shared
unfolding mark give_back
begin reserve i s = mark i s
begin (release b) i s = give_back i b s
begin fail_once i s = s

-- The next access of a thread.
unfoldable pub advance : ℕ → Choice → Place → Shared → Shared
unfolding begin read_list unmark read_next write_list push_new link swap
advance i choice outside s = begin choice i s
advance i choice marked s = read_list i s
advance i choice (seen none) s = unmark i s
advance i choice (seen (some b)) s = read_next i b s
advance i choice (popping b word) s = write_list i b word s
advance i choice pushing s = push_new i s
advance i choice (linking b) s = link i b s
advance i choice (swapping b expected) s = swap (is_spurious choice) i b expected s

-- The threads' accesses in the order in which they happen.
unfoldable pub interleave : List (ℕ × Choice) → Shared → Shared
unfolding advance
interleave [] s = s
interleave ((i, choice) ∷ rest) s = interleave rest (advance i choice (s.places i) s)

unfoldable pub new_partition : Shared
new_partition = record {
  free_buckets = record { pointer = none; is_marked = false };
  next = λ b. record { pointer = none; is_marked = false };
  pushed = 0;
  uses = λ b. 0;
  places = λ i. outside;
}
