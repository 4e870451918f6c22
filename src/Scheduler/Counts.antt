-- ===== src/Scheduler/Counts.antt =====
-- The demand counts of record_ready in src/scheduler.cpp, and how they follow the queue when threads
-- interleave: the push and its +1, and the pop and its -1, are steps of their own there.
use ece506scheduler.Base.{
  ℕ, ℤ, pos, ◌+ℤ◌, ◌≤ℤ◌, ◌<ℤ◌, ◌<◌, max_ℤ, eq_of_parts, to_int32, ◌≡◌, refl, true, List, [], Text,
  text_eq, text_key, lookup, assign, erase, lookup-assign, lookup-erase, arith, if◌then◌else◌, ◌↔◌,
}
use ece506scheduler.Scheduler.Impl.{or_zero, store_count, update_count}

pub demand : Text → List (Text × ℤ) → ℤ
demand app counts = or_zero (lookup app counts)

pub demand-nil : (app : Text) → demand app [] ≡ pos 0
unfolding demand lookup
demand-nil app = refl

demand-assign :
    (app other : Text) (n : ℤ) (m : List (Text × ℤ))
    → demand other (assign app n m) ≡ (if text_eq app other then n else demand other m)
unfolding demand
demand-assign app other n m = rw (lookup-assign app other n m) (ground arith)

demand-erase :
    (app other : Text) (m : List (Text × ℤ))
    → demand other (erase app m) ≡ (if text_eq app other then pos 0 else demand other m)
unfolding demand
demand-erase app other m = rw (lookup-erase app other m) (ground arith)

demand-store_count :
    (threshold : ℕ) (app other : Text) (delta count : ℤ) (m : List (Text × ℤ))
    → demand other (store_count threshold app delta count m).0
      ≡ (if text_eq app other then count else demand other m)
unfolding store_count
demand-store_count threshold app other delta count m =
    ground
      (arith, demand-assign app other count m, demand-erase app other m, eq_of_parts count (pos 0))

-- record_ready adds `delta` to the count of the task's app, clamped at 0, and leaves those of the
-- other apps.
pub demand-update_count :
    (threshold : ℕ) (app other : Text) (delta : ℤ) (m : List (Text × ℤ))
    → demand other (update_count threshold app delta m).0
      ≡ (if text_eq app other then max_ℤ (pos 0) (demand app m +ℤ delta) else demand other m)
unfolding update_count demand
demand-update_count threshold app other delta m =
    demand-store_count threshold app other delta (max_ℤ (pos 0) (demand app m +ℤ delta)) m

-- It asks for a preload exactly if the count rises, the threshold is not 0, and the new count is
-- positive and has reached the threshold, read as an `int`.
pub preload-update_count :
    (threshold : ℕ) (app : Text) (delta : ℤ) (m : List (Text × ℤ))
    → ((update_count threshold app delta m).1 ≡ true) ↔ (
        (pos 0 <ℤ delta)
        × (0 < threshold)
        × (pos 0 <ℤ demand app m +ℤ delta)
        × (to_int32 threshold ≤ℤ demand app m +ℤ delta))
unfolding update_count demand store_count
preload-update_count threshold app delta m = ground arith
