-- ===== src/ReadyQueue.antt =====
-- TaskCompare of include/schedrt/scheduler.hpp and ReadyQueue of src/scheduler.cpp. The heap of
-- std::priority_queue is the list of its elements: `top` is an element that no other one beats.
pub mod Order
pub mod Pop
pub mod Unique
use ece506scheduler.Base.{
  ℕ, ◌==◌, ltb, ltb_ℤ, eqb_ℤ, Bool, true, false, not, List, [], ◌∷◌, Option, none, some,
  if◌then◌else◌, is_empty, ◌||◌,
}
use ece506scheduler.Task.{Task}

-- operator()(a, b): `a` is served after `b`.
unfoldable pub task_compare : Task → Task → Bool
task_compare a b =
    if not (eqb_ℤ a.priority b.priority)
    then ltb_ℤ a.priority b.priority
    else if not (eqb_ℤ a.release_time b.release_time)
    then ltb_ℤ b.release_time a.release_time
    else ltb b.id a.id

pub record ReadyQueue : Type 0 where
  pub pq : List Task
  pub stop : Bool

abbrev pub new_queue : ReadyQueue
new_queue = record { pq = []; stop = false }

unfoldable pub push : Task → ReadyQueue → ReadyQueue
push t q = record q { pq = t ∷ q.pq }

-- pq_.top() and what pq_.pop() leaves.
unfoldable pub take_top : List Task → Option (Task × List Task)
take_top [] = none
take_top (t ∷ ts) = elim (take_top ts) [
  | none ↦ some (t, [])
  | some (u, rest) ↦ if task_compare u t then some (t, u ∷ rest) else some (u, t ∷ rest)
]

-- `blocked`: the condition variable's predicate is false and the thread waits.
pub data Popped : Type 0 where
  blocked : Popped
  stopped : Popped
  popped : Task → ReadyQueue → Popped

unfoldable pub pop_blocking : ReadyQueue → Popped
unfolding take_top
pop_blocking q =
    if not (q.stop || not (is_empty q.pq))
    then blocked
    else if q.stop
    then stopped
    else elim (take_top q.pq) [
      | none ↦ blocked
      | some (t, rest) ↦ popped t (record q { pq = rest })
    ]

unfoldable pub stop_queue : ReadyQueue → ReadyQueue
stop_queue q = record q { stop = true }
