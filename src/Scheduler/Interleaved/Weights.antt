-- ===== src/Scheduler/Interleaved/Weights.antt =====
-- The tasks that the threads hold, counted by id.
use ece506scheduler.Base.{
  ℕ, ◌+◌, ◌==◌, ◌≡◌, refl, List, [], ◌∷◌, ◌++◌, Option, none, some, arith, count, if◌then◌else◌,
}
use ece506scheduler.Scheduler.Passes.{task_id}
use ece506scheduler.Scheduler.Interleaved.{
  Phase, entering, pushing, holding, raising, lowering, looking, choosing, running, reporting,
  marking, Watcher, asleep, visiting, releasing, counting,
}

abbrev one_if : ℕ → ℕ → ℕ
one_if id k = if id == k then 1 else 0

-- A thread holds its task until it has put it into a list or reported it.
abbrev pub weight : ℕ → Phase → ℕ
weight k (entering t) = one_if t.id k
weight k (pushing t) = one_if t.id k
weight k (holding t) = one_if t.id k
weight k (raising t) = 0
weight k (lowering t) = one_if t.id k
weight k (looking t) = one_if t.id k
weight k (choosing t app) = one_if t.id k
weight k (running i t app) = one_if t.id k
weight k (reporting t r) = one_if t.id k
weight k (marking t) = 0

pub held : ℕ → List Phase → ℕ
held k [] = 0
held k (p ∷ ps) = weight k p + held k ps

pub held-nil : (k : ℕ) → held k [] ≡ 0
unfolding held
held-nil k = refl

pub held-cons : (k : ℕ) (p : Phase) (ps : List Phase) → held k (p ∷ ps) ≡ weight k p + held k ps
unfolding held
held-cons k p ps = refl

pub held-append : (k : ℕ) (ps qs : List Phase) → held k (ps ++ qs) ≡ held k ps + held k qs
unfolding held
held-append k [] qs = omega arith
held-append k (p ∷ ps) qs = omega (arith, held-append k ps qs)

abbrev pub weight_of : ℕ → Option Phase → ℕ
weight_of k none = 0
weight_of k (some p) = weight k p

-- The tasks of waiting_ that the watcher has in its hands.
abbrev pub watched : ℕ → Watcher → ℕ
watched k asleep = 0
watched k (visiting kept todo) = count task_id k kept + count task_id k todo
watched k (releasing kept t todo) = count task_id k kept + one_if t.id k + count task_id k todo
watched k (counting kept t todo) = count task_id k kept + count task_id k todo
