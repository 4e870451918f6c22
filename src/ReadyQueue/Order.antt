-- ===== src/ReadyQueue/Order.antt =====
-- TaskCompare is a strict weak order, as std::priority_queue wants it.
use ece506scheduler.Base.{
  ◌<◌, ◌<ℤ◌, ◌≡◌, ◌⊎◌, true, false, ◌∙◌, inl, inr, sym, Bool-cases, arith, eq_of_parts,
}
use mathlib.Core.Bool.{false≢true}
use ece506scheduler.Task.{Task}
use ece506scheduler.ReadyQueue.{task_compare}

-- What TaskCompare says in words: a lower priority, or a later release, or a higher id is served
-- later.
abbrev pub ServedAfter : Task → Task → Type 0
ServedAfter a b =
    (a.priority <ℤ b.priority)
    ⊎ ((a.priority ≡ b.priority) × (b.release_time <ℤ a.release_time))
    ⊎ ((a.priority ≡ b.priority) × (a.release_time ≡ b.release_time) × (b.id < a.id))

pub ServedAfter-task_compare : (a b : Task) → task_compare a b ≡ true → ServedAfter a b
unfolding task_compare
ServedAfter-task_compare a b h =
    ground (arith, eq_of_parts a.priority b.priority, eq_of_parts a.release_time b.release_time)

pub task_compare-ServedAfter : (a b : Task) → ServedAfter a b → task_compare a b ≡ true
unfolding task_compare
task_compare-ServedAfter a b h = ground arith

pub task_compare_irrefl : (a : Task) → task_compare a a ≡ false
unfolding task_compare
task_compare_irrefl a = ground arith

pub task_compare_asymm : (a b : Task) → task_compare a b ≡ true → task_compare b a ≡ false
unfolding task_compare
task_compare_asymm a b h = ground arith

ServedAfter-trans : (a b c : Task) → ServedAfter a b → ServedAfter b c → ServedAfter a c
ServedAfter-trans a b c (inl p) (inl q) = inl (omega arith)
ServedAfter-trans a b c (inl p) (inr (inl q)) = inl (ground arith)
ServedAfter-trans a b c (inl p) (inr (inr q)) = inl (ground arith)
ServedAfter-trans a b c (inr (inl p)) (inl q) = inl (ground arith)
ServedAfter-trans a b c (inr (inl p)) (inr (inl q)) = inr (inl (p.0 ∙ q.0, omega arith))
ServedAfter-trans a b c (inr (inl p)) (inr (inr q)) = inr (inl (p.0 ∙ q.0, ground arith))
ServedAfter-trans a b c (inr (inr p)) (inl q) = inl (ground arith)
ServedAfter-trans a b c (inr (inr p)) (inr (inl q)) = inr (inl (p.0 ∙ q.0, ground arith))
ServedAfter-trans a b c (inr (inr p)) (inr (inr q)) = inr (inr (p.0 ∙ q.0, p.1 ∙ q.1, omega arith))

pub task_compare_trans :
    (a b c : Task) → task_compare a b ≡ true → task_compare b c ≡ true → task_compare a c ≡ true
task_compare_trans a b c h k =
    task_compare-ServedAfter a c
      (ServedAfter-trans a b c (ServedAfter-task_compare a b h) (ServedAfter-task_compare b c k))

-- Two tasks that are both unserved before the other agree in all that the order looks at.
pub task_compare_tie :
    (a b : Task)
    → task_compare a b ≡ false
    → task_compare b a ≡ false
    → (a.priority ≡ b.priority) × (a.release_time ≡ b.release_time) × (a.id ≡ b.id)
unfolding task_compare
task_compare_tie a b h k =
    ground (arith, eq_of_parts a.priority b.priority, eq_of_parts a.release_time b.release_time)

tie_congr :
    (a b c : Task)
    → (b.priority ≡ c.priority) × (b.release_time ≡ c.release_time) × (b.id ≡ c.id)
    → ServedAfter a c
    → ServedAfter a b
tie_congr a b c e (inl p) = inl (ground arith)
tie_congr a b c e (inr (inl p)) = inr (inl (p.0 ∙ sym e.0, ground arith))
tie_congr a b c e (inr (inr p)) = inr (inr (p.0 ∙ sym e.0, p.1 ∙ sym e.1, omega arith))

-- Not being served after is transitive too.
pub task_compare-false_trans :
    (a b c : Task) → task_compare a b ≡ false → task_compare b c ≡ false → task_compare a c ≡ false
task_compare-false_trans a b c h k = elim (Bool-cases (task_compare a c)) [
  | inr f ↦ f
  | inl ac ↦ elim (Bool-cases (task_compare b a)) [
    | inl ba ↦ absurd (false≢true (sym k ∙ task_compare_trans b a c ba ac))
    | inr ba ↦ elim (Bool-cases (task_compare c b)) [
      | inl cb ↦ absurd (false≢true (sym h ∙ task_compare_trans a c b ac cb))
      | inr cb ↦ absurd (
          false≢true (
            sym h
            ∙ task_compare-ServedAfter a b
                (tie_congr a b c (task_compare_tie b c k cb) (ServedAfter-task_compare a c ac))))
    ]
  ]
]
