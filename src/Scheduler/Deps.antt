-- ===== src/Scheduler/Deps.antt =====
-- DependencyManager of src/scheduler.cpp. The std::set is the list of what was inserted.
use mathlib.Core.Logic.{◌↔◌}
use ece506scheduler.Base.{
  ℕ, ◌==◌, ◌≡◌, refl, Bool, true, false, ◌&&◌, ◌||◌, List, [], ◌∷◌, All, All-map, arith, false,
  Bool-cases, inl, inr,
}
use ece506scheduler.Task.{Task}

unfoldable pub mark_complete : ℕ → List ℕ → List ℕ
mark_complete id completed = id ∷ completed

-- completed_.count(d)
unfoldable pub count_id : ℕ → List ℕ → Bool
count_id d [] = false
count_id d (c ∷ cs) = d == c || count_id d cs

-- The loop over depends_on.
unfoldable pub all_counted : List ℕ → List ℕ → Bool
unfolding count_id
all_counted [] completed = true
all_counted (d ∷ ds) completed = count_id d completed && all_counted ds completed

unfoldable pub deps_satisfied : Task → List ℕ → Bool
unfolding all_counted
deps_satisfied t completed = all_counted t.depends_on completed

-- `id` has been marked complete.
abbrev pub Completed : List ℕ → ℕ → Type 0
Completed completed d = count_id d completed ≡ true

all_counted_iff :
    (ds completed : List ℕ) → (all_counted ds completed ≡ true) ↔ All (Completed completed) ds
unfolding all_counted
all_counted_iff [] completed = (λ _. tt, λ _. refl)
all_counted_iff (d ∷ ds) completed = ground (arith, all_counted_iff ds completed)

-- deps_satisfied answers true exactly when each dependency has been marked complete.
pub deps_satisfied_iff :
    (t : Task) (completed : List ℕ)
    → (deps_satisfied t completed ≡ true) ↔ All (Completed completed) t.depends_on
unfolding deps_satisfied
deps_satisfied_iff t completed = all_counted_iff t.depends_on completed

-- Marking a task complete never takes a completed one back.
pub mark_complete-Completed :
    (id d : ℕ) (completed : List ℕ)
    → Completed completed d
    → Completed (mark_complete id completed) d
unfolding mark_complete count_id
mark_complete-Completed id d completed h = ground arith

pub mark_complete_self : (id : ℕ) (completed : List ℕ) → Completed (mark_complete id completed) id
unfolding mark_complete count_id
mark_complete_self id completed = ground arith

-- A task that is ready stays ready when more tasks complete.
pub deps_satisfied_mark :
    (t : Task) (id : ℕ) (completed : List ℕ)
    → deps_satisfied t completed ≡ true
    → deps_satisfied t (mark_complete id completed) ≡ true
deps_satisfied_mark t id completed h = (deps_satisfied_iff t (mark_complete id completed)).1 (
    All-map _ _ t.depends_on (λ d. mark_complete-Completed id d completed)
      ((deps_satisfied_iff t completed).0 h))

-- A task that is not ready has a dependency that is not complete.
unmet_counted :
    (Q : ℕ → Type 0) (ds completed : List ℕ)
    → all_counted ds completed ≡ false
    → All Q ds
    → (d : ℕ) × (count_id d completed ≡ false) × Q d
unfolding all_counted
unmet_counted Q [] completed h all = cc
unmet_counted Q (d ∷ ds) completed h all = elim (Bool-cases (count_id d completed)) [
  | inl yet ↦ unmet_counted Q ds completed (ground (arith, h, yet)) all.1
  | inr open_still ↦ (d, open_still, all.0)
]

pub unmet_dependency :
    (Q : ℕ → Type 0) (t : Task) (completed : List ℕ)
    → deps_satisfied t completed ≡ false
    → All Q t.depends_on
    → (d : ℕ) × (count_id d completed ≡ false) × Q d
unfolding deps_satisfied
unmet_dependency Q t completed = unmet_counted Q t.depends_on completed
