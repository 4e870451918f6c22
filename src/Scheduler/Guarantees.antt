-- ===== src/Scheduler/Guarantees.antt =====
-- What the invariant of the scheduler's threads gives an application, in src/scheduler.cpp.
use mathlib.Core.List.{Memᴰ}
use ece506scheduler.Base.{
  ℕ, ◌+◌, ◌==◌, ◌≡◌, true, List, [], ◌∷◌, arith, All, All-map, All-Memᴰ, count, Bool-cases, inl,
  inr, subst,
}
use ece506scheduler.Task.{Task}
use ece506scheduler.Scheduler.Deps.{count_id, Completed, deps_satisfied_iff}
use ece506scheduler.Scheduler.Accelerators.{Accelerators, IsLawful}
use ece506scheduler.Scheduler.Passes.{task_id, result_id}
use ece506scheduler.Scheduler.Steps.{System, Reach}
use ece506scheduler.Scheduler.Safety.{succeeded, IsFresh, IsFresh-IsSafe, Reach-IsSafe}

pub All-Completed :
    (P : ℕ → Type 0) (d : ℕ) (completed : List ℕ) → Completed completed d → All P completed → P d
unfolding count_id
All-Completed P d [] c h = cc
All-Completed P d (x ∷ xs) c h = elim (Bool-cases (d == x)) [
  | inl same ↦ subst P (ground arith) h.0
  | inr other ↦ All-Completed P d xs (ground arith) h.1
]

module _ {A W : Type 0} (ops : Accelerators A W) (lawful : IsLawful ops) (c d : System A W)
    (fresh : IsFresh ops c) (run : Reach ops c d) where
  -- From a fresh scheduler, with accelerators that keep their laws, however the threads interleave:
  -- when a worker has taken a task, a success has been reported under every id that it depends on.
  busy-succeeded :
      (t : Task) → Memᴰ t d.busy → All (λ k. succeeded k d.impl.reported ≡ true) t.depends_on
  busy-succeeded t m =
      let h = Reach-IsSafe ops lawful run (IsFresh-IsSafe ops c fresh) in
      All-map _ _ t.depends_on
        (λ k done.
          All-Completed (λ j. succeeded j d.impl.reported ≡ true) k d.impl.completed done h.earned)
        ((deps_satisfied_iff t d.impl.completed).0 (All-Memᴰ _ d.busy m h.busy_ready))

  -- From a fresh scheduler, with accelerators that keep their laws, however the threads interleave,
  -- and under starts and stops: for every id, as many tasks were
  -- submitted as wait for dependencies, stand in the queue, are with a worker or have been reported,
  -- taken together.
  submitted-conserved :
      (k : ℕ)
      → count task_id k d.submitted
        ≡ count task_id k d.impl.waiting
          + count task_id k d.impl.ready.pq
          + count task_id k d.busy
          + count result_id k d.impl.reported
  submitted-conserved = (Reach-IsSafe ops lawful run (IsFresh-IsSafe ops c fresh)).conserved
