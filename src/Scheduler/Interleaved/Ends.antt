-- ===== src/Scheduler/Interleaved/Ends.antt =====
-- What an application can rely on, in every interleaving of the accesses of src/scheduler.cpp.
use mathlib.Core.List.{Memᴰ}
use ece506scheduler.Base.{ℕ, ◌+◌, ◌≡◌, true, arith, All, All-map, All-Memᴰ, count}
use ece506scheduler.Task.{Task, AppDescriptor}
use ece506scheduler.Scheduler.Deps.{deps_satisfied_iff}
use ece506scheduler.Scheduler.Accelerators.{Accelerators, IsLawful}
use ece506scheduler.Scheduler.Passes.{task_id, result_id}
use ece506scheduler.Scheduler.Safety.{succeeded}
use ece506scheduler.Scheduler.Guarantees.{All-Completed}
use ece506scheduler.Scheduler.Interleaved.{running, Process, Reach}
use ece506scheduler.Scheduler.Interleaved.Weights.{watched, held}
use ece506scheduler.Scheduler.Interleaved.Sound.{IsNew, IsNew-IsSound}
use ece506scheduler.Scheduler.Interleaved.Invariant.{Reach-IsSound}

module _ {A W : Type 0} (ops : Accelerators A W) (lawful : IsLawful ops) (c d : Process A W)
    (new : IsNew c) (run : Reach ops c d) where
  -- From a process in which nothing has happened, with accelerators that keep their laws, however
  -- the steps of the threads interleave: when a worker is about to run a task on an
  -- accelerator, a success has been reported under every id that it depends on.
  pub running-succeeded :
      (i : ℕ) (t : Task) (app : AppDescriptor)
      → Memᴰ (running i t app) d.phases
      → All (λ k. succeeded k d.impl.reported ≡ true) t.depends_on
  running-succeeded i t app m =
      let h = Reach-IsSound ops lawful run (IsNew-IsSound c new) in
      let met = All-Memᴰ _ d.phases m h.relied in
      All-map _ _ t.depends_on
        (λ k done.
          All-Completed (λ j. succeeded j d.impl.reported ≡ true) k d.impl.completed done h.earned)
        ((deps_satisfied_iff t d.impl.completed).0 met)

  -- From a process in which nothing has happened, with accelerators that keep their laws, however
  -- the steps of the threads interleave, under starts and stops: for every id, as many
  -- tasks were submitted as wait, are in the watcher's hands, stand in the queue, are held by a
  -- thread or have been reported, taken together.
  pub submitted-accounted :
      (k : ℕ)
      → count task_id k d.submitted
        ≡ count task_id k d.impl.waiting
          + watched k d.watcher
          + count task_id k d.impl.ready.pq
          + held k d.phases
          + count result_id k d.impl.reported
  submitted-accounted k =
      omega (arith, (Reach-IsSound ops lawful run (IsNew-IsSound c new)).conserved k)
