-- ===== src/Scheduler/Liveness/Served.antt =====
-- That src/scheduler.cpp finishes what was submitted, dependencies and all.
use ece506scheduler.Base.{
  ℕ, ◌+◌, ◌≤◌, ◌<◌, ◌≡◌, [], All, length, count, count-nil, ap, inl, inr, arith,
}
use ece506scheduler.Scheduler.Deps.{Completed}
use ece506scheduler.Scheduler.Accelerators.{Accelerators, IsLawful}
use ece506scheduler.Scheduler.Impl.{Impl}
use ece506scheduler.Scheduler.Passes.{task_id, result_id}
use ece506scheduler.Scheduler.Loop.{IsLive}
use ece506scheduler.Scheduler.Staffed.{Duty, Has, IsSteady}
use ece506scheduler.Scheduler.Liveness.Body.{Succeeds}
use ece506scheduler.Scheduler.Liveness.Queue.{IsKnown}
use ece506scheduler.Scheduler.Liveness.Turns.{outstanding, turns, AllOwed}
use ece506scheduler.Scheduler.Liveness.Orderly.{turns-IsOrderly, IsOrderly-done}

module _ {A W : Type 0} (ops : Accelerators A W) (P : Duty → A → Type 0) (steady : IsSteady ops P)
    (lawful : IsLawful ops) (succeeds : Succeeds ops P) where
  -- Where accelerators keep their laws, one of them is no slot and always available, each is of a kind
  -- that ends each run in success, both of which a use keeps, the scheduler runs, its queue is not
  -- stopped, its registry files each descriptor under its name, and each waiting or queued task's app
  -- is registered: if each dependency of a waiting task is complete, or is the id of a task that waits
  -- or is queued and has a smaller rank, all ranks being below `k`, then `k` turns of the watcher and a
  -- worker, with as many rounds in each as there are tasks, or more, leave no task waiting or queued;
  -- every task that waited or was queued is marked complete, none that was complete is taken back, and
  -- each id has been reported as often as it was waiting or queued.
  pub turns_complete :
      (rank : ℕ → ℕ) (k n : ℕ) (s : Impl A W)
      → IsLive ops s
      → Has P s.accelerators
      → All (IsKnown s.reg) s.waiting
      → All (IsKnown s.reg) s.ready.pq
      → All (AllOwed rank s) s.waiting
      → ((i : ℕ) → rank i < k)
      → length s.waiting + length s.ready.pq ≤ n
      → let s' = turns ops k n s in
        (s'.waiting ≡ [])
        × (s'.ready.pq ≡ [])
        × ((i : ℕ) → 0 < outstanding i s → Completed s'.completed i)
        × ((i : ℕ) → Completed s.completed i → Completed s'.completed i)
        × ((i : ℕ) → count result_id i s'.reported ≡ count result_id i s.reported + outstanding i s)
  turns_complete rank k n s live staffed waits queued owed bound fits =
      let (o, v) = turns-IsOrderly ops P steady lawful succeeds rank k n 0 s (record {
        live = live;
        staffed = staffed;
        known = (waits, queued);
        owed = owed;
        above = λ i h. omega arith;
        fits = fits;
      }) in
      let s' = turns ops k n s in
      let (w, q) =
        IsOrderly-done ops P steady lawful succeeds rank n (k + 0) s' (λ i. omega (arith, bound i))
          o in
      let nothing : (i : ℕ) → outstanding i s' ≡ 0 =
        λ i. omega (arith, ap (count task_id i) w, ap (count task_id i) q, count-nil task_id i) in
      (
        w,
        q,
        λ i h. elim (v.served i h) [
          | inl yet ↦ yet
          | inr out ↦ absurd (omega (arith, nothing i, out))
        ],
        v.kept,
        λ i. omega (arith, v.counted i, nothing i),
      )
