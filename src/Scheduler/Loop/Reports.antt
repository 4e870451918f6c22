-- ===== src/Scheduler/Loop/Reports.antt =====
-- What a worker's loop, worker_loop of src/scheduler.cpp, reports and to which futures.
use mathlib.Core.List.{Perm}
use ece506scheduler.Base.{
  ℕ, suc, ◌+◌, ◌≤◌, ◌≡◌, refl, sym, ◌∙◌, ap, [], ◌∷◌, length, count, count-nil, count-cons,
  count-perm, arith, ◌==◌, if◌then◌else◌,
}
use ece506scheduler.Task.{Task}
use ece506scheduler.ReadyQueue.{ReadyQueue, pop_blocking, popped}
use ece506scheduler.Scheduler.Accelerators.{Accelerators, IsLawful}
use ece506scheduler.Scheduler.Impl.{Impl}
use ece506scheduler.Scheduler.Threads.{worker_body}
use ece506scheduler.Scheduler.Passes.{task_id, result_id}
use ece506scheduler.Scheduler.Rounds.{worker_body-Worked}
use ece506scheduler.Scheduler.Loop.{worker_loop, IsLive, worker_loop_ind}
use ece506scheduler.Dash.CompletionBus.{fulfill}
use ece506scheduler.Dash.Unshared.{IsUnshared, fulfill-IsUnshared}
use ece506scheduler.Scheduler.Interleaved.Delivery.{Serves, report-Serves}

module _ {A W : Type 0} (ops : Accelerators A W) (lawful : IsLawful ops) (k : ℕ) where
  abbrev Counts : ℕ → Impl A W → Impl A W → Type 0
  Counts n s s' =
      count result_id k s'.reported ≡ count result_id k s.reported + count task_id k s.ready.pq

  Counts-idle : (n : ℕ) (s : Impl A W) → Unit {0} → IsLive ops s → s.ready.pq ≡ [] → Counts n s s
  Counts-idle n s i v e = omega (arith, ap (count task_id k) e, count-nil task_id k)

  Counts-round :
      (n : ℕ) (t : Task) (q : ReadyQueue) (s s' : Impl A W)
      → Unit {0}
      → IsLive ops s
      → pop_blocking s.ready ≡ popped t q
      → Perm s.ready.pq (t ∷ q.pq)
      → Counts n (worker_body ops t (record s { ready = q })) s'
      → Counts (suc n) s s'
  Counts-round n t q s s' i v e p ih =
      let s1 = record s { ready = q } in
      let w = worker_body-Worked ops lawful t s1 v.keyed in
      let one : count result_id k (worker_body ops t s1).reported
          ≡ (if t.id == k then 1 else 0) + count result_id k s.reported =
        rw (w.reported, count-cons result_id k, w.id) refl in
      let taken : count task_id k s.ready.pq ≡ (if t.id == k then 1 else 0) + count task_id k q.pq =
        count-perm task_id k p ∙ count-cons task_id k t q.pq in
      omega (arith, ih, one, taken, ap (λ (r : ReadyQueue). count task_id k r.pq) w.ready)

  -- With rounds enough each id is reported as often as it is queued, besides the reports before.
  pub worker_loop-reports :
      (n : ℕ) (s : Impl A W)
      → IsLive ops s
      → length s.ready.pq ≤ n
      → count result_id k (worker_loop ops n s).reported
        ≡ count result_id k s.reported + count task_id k s.ready.pq
  worker_loop-reports n s =
      worker_loop_ind ops lawful (λ _. Unit {0}) Counts Counts-idle (λ t q s i v p. tt) Counts-round
        n s tt

  module _ (f m : ℕ) where
    abbrev Delivers : Impl A W → Type 0
    Delivers s = IsUnshared s.bus × Serves k f m s.bus s.reported

    Delivers-body :
        (t : Task) (q : ReadyQueue) (s : Impl A W)
        → Delivers s
        → IsLive ops s
        → Perm s.ready.pq (t ∷ q.pq)
        → Delivers (worker_body ops t (record s { ready = q }))
    Delivers-body t q s (u, h) v p =
        let w = worker_body-Worked ops lawful t (record s { ready = q }) v.keyed in
        rw (w.bus ∙ ap (λ j. fulfill j w.result.ok s.bus) (sym w.id), w.reported)
          (
            fulfill-IsUnshared w.result.id w.result.ok s.bus u,
            report-Serves k f m s.bus s.reported w.result u h,
          )

    -- The loop keeps what a subscribed future of `k` is promised.
    pub worker_loop-Serves :
        (n : ℕ) (s : Impl A W)
        → IsUnshared s.bus
        → Serves k f m s.bus s.reported
        → IsLive ops s
        → length s.ready.pq ≤ n
        → Serves k f m (worker_loop ops n s).bus (worker_loop ops n s).reported
    worker_loop-Serves n s u h v fits =
        (worker_loop_ind ops lawful Delivers (λ _ _ s'. Delivers s') (λ n s i v e. i) Delivers-body
          (λ n t q s s' i v e p ih. ih) n s (u, h) v fits).1
