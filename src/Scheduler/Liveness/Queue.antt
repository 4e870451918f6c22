-- ===== src/Scheduler/Liveness/Queue.antt =====
-- The loop of a worker, worker_loop of src/scheduler.cpp, where each run succeeds.
use mathlib.Core.Bool.{Bool-set}
use mathlib.Core.List.{Perm}
use ece506scheduler.Base.{
  ℕ, suc, ◌+◌, ◌≤◌, ◌<◌, ◌≡◌, refl, ◌∙◌, ap, true, [], ◌∷◌, some, is_some, All, All-perm, length,
  count, count-nil, count-cons, count-perm, inl, inr, arith, ◌==◌, if◌then◌else◌, Option, none,
  Bool-cases, ==_iff,
}
use ece506scheduler.Task.{Task}
use ece506scheduler.ReadyQueue.{ReadyQueue}
use ece506scheduler.Registry.{Registry, find_app}
use ece506scheduler.Scheduler.Deps.{
  mark_complete, Completed, mark_complete-Completed, mark_complete_self,
}
use ece506scheduler.Scheduler.Accelerators.{Accelerators, IsLawful}
use ece506scheduler.Scheduler.Impl.{Impl}
use ece506scheduler.Scheduler.Threads.{worker_body}
use ece506scheduler.Scheduler.Passes.{task_id}
use ece506scheduler.Scheduler.Rounds.{worker_body-Worked}
use ece506scheduler.Scheduler.Loop.{worker_loop, IsLive, worker_loop_ind}
use ece506scheduler.Scheduler.Staffed.{Duty, Has, IsSteady}
use ece506scheduler.Scheduler.Liveness.Body.{IsOk, Succeeds, worker_body-Finishes}

-- The task's app is registered.
abbrev pub IsKnown : Registry → Task → Type 0
IsKnown reg t = is_some (find_app t.app reg) ≡ true

IsKnown-found : {A : Type 0} (o : Option A) → is_some o ≡ true → (a : A) × (o ≡ some a)
IsKnown-found none h = cc
IsKnown-found (some a) h = (a, refl)

module _ {A W : Type 0} (ops : Accelerators A W) (P : Duty → A → Type 0) (steady : IsSteady ops P)
    (lawful : IsLawful ops) (succeeds : Succeeds ops P) where
  -- What the tasks of the queue need to be run.
  pub record IsServed (s : Impl A W) : Type 0 where
    pub known : All (IsKnown s.reg) s.ready.pq
    pub staffed : Has P s.accelerators

  -- What the loop makes of a state: every queued task is complete.
  pub record WorksThrough (n : ℕ) (s s' : Impl A W) : Type 0 where
    pub emptied : s'.ready.pq ≡ []
    pub waiting : s'.waiting ≡ s.waiting
    pub reg : s'.reg ≡ s.reg
    pub live : IsLive ops s'
    pub staffed : Has P s'.accelerators
    pub kept : (k : ℕ) → Completed s.completed k → Completed s'.completed k
    pub well : All IsOk s.reported → All IsOk s'.reported
    pub completes : (k : ℕ) → 0 < count task_id k s.ready.pq → Completed s'.completed k

  loop_idle :
      (n : ℕ) (s : Impl A W) → IsServed s → IsLive ops s → s.ready.pq ≡ [] → WorksThrough n s s
  loop_idle n s i v e = record {
    emptied = e;
    waiting = refl;
    reg = refl;
    live = v;
    staffed = i.staffed;
    kept = λ k h. h;
    well = λ h. h;
    completes = λ k h. absurd (omega (arith, ap (count task_id k) e, count-nil task_id k, h));
  }

  module _ (t : Task) (q : ReadyQueue) (s : Impl A W) (i : IsServed s) (v : IsLive ops s)
      (p : Perm s.ready.pq (t ∷ q.pq)) where
    abbrev body : Impl A W
    body = worker_body ops t (record s { ready = q })

    IsKnown-All : All (IsKnown s.reg) (t ∷ q.pq)
    IsKnown-All = All-perm (IsKnown s.reg) (λ u. Bool-set _ _) p i.known

    body_finishes :
        (body.completed ≡ mark_complete t.id s.completed)
        × Has P body.accelerators
        × (All IsOk s.reported → All IsOk body.reported)
    body_finishes =
        let (app, found) = IsKnown-found (find_app t.app s.reg) IsKnown-All.0 in
        worker_body-Finishes ops P steady lawful succeeds t app (record s { ready = q }) v.keyed
          found i.staffed

    loop_keep : IsServed body
    loop_keep =
        let w = worker_body-Worked ops lawful t (record s { ready = q }) v.keyed in
        record { known = rw (w.reg, w.ready) IsKnown-All.1; staffed = body_finishes.1 }

    popped_count :
        (k : ℕ) → count task_id k s.ready.pq ≡ (if t.id == k then 1 else 0) + count task_id k q.pq
    popped_count k = count-perm task_id k p ∙ count-cons task_id k t q.pq

    body_completes : (k : ℕ) → Completed s.completed k → Completed body.completed k
    body_completes k h = rw body_finishes.0 (mark_complete-Completed t.id k s.completed h)

    module _ (s' : Impl A W) (n : ℕ) (ih : WorksThrough n body s') where
      round_completes : (k : ℕ) → 0 < count task_id k s.ready.pq → Completed s'.completed k
      round_completes k h = elim (Bool-cases (t.id == k)) [
        | inl same ↦
            ih.kept k
              (rw (body_finishes.0, (==_iff t.id k).0 same) (mark_complete_self k s.completed))
        | inr other ↦
            let w = worker_body-Worked ops lawful t (record s { ready = q }) v.keyed in
            let now : count task_id k s.ready.pq ≡ 0 + count task_id k q.pq =
              popped_count k ∙ rw other refl in
            ih.completes k
              (omega (arith, h, now, ap (λ (r : ReadyQueue). count task_id k r.pq) w.ready))
      ]

      loop_body : WorksThrough (suc n) s s'
      loop_body =
          let w = worker_body-Worked ops lawful t (record s { ready = q }) v.keyed in
          record {
            emptied = ih.emptied;
            waiting = ih.waiting ∙ w.waiting;
            reg = ih.reg ∙ w.reg;
            live = ih.live;
            staffed = ih.staffed;
            kept = λ k h. ih.kept k (body_completes k h);
            well = λ h. ih.well (body_finishes.2 h);
            completes = round_completes;
          }

  pub worker_loop-WorksThrough :
      (n : ℕ) (s : Impl A W)
      → IsServed s
      → IsLive ops s
      → length s.ready.pq ≤ n
      → WorksThrough n s (worker_loop ops n s)
  worker_loop-WorksThrough =
      worker_loop_ind ops lawful IsServed WorksThrough loop_idle loop_keep
        (λ n t q s s' i v e p ih. loop_body t q s i v p s' n ih)
