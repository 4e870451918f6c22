-- ===== src/Scheduler/Passes.antt =====
-- What one pass of dep_loop in src/scheduler.cpp does with the tasks.
use mathlib.Core.Bool.{false≢true}
use ece506scheduler.Base.{
  All-append, false, if_ind, ℕ, ◌+◌, ◌≡◌, refl, sym, subst, ◌∙◌, inl, inr, true, List, [], ◌∷◌,
  ◌++◌, arith, ap, count, count-nil, count-cons, count-append, All, Bool-cases,
}
use ece506scheduler.Task.{Task, ExecutionResult}
use ece506scheduler.ReadyQueue.{push}
use ece506scheduler.Scheduler.Deps.{deps_satisfied}
use ece506scheduler.Scheduler.Accelerators.{Accelerators}
use ece506scheduler.Scheduler.Impl.{Impl, make_ready}
use ece506scheduler.Scheduler.Threads.{dep_visit, dep_pass}
use ece506scheduler.Scheduler.Frame.{make_ready-queues}

abbrev pub task_id : Task → ℕ
task_id t = t.id

abbrev pub result_id : ExecutionResult → ℕ
result_id r = r.id

-- The tasks of the queue whose dependencies are complete, as a predicate of a task list.
abbrev pub AllSatisfied : List ℕ → List Task → Type 0
AllSatisfied completed = All (λ t. deps_satisfied t completed ≡ true)

-- Each task of the list has a dependency that is not complete.
abbrev pub AllUnmet : List ℕ → List Task → Type 0
AllUnmet completed = All (λ t. deps_satisfied t completed ≡ false)

-- What a pass over `ts` makes of a state, with `kept` left over before.
pub record Visited {A W : Type 0} (kept ts : List Task) (s s' : Impl A W) : Type 0 where
  pub completed : s'.completed ≡ s.completed
  pub reg : s'.reg ≡ s.reg
  pub reported : s'.reported ≡ s.reported
  pub bus : s'.bus ≡ s.bus
  pub stop : s'.ready.stop ≡ s.ready.stop
  pub moved :
      (k : ℕ)
      → count task_id k s'.waiting + count task_id k s'.ready.pq
        ≡ count task_id k kept + count task_id k ts + count task_id k s.ready.pq
  pub satisfied : AllSatisfied s.completed s.ready.pq → AllSatisfied s.completed s'.ready.pq
  pub left : AllUnmet s.completed kept → AllUnmet s.completed s'.waiting

module _ {A W : Type 0} (s s1 s' : Impl A W) (t : Task) (kept ts : List Task)
    (queued : s1.ready.pq ≡ record t { ready = true } ∷ s.ready.pq)
    (v : Visited kept ts s1 s') where
  ready-moved :
      (k : ℕ)
      → count task_id k s'.waiting + count task_id k s'.ready.pq
        ≡ count task_id k kept + count task_id k (t ∷ ts) + count task_id k s.ready.pq
  ready-moved k = omega (
    arith,
    v.moved k,
    ap (count task_id k) queued,
    count-cons task_id k (record t { ready = true }) s.ready.pq,
    count-cons task_id k t ts,
  )

  ready-satisfied :
      s1.completed ≡ s.completed
      → deps_satisfied t s.completed ≡ true
      → AllSatisfied s.completed s.ready.pq
      → AllSatisfied s.completed s'.ready.pq
  unfolding deps_satisfied
  ready-satisfied c d h =
      subst (λ cs. AllSatisfied cs s1.ready.pq → AllSatisfied cs s'.ready.pq) c v.satisfied
        (subst (AllSatisfied s.completed) (sym queued) (d, h))

module _ {A W : Type 0} (ops : Accelerators A W) where
  pub make_ready-pq :
      (t : Task) (s : Impl A W)
      → (make_ready ops t s).ready.pq ≡ record t { ready = true } ∷ s.ready.pq
  unfolding push
  make_ready-pq t s = ap (λ q. q.pq) (make_ready-queues ops t s).0

  pub make_ready-stop : (t : Task) (s : Impl A W) → (make_ready ops t s).ready.stop ≡ s.ready.stop
  unfolding push
  make_ready-stop t s = ap (λ q. q.stop) (make_ready-queues ops t s).0

  dep_visit-Visited :
      (ts kept : List Task) (s : Impl A W) → Visited kept ts s (dep_visit ops kept ts s)
  unfolding dep_visit
  dep_visit-Visited [] kept s = record {
    completed = refl;
    reg = refl;
    reported = refl;
    bus = refl;
    stop = refl;
    moved = λ k. omega (arith, count-nil task_id k);
    satisfied = λ h. h;
    left = λ h. h;
  }
  dep_visit-Visited (t ∷ ts) kept s = elim (Bool-cases (deps_satisfied t s.completed)) [
    | inl met ↦
        rw (met, dep_visit)
          (let v = dep_visit-Visited ts kept (make_ready ops t s) in
            let (q, c, _, r, b, _, g) = make_ready-queues ops t s in
            record {
              completed = v.completed ∙ c;
              reg = v.reg ∙ g;
              reported = v.reported ∙ r;
              bus = v.bus ∙ b;
              stop = v.stop ∙ make_ready-stop t s;
              moved = ready-moved s (make_ready ops t s) _ t kept ts (make_ready-pq t s) v;
              satisfied =
                  ready-satisfied s (make_ready ops t s) _ t kept ts (make_ready-pq t s) v c met;
              left =
                  subst
                    (λ cs.
                      AllUnmet cs kept
                      → AllUnmet cs (dep_visit ops kept ts (make_ready ops t s)).waiting)
                    c v.left;
            })
    | inr unmet ↦
        rw (unmet, dep_visit)
          (let v = dep_visit-Visited ts (kept ++ t ∷ []) s in
            record {
              completed = v.completed;
              reg = v.reg;
              reported = v.reported;
              bus = v.bus;
              stop = v.stop;
              moved = λ k. omega (
                arith,
                v.moved k,
                count-append task_id k kept (t ∷ []),
                count-cons task_id k t [],
                count-cons task_id k t ts,
                count-nil task_id k,
              );
              satisfied = v.satisfied;
              left = λ h. v.left (All-append _ kept (t ∷ []) h (unmet, tt));
            })
  ]

  -- A pass of a running watcher moves each waiting task whose dependencies are complete to the
  -- queue, so that none is left which could run; it changes no count of ids over the two, and the
  -- tasks that it queues have their dependencies complete.
  pub dep_pass-Visited : (s : Impl A W) → s.running ≡ true → Visited [] s.waiting s (dep_pass ops s)
  unfolding dep_pass
  dep_pass-Visited s on =
      if_ind (Visited [] s.waiting s) s.running (λ _. dep_visit-Visited s.waiting [] s)
        (λ off. absurd (false≢true (sym off ∙ on)))

  -- After a pass of a running watcher no waiting task has all of its dependencies complete, every task
  -- of the queue has, if that was so of the queue before, no task has been marked complete, and each
  -- id stands as often in the waiting list and the queue together as before.
  pub dep_pass-releases :
      (s : Impl A W)
      → s.running ≡ true
      → AllUnmet s.completed (dep_pass ops s).waiting
        × (AllSatisfied s.completed s.ready.pq → AllSatisfied s.completed (dep_pass ops s).ready.pq)
        × ((dep_pass ops s).completed ≡ s.completed)
        × ((k : ℕ)
            → count task_id k (dep_pass ops s).waiting + count task_id k (dep_pass ops s).ready.pq
              ≡ count task_id k s.waiting + count task_id k s.ready.pq)
  dep_pass-releases s on =
      let v = dep_pass-Visited s on in
      (v.left tt, v.satisfied, v.completed, λ k. omega (arith, v.moved k, count-nil task_id k))

  pub dep_pass_idle : (s : Impl A W) → s.running ≡ false → dep_pass ops s ≡ s
  unfolding dep_pass
  dep_pass_idle s off =
      if_ind (λ s'. s' ≡ s) s.running (λ on. absurd (false≢true (sym off ∙ on))) (λ _. refl)
