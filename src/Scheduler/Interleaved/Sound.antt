-- ===== src/Scheduler/Interleaved/Sound.antt =====
-- What the threads of src/scheduler.cpp keep, step by step, and that a new process has it.
use mathlib.Core.Bool.{Bool-set}
use ece506scheduler.Base.{
  ℕ, ◌+◌, ◌≡◌, refl, subst, ap, not, List, [], ◌∷◌, some, arith, All, All-map, All-perm, count,
  count-nil, count-cons, count-perm, if_ind,
}
use ece506scheduler.Task.{Task}
use ece506scheduler.ReadyQueue.{stop_queue}
use ece506scheduler.ReadyQueue.Pop.{Pops, pop_blocking-Pops}
use ece506scheduler.Scheduler.Accelerators.{Accelerators}
use ece506scheduler.Scheduler.Impl.{Impl}
use ece506scheduler.Scheduler.Threads.{start, stop, worker_pop}
use ece506scheduler.Scheduler.Passes.{task_id, result_id, AllSatisfied}
use ece506scheduler.Scheduler.Safety.{worker_pop-popped}
use ece506scheduler.Scheduler.Interleaved.{
  Phase, entering, lowering, Watcher, Process, watch, asleep,
}
use ece506scheduler.Scheduler.Interleaved.Weights.{watched, held, held-nil, held-cons}
use ece506scheduler.Scheduler.Interleaved.Relied.{Relies, Earned, Grows, Grows-Relies, stored}
use ece506scheduler.Scheduler.Interleaved.Watch.{Trusts, Holds, watch-Watched}

pub record IsSound {A W : Type 0} (c : Process A W) : Type 0 where
  pub queue : AllSatisfied c.impl.completed c.impl.ready.pq
  pub earned : Earned c.impl.completed c.impl.reported
  pub relied : All (Relies c.impl.completed c.impl.reported) c.phases
  pub trusted : Trusts c.impl.completed c.watcher
  pub exclusive : Holds c.watcher c.impl.waiting
  pub conserved :
      (k : ℕ)
      → count task_id k c.submitted ≡ stored k c.impl + watched k c.watcher + held k c.phases

module _ {A W : Type 0} where
  pub Grows-Trusts :
      (s s' : Impl A W) (w : Watcher) → Grows s s' → Trusts s.completed w → Trusts s'.completed w
  Grows-Trusts s s' asleep g h = tt
  Grows-Trusts s s' (Watcher.visiting kept todo) g h = tt
  Grows-Trusts s s' (Watcher.releasing kept t todo) g h = g.deps t h
  Grows-Trusts s s' (Watcher.counting kept t todo) g h = tt

  pub Grows-phases :
      (s s' : Impl A W) (ps : List Phase)
      → Grows s s'
      → All (Relies s.completed s.reported) ps
      → All (Relies s'.completed s'.reported) ps
  Grows-phases s s' ps g = All-map _ _ ps (λ p h. Grows-Relies s s' p g h)

module _ {A W : Type 0} (ops : Accelerators A W) where
  -- The steps that leave every list of tasks, and what the threads rely on.
  pub watch-IsSound :
      (c : Process A W)
      → IsSound c
      → IsSound (record c {
        watcher = (watch ops c.watcher c.impl).0;
        impl = (watch ops c.watcher c.impl).1;
      })
  watch-IsSound c h =
      let (a, exclusive) = watch-Watched ops c.watcher c.impl h.trusted h.exclusive in
      record {
        queue = a.queue h.queue;
        earned = a.earned h.earned;
        relied = Grows-phases c.impl _ c.phases a.grows h.relied;
        trusted = a.relied;
        exclusive = exclusive;
        conserved = λ k. omega (arith, h.conserved k, a.moved k);
      }

  pub submit-IsSound :
      (t : Task) (c : Process A W)
      → IsSound c
      → IsSound (record c { phases = entering t ∷ c.phases; submitted = t ∷ c.submitted })
  submit-IsSound t c h = record {
    queue = h.queue;
    earned = h.earned;
    relied = (tt, h.relied);
    trusted = h.trusted;
    exclusive = h.exclusive;
    conserved = λ k. omega (
      arith,
      h.conserved k,
      count-cons task_id k t c.submitted,
      held-cons k (entering t) c.phases,
    );
  }

  pub take-IsSound :
      (c : Process A W) (t : Task) (s : Impl A W)
      → worker_pop ops c.impl ≡ some (t, s)
      → IsSound c
      → IsSound (record c { impl = s; phases = lowering t ∷ c.phases })
  take-IsSound c t s w h =
      let (q, e, same) = worker_pop-popped ops c.impl s t w in
      let (_, _, p, _) = subst (Pops c.impl.ready) e (pop_blocking-Pops c.impl.ready) in
      let (met, rest) = All-perm _ (λ _. Bool-set _ _) p h.queue in
      rw same (record {
        queue = rest;
        earned = h.earned;
        relied = (met, h.relied);
        trusted = h.trusted;
        exclusive = h.exclusive;
        conserved = λ k. omega (
          arith,
          h.conserved k,
          count-perm task_id k p,
          count-cons task_id k t q.pq,
          held-cons k (lowering t) c.phases,
        );
      })

  -- A state with the same lists of tasks.
  pub same-IsSound :
      (c : Process A W) (s : Impl A W)
      → s.completed ≡ c.impl.completed
      → s.ready.pq ≡ c.impl.ready.pq
      → s.waiting ≡ c.impl.waiting
      → s.reported ≡ c.impl.reported
      → IsSound c
      → IsSound (record c { impl = s })
  same-IsSound c s completed pq waiting reported h = record {
    queue = rw (completed, pq) h.queue;
    earned = rw (completed, reported) h.earned;
    relied = rw (completed, reported) h.relied;
    trusted = rw completed h.trusted;
    exclusive = rw waiting h.exclusive;
    conserved = λ k. omega (
      arith,
      h.conserved k,
      ap (count task_id k) pq,
      ap (count task_id k) waiting,
      ap (count result_id k) reported,
    );
  }

  pub start-IsSound : (c : Process A W) → IsSound c → IsSound (record c { impl = start ops c.impl })
  unfolding start
  start-IsSound c h =
      if_ind (λ s. IsSound (record c { impl = s })) c.impl.running (λ _. h)
        (λ _. same-IsSound c _ refl refl refl refl h)

  pub stop-IsSound : (c : Process A W) → IsSound c → IsSound (record c { impl = stop ops c.impl })
  unfolding stop stop_queue
  stop-IsSound c h =
      if_ind (λ s. IsSound (record c { impl = s })) (not c.impl.running) (λ _. h)
        (λ _. same-IsSound c _ refl refl refl refl h)

-- A process in which nothing has happened.
abbrev pub IsNew : {A W : Type 0} → Process A W → Type 0
IsNew c =
    (c.impl.completed ≡ [])
    × (c.impl.ready.pq ≡ [])
    × (c.impl.waiting ≡ [])
    × (c.impl.reported ≡ [])
    × (c.watcher ≡ asleep)
    × (c.phases ≡ [])
    × (c.submitted ≡ [])

pub IsNew-IsSound : {A W : Type 0} (c : Process A W) → IsNew c → IsSound c
IsNew-IsSound c (completed, pq, waiting, reported, watcher, phases, submitted) =
    rw (completed, pq, waiting, reported, watcher, phases, submitted)
      (record {
        queue = tt;
        earned = tt;
        relied = tt;
        trusted = tt;
        exclusive = tt;
        conserved = λ k. omega (arith, count-nil task_id k, count-nil result_id k, held-nil k);
      })
