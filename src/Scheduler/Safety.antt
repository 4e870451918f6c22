-- ===== src/Scheduler/Safety.antt =====
-- What holds in every state that the threads of src/scheduler.cpp can reach.
mod Parts
pub use Parts.{SafeParts}
unfoldable pub use Parts.{succeeded}
use mathlib.Core.Bool.{Bool-set}
use mathlib.Core.List.{Perm}
use ece506scheduler.Base.{
  ℕ, ◌+◌, ◌==◌, ◌≡◌, refl, sym, subst, ap, ◌∙◌, not, Bool, true, false, ◌&&◌, ◌||◌, List, [], ◌∷◌,
  ◌++◌, Option, some, none, arith, All, All-map, All-perm, All-append, All-split, count, count-nil,
  count-cons, count-append, count-perm, if_ind, Bool-cases, inl, inr, if◌then◌else◌,
}
use ece506scheduler.Task.{Task, ExecutionResult}
use ece506scheduler.ReadyQueue.{
  ReadyQueue, Popped, blocked, stopped, popped, pop_blocking, stop_queue,
}
use ece506scheduler.ReadyQueue.Pop.{Pops, pop_blocking-Pops}
use ece506scheduler.Registry.{Registry, IsKeyed, register_app-IsKeyed}
use ece506scheduler.Scheduler.Deps.{mark_complete, deps_satisfied, deps_satisfied_mark}
use ece506scheduler.Scheduler.Accelerators.{Accelerators, IsLawful}
use ece506scheduler.Scheduler.Impl.{Impl, add_accelerator, submit, make_ready}
use ece506scheduler.Scheduler.Threads.{start, stop, dep_pass, worker_pop, worker_body}
use ece506scheduler.Scheduler.Frame.{make_ready-queues}
use ece506scheduler.Scheduler.Passes.{
  task_id, result_id, AllSatisfied, Visited, dep_pass-Visited, dep_pass_idle, make_ready-pq,
}
use ece506scheduler.Scheduler.Rounds.{Worked, worker_body-Worked}
use ece506scheduler.Scheduler.Steps.{
  System, Step, submits, passes, takes, works, registers, adds, starts, stops, Reach, here, next,
}
use Parts.{ready-parts, wait-parts, take-parts, work-parts}

abbrev pub IsSafe : {A W : Type 0} → System A W → Type 0
IsSafe c =
    SafeParts c.impl.reg c.impl.completed c.impl.ready.pq c.impl.waiting c.busy c.impl.reported
      c.submitted

module _ {A W : Type 0} (ops : Accelerators A W) where
  submit-IsSafe :
      (t : Task) (c : System A W)
      → IsSafe c
      → IsSafe (record c { impl = submit ops t c.impl; submitted = t ∷ c.submitted })
  unfolding submit
  submit-IsSafe t c h =
      if_ind (λ s. IsSafe (record c { impl = s; submitted = t ∷ c.submitted }))
        (deps_satisfied t c.impl.completed)
        (λ met.
          let (_, completed, waiting, reported, _, _, reg) = make_ready-queues ops t c.impl in
          rw (completed, waiting, reported, reg, make_ready-pq ops t c.impl) (ready-parts t h met))
        (λ _. wait-parts t h)

  pass-parts :
      (c : System A W)
      → IsSafe c
      → Visited [] c.impl.waiting c.impl (dep_pass ops c.impl)
      → IsSafe (record c { impl = dep_pass ops c.impl })
  pass-parts c h v = record {
    keyed = subst IsKeyed (sym v.reg) h.keyed;
    queue_ready = rw v.completed (v.satisfied h.queue_ready);
    busy_ready = rw v.completed h.busy_ready;
    earned = rw (v.completed, v.reported) h.earned;
    conserved = λ k.
        omega
          (arith, h.conserved k, v.moved k, count-nil task_id k, ap (count result_id k) v.reported);
  }

  pass-IsSafe : (c : System A W) → IsSafe c → IsSafe (record c { impl = dep_pass ops c.impl })
  pass-IsSafe c h = elim (Bool-cases c.impl.running) [
    | inr off ↦ rw (dep_pass_idle ops c.impl off) h
    | inl on ↦ pass-parts c h (dep_pass-Visited ops c.impl on)
  ]

  -- A worker that takes a task has run the queue's pop.
  pub worker_pop-popped :
      (s s' : Impl A W) (t : Task)
      → worker_pop ops s ≡ some (t, s')
      → (q : ReadyQueue) × (pop_blocking s.ready ≡ popped t q) × (s' ≡ record s { ready = q })
  unfolding worker_pop
  worker_pop-popped s s' t w = go (pop_blocking s.ready) refl
    where
      go :
          (r : Popped)
          → pop_blocking s.ready ≡ r
          → (q : ReadyQueue) × (pop_blocking s.ready ≡ popped t q) × (s' ≡ record s { ready = q })
      go blocked e = ground arith
      go stopped e = ground arith
      go (popped u q) e = (q, ground arith, ground arith)

  take-IsSafe :
      (c : System A W) (t : Task) (s : Impl A W)
      → worker_pop ops c.impl ≡ some (t, s)
      → IsSafe c
      → IsSafe (record c { impl = s; busy = t ∷ c.busy })
  take-IsSafe c t s w h =
      let (q, e, same) = worker_pop-popped c.impl s t w in
      let (_, _, p, _) = subst (Pops c.impl.ready) e (pop_blocking-Pops c.impl.ready) in
      rw same (take-parts t h p)

  start-IsSafe : (c : System A W) → IsSafe c → IsSafe (record c { impl = start ops c.impl })
  unfolding start
  start-IsSafe c h = if_ind (λ s. IsSafe (record c { impl = s })) c.impl.running (λ _. h) (λ _. h)

  stop-IsSafe : (c : System A W) → IsSafe c → IsSafe (record c { impl = stop ops c.impl })
  unfolding stop stop_queue
  stop-IsSafe c h =
      if_ind (λ s. IsSafe (record c { impl = s })) (not c.impl.running) (λ _. h) (λ _. h)

  module _ (lawful : IsLawful ops) where
    work-IsSafe :
        (c : System A W) (before : List Task) (t : Task) (after : List Task)
        → c.busy ≡ before ++ t ∷ after
        → IsSafe c
        → IsSafe (record c { impl = worker_body ops t c.impl; busy = before ++ after })
    work-IsSafe c before t after e h =
        let w = worker_body-Worked ops lawful t c.impl h.keyed in
        rw (w.reg, w.ready, w.waiting, w.reported)
          (work-parts t w.result before after h e w.id w.completed)

    -- Every step of every thread keeps the invariant.
    pub Step-IsSafe : {c d : System A W} → Step ops c d → IsSafe c → IsSafe d
    unfolding add_accelerator
    Step-IsSafe {c} (submits t e) h = rw e (submit-IsSafe t c h)
    Step-IsSafe {c} (passes e) h = rw e (pass-IsSafe c h)
    Step-IsSafe {c} (takes t s w e) h = rw e (take-IsSafe c t s w h)
    Step-IsSafe {c} (works before t after b e) h = rw e (work-IsSafe c before t after b h)
    Step-IsSafe {c} (registers app e) h = rw e (record {
      keyed = register_app-IsKeyed app c.impl.reg h.keyed;
      queue_ready = h.queue_ready;
      busy_ready = h.busy_ready;
      earned = h.earned;
      conserved = h.conserved;
    })
    Step-IsSafe {c} (adds a e) h = rw e h
    Step-IsSafe {c} (starts e) h = rw e (start-IsSafe c h)
    Step-IsSafe {c} (stops e) h = rw e (stop-IsSafe c h)

    pub Reach-IsSafe : {c d : System A W} → Reach ops c d → IsSafe c → IsSafe d
    Reach-IsSafe here h = h
    Reach-IsSafe (next r s) h = Step-IsSafe s (Reach-IsSafe r h)

  -- The state that a new scheduler is in.
  abbrev pub IsFresh : System A W → Type 0
  IsFresh c =
      IsKeyed c.impl.reg
      × (c.impl.completed ≡ [])
      × (c.impl.ready.pq ≡ [])
      × (c.impl.waiting ≡ [])
      × (c.impl.reported ≡ [])
      × (c.busy ≡ [])
      × (c.submitted ≡ [])

  pub IsFresh-IsSafe : (c : System A W) → IsFresh c → IsSafe c
  IsFresh-IsSafe c (keyed, completed, pq, waiting, reported, busy, submitted) =
      rw (completed, pq, waiting, reported, busy, submitted)
        (record {
          keyed = keyed;
          queue_ready = tt;
          busy_ready = tt;
          earned = tt;
          conserved = λ k. omega (arith, count-nil task_id k, count-nil result_id k);
        })
