-- ===== src/Scheduler/Stopping.antt =====
-- Scheduler::stop in src/scheduler.cpp, and a start after it.
use ece506scheduler.Base.{
  ◌≢◌, ◌≡◌, refl, sym, ap, ◌∙◌, true, not, Option, none, some, arith, if_ind, Bool-cases, inl, inr,
}
use ece506scheduler.ReadyQueue.{pop_blocking, stop_queue}
use ece506scheduler.Scheduler.Accelerators.{Accelerators, IsLawful}
use ece506scheduler.Scheduler.Impl.{Impl, submit, add_accelerator}
use ece506scheduler.Scheduler.Threads.{start, stop, worker_pop}
use ece506scheduler.Scheduler.Passes.{make_ready-stop, dep_pass-Visited, dep_pass_idle}
use ece506scheduler.Scheduler.Rounds.{worker_body-Worked}
use ece506scheduler.Scheduler.Safety.{IsSafe, Step-IsSafe}
use ece506scheduler.Scheduler.Steps.{
  System, Step, submits, passes, takes, works, registers, adds, starts, stops, Reach, here, next,
}

none≢some : {B : Type 0} {b : B} → ◌≢◌ {A = Option B} none (some b)
none≢some e = cc

module _ {A W : Type 0} (ops : Accelerators A W) where
  worker_pop-stopped : (s : Impl A W) → s.ready.stop ≡ true → worker_pop ops s ≡ none
  unfolding worker_pop pop_blocking
  worker_pop-stopped s h = ground arith

  module _ (lawful : IsLawful ops) where
    Step-stopped :
        {c d : System A W}
        → Step ops c d
        → IsSafe c
        → c.impl.ready.stop ≡ true
        → d.impl.ready.stop ≡ true
    unfolding submit add_accelerator start stop stop_queue
    Step-stopped {c} (submits t e) i h = rw e (
        if_ind (λ (s : Impl A W). s.ready.stop ≡ true) _ (λ _. make_ready-stop ops t c.impl ∙ h)
          (λ _. h))
    Step-stopped {c} (passes e) i h = elim (Bool-cases c.impl.running) [
      | inl on ↦ rw e ((dep_pass-Visited ops c.impl on).stop ∙ h)
      | inr off ↦ rw (e, dep_pass_idle ops c.impl off) h
    ]
    Step-stopped {c} (takes t s w e) i h =
        absurd (none≢some (sym (worker_pop-stopped c.impl h) ∙ w))
    Step-stopped {c} (works before t after b e) i h =
        rw e (ap (λ q. q.stop) (worker_body-Worked ops lawful t c.impl i.keyed).ready ∙ h)
    Step-stopped {c} (registers app e) i h = rw e h
    Step-stopped {c} (adds a e) i h = rw e h
    Step-stopped {c} (starts e) i h =
        rw e (if_ind (λ (s : Impl A W). s.ready.stop ≡ true) c.impl.running (λ _. h) (λ _. h))
    Step-stopped {c} (stops e) i h =
        rw e
          (if_ind (λ (s : Impl A W). s.ready.stop ≡ true) (not c.impl.running) (λ _. h) (λ _. refl))

    Reach-stopped :
        {c d : System A W}
        → Reach ops c d
        → IsSafe c
        → c.impl.ready.stop ≡ true
        → IsSafe d × (d.impl.ready.stop ≡ true)
    Reach-stopped here i h = (i, h)
    Reach-stopped (next r s) i h =
        let (i', h') = Reach-stopped r i h in (Step-IsSafe ops lawful s i', Step-stopped s i' h')

    -- With accelerators that keep their laws, and from a state where the invariant holds: after stop on
    -- a running scheduler no worker ever takes a task again, whatever the threads do and whether or
    -- not the scheduler is started again.
    pub stop-final :
        (c d : System A W)
        → IsSafe c
        → c.impl.running ≡ true
        → Reach ops (record c { impl = stop ops c.impl }) d
        → worker_pop ops d.impl ≡ none
    unfolding stop stop_queue
    stop-final c d i on r =
        worker_pop-stopped d.impl
          (Reach-stopped r (Step-IsSafe ops lawful (stops refl) i) (rw on)).1
