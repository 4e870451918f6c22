-- ===== src/Scheduler/Interleaved/Refinement.antt =====
-- The threads of src/scheduler.cpp keep the ledger of Scheduler.Ledger.
use ece506scheduler.Base.{
  ℕ, pos, negsuc, ◌≤◌, ◌≡◌, ◌⊎◌, inl, inr, refl, ap, not, ◌∷◌, count, count-cons, arith, if_ind,
}
use ece506scheduler.Task.{Task, ExecutionResult}
use ece506scheduler.Scheduler.Ledger.{
  Ledger, Entry, accepts, settles, idles, History, opened, entered,
}
use ece506scheduler.Scheduler.Accelerators.{Accelerators, IsLawful}
use ece506scheduler.Scheduler.Impl.{Impl, add_accelerator}
use ece506scheduler.Scheduler.Threads.{start, stop, report}
use ece506scheduler.Scheduler.Passes.{task_id, result_id}
use ece506scheduler.Scheduler.Safety.{worker_pop-popped}
use ece506scheduler.Scheduler.Frame.{record_ready-SameTasks, select_accelerator-SameTasks}
use ece506scheduler.Scheduler.Interleaved.{
  Phase, Process, advance, Step, submits, advances, watches, takes, subscribes, registers, adds,
  starts, stops, Reach, here, next,
}
use ece506scheduler.Scheduler.Interleaved.Delivery.{run-keeps, watch-keeps}
use ece506scheduler.Scheduler.Interleaved.Sound.{IsSound, IsNew, IsNew-IsSound}
use ece506scheduler.Scheduler.Interleaved.Invariant.{Step-IsSound, Reach-IsSound}

-- What an application sees of a process.
abbrev pub ledger : {A W : Type 0} → Process A W → Ledger
ledger c = record { accepted = c.submitted; reports = c.impl.reported }

module _ {A W : Type 0} (ops : Accelerators A W) where
  -- No report, or one more.
  abbrev Reports : Impl A W → Impl A W → Type 0
  Reports s s' =
      (s'.reported ≡ s.reported) ⊎ ((r : ExecutionResult) × (s'.reported ≡ r ∷ s.reported))

  advance-Reports : (p : Phase) (s : Impl A W) → Reports s (advance ops p s).1
  unfolding advance report
  advance-Reports (Phase.entering t) s = inl refl
  advance-Reports (Phase.pushing t) s = inl refl
  advance-Reports (Phase.holding t) s = inl refl
  advance-Reports (Phase.raising t) s = inl (record_ready-SameTasks ops t (pos 1) s).reported
  advance-Reports (Phase.lowering t) s = inl (record_ready-SameTasks ops t (negsuc 0) s).reported
  advance-Reports (Phase.looking t) s = inl refl
  advance-Reports (Phase.choosing t app) s = inl (select_accelerator-SameTasks ops t app s).reported
  advance-Reports (Phase.running i t app) s = inl (run-keeps ops 0 0 0 i t app s).1
  advance-Reports (Phase.reporting t r) s = inr (r, refl)
  advance-Reports (Phase.marking t) s = inl refl

  -- A step that submits nothing, to a process with no more reports of an id than submitted tasks.
  reported-Entry :
      (c d : Process A W)
      → d.submitted ≡ c.submitted
      → Reports c.impl d.impl
      → ((k : ℕ) → count result_id k d.impl.reported ≤ count task_id k d.submitted)
      → Entry (ledger c) (ledger d)
  reported-Entry c d same (inl e) h = rw (same, e) idles
  reported-Entry c d same (inr (r, e)) h =
      rw (same, e)
        (settles r (
          grind (
            arith,
            h r.id,
            ap (count result_id r.id) e,
            ap (count task_id r.id) same,
            count-cons result_id r.id r c.impl.reported,
          )))

  submit-Entry :
      (c d : Process A W) (t : Task)
      → d.submitted ≡ t ∷ c.submitted
      → d.impl.reported ≡ c.impl.reported
      → Entry (ledger c) (ledger d)
  submit-Entry c d t more same = rw (more, same) (accepts t)

  -- No more reports of an id than submitted tasks.
  IsSound-covered :
      (c : Process A W)
      → IsSound c
      → (k : ℕ) → count result_id k c.impl.reported ≤ count task_id k c.submitted
  IsSound-covered c h k = omega (arith, h.conserved k)

  -- What a step does that an application sees: one task more, or a report more at most.
  abbrev Seen : Process A W → Process A W → Type 0
  Seen c d =
      ((d.submitted ≡ c.submitted) × Reports c.impl d.impl)
      ⊎ ((t : Task) × (d.submitted ≡ t ∷ c.submitted) × (d.impl.reported ≡ c.impl.reported))

  Step-Seen : {c d : Process A W} → Step ops c d → Seen c d
  unfolding add_accelerator start stop
  Step-Seen {c} (submits t e) = rw e (inr (t, refl, refl))
  Step-Seen {c} (advances before p after b may e) = rw e (inl (refl, advance-Reports p c.impl))
  Step-Seen {c} (watches e) = rw e (inl (refl, inl (watch-keeps ops 0 0 0 c.watcher c.impl).1))
  Step-Seen {c} (takes t s w e) =
      let (q, _, same) = worker_pop-popped ops c.impl s t w in rw (e, same) (inl (refl, inl refl))
  Step-Seen {c} (subscribes id e) = rw e (inl (refl, inl refl))
  Step-Seen {c} (registers app e) = rw e (inl (refl, inl refl))
  Step-Seen {c} (adds a e) = rw e (inl (refl, inl refl))
  Step-Seen {c} (starts e) =
      rw e (inl (refl, if_ind (Reports c.impl) c.impl.running (λ _. inl refl) (λ _. inl refl)))
  Step-Seen {c} (stops e) =
      rw e
        (inl (refl, if_ind (Reports c.impl) (not c.impl.running) (λ _. inl refl) (λ _. inl refl)))

  Step-Entry : {c d : Process A W} → Step ops c d → IsSound d → Entry (ledger c) (ledger d)
  Step-Entry {c} {d} s h = elim (Step-Seen s) [
    | inl (same, more) ↦ reported-Entry c d same more (IsSound-covered d h)
    | inr (t, more, same) ↦ submit-Entry c d t more same
  ]

  Reach-History :
      {c d : Process A W}
      → IsLawful ops
      → Reach ops c d
      → IsSound c
      → History (ledger c)
      → History (ledger d)
  Reach-History lawful here h hist = hist
  Reach-History lawful (next r s) h hist =
      let before = Reach-IsSound ops lawful r h in
      entered (Reach-History lawful r h hist) (Step-Entry s (Step-IsSound ops lawful s before))

-- From a process in which nothing has happened, with accelerators that keep their laws, however the
-- steps of the threads interleave: what an application sees of a process that is reached, the tasks
-- that it submitted and the reports, has come about by entries in an empty ledger, and every step that
-- the process can take next is one entry: it accepts one task, or adds one report, of an id with fewer
-- reports so far than accepted tasks, or changes neither list.
pub Reach-ledger :
    {A W : Type 0} (ops : Accelerators A W)
    → IsLawful ops
    → (c d e : Process A W) → IsNew c
    → Reach ops c d
    → Step ops d e
    → History (ledger d) × Entry (ledger d) (ledger e)
Reach-ledger ops lawful c d e new run step =
    let (completed, pq, waiting, reported, watcher, phases, submitted) = new in
    let sound = Reach-IsSound ops lawful run (IsNew-IsSound c new) in
    (
      Reach-History ops lawful run (IsNew-IsSound c new) (rw (submitted, reported) opened),
      Step-Entry ops step (Step-IsSound ops lawful step sound),
    )
