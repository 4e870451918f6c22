-- ===== src/Scheduler/Interleaved/Delivery.antt =====
-- The future of a subscribed id, in every interleaving of the accesses of src/scheduler.cpp.
use mathlib.Core.List.{Memᴰ}
use ece506scheduler.Base.{
  ℕ, pos, negsuc, ◌<◌, ◌==◌, ◌≡◌, ◌⊎◌, inl, inr, refl, sym, subst, ap, ◌∙◌, not, true, List, [],
  ◌∷◌, some, lookup, nat_eq, arith, count, count-cons, if_ind, Bool-cases,
}
use ece506scheduler.Task.{Task, ExecutionResult, AppDescriptor}
use ece506scheduler.Dash.CompletionBus.{Bus, subscribe, fulfill, future_get}
use ece506scheduler.Dash.Delivery.{subscribe-opens, subscribe_open}
use ece506scheduler.Dash.Unshared.{
  IsUnshared, fulfill-IsUnshared, subscribe-IsUnshared, future_get-fulfilled, future_get-kept,
  lookup-fulfill_ne, lookup-subscribe_ne, future_get-subscribe,
}
use ece506scheduler.Scheduler.Accelerators.{Accelerators}
use ece506scheduler.Scheduler.Impl.{Impl, add_accelerator}
use ece506scheduler.Scheduler.Threads.{start, stop, report}
use ece506scheduler.Scheduler.Passes.{result_id}
use ece506scheduler.Scheduler.Safety.{worker_pop-popped}
use ece506scheduler.Scheduler.Frame.{record_ready-SameTasks, select_accelerator-SameTasks}
use ece506scheduler.Scheduler.Interleaved.{
  Phase, Watcher, Process, advance, watch, Step, submits, advances, watches, takes, subscribes,
  registers, adds, starts, stops, Reach, here, next,
}

-- What the bus and the reports say of the future `f` of the id `k`, of which there were `n` reports
-- when it was handed out: its promise is open and there is no new report, or the future is set to the
-- outcome of a report.
abbrev pub Serves : ℕ → ℕ → ℕ → Bus → List ExecutionResult → Type 0
Serves k f n bus reported =
    ((lookup k bus.prom ≡ some (record { shared = f; retrieved = true }))
      × (count result_id k reported ≡ n))
    ⊎ ((r : ExecutionResult) × Memᴰ r reported
        × (r.id ≡ k)
        × (future_get f bus ≡ some r.ok)
        × (n < count result_id k reported))

-- A report.
pub report-Serves :
    (k f n : ℕ) (bus : Bus) (reported : List ExecutionResult) (r : ExecutionResult)
    → IsUnshared bus
    → Serves k f n bus reported
    → Serves k f n (fulfill r.id r.ok bus) (r ∷ reported)
report-Serves k f n bus reported r u (inr (r', m, e, h, more)) = inr (
  r',
  Memᴰ.tail m,
  e,
  future_get-kept r.id f r.ok r'.ok bus u h,
  omega (arith, more, count-cons result_id k r reported),
)
report-Serves k f n bus reported r u (inl (open_lem, same)) = elim (Bool-cases (r.id == k)) [
  | inl eq ↦
      let e : r.id ≡ k = ground arith in
      inr (
        r,
        Memᴰ.head refl,
        e,
        future_get-fulfilled r.id f r.ok bus (
            subst (λ j. lookup j bus.prom ≡ some (record { shared = f; retrieved = true })) (sym e)
              open_lem),
        ground (arith, count-cons result_id k r reported),
      )
  | inr ne ↦ inl (
    lookup-fulfill_ne r.id k r.ok bus ne ∙ open_lem,
    ground (arith, count-cons result_id k r reported),
  )
]

-- A subscription, for the id or for another one.
subscribe-Serves :
    (k f n id : ℕ) (bus : Bus) (reported : List ExecutionResult)
    → Serves k f n bus reported
    → Serves k f n (subscribe id bus).1 reported
subscribe-Serves k f n id bus reported (inr (r, m, e, h, more)) =
    inr (r, m, e, future_get-subscribe id f bus ∙ h, more)
subscribe-Serves k f n id bus reported (inl (open_lem, same)) = elim (Bool-cases (id == k)) [
  | inl eq ↦
      let e : id ≡ k = ground arith in
      inl (
        ap (λ j. lookup k (subscribe j bus).1.prom) e
            ∙ ap (λ p. lookup k p.1.prom) (subscribe_open k f bus open_lem)
            ∙ open_lem,
        same,
      )
  | inr ne ↦ inl (lookup-subscribe_ne id k bus ne ∙ open_lem, same)
]

module _ {A W : Type 0} (ops : Accelerators A W) (k f n : ℕ) where
  abbrev DeliversAt : Bus → List ExecutionResult → Type 0
  DeliversAt bus reported = IsUnshared bus × Serves k f n bus reported

  pub run-keeps :
      (i : ℕ) (t : Task) (app : AppDescriptor) (s : Impl A W)
      → ((advance ops (Phase.running i t app) s).1.bus ≡ s.bus)
        × ((advance ops (Phase.running i t app) s).1.reported ≡ s.reported)
  unfolding advance
  run-keeps i t app s = ground arith

  -- A thread's step reports, or leaves the bus and the reports.
  advance-DeliversAt :
      (p : Phase) (s : Impl A W)
      → DeliversAt s.bus s.reported
      → DeliversAt (advance ops p s).1.bus (advance ops p s).1.reported
  unfolding advance report
  advance-DeliversAt (Phase.entering t) s h = h
  advance-DeliversAt (Phase.pushing t) s h = h
  advance-DeliversAt (Phase.holding t) s h = h
  advance-DeliversAt (Phase.raising t) s h =
      let e = record_ready-SameTasks ops t (pos 1) s in rw (e.bus, e.reported) h
  advance-DeliversAt (Phase.lowering t) s h =
      let e = record_ready-SameTasks ops t (negsuc 0) s in rw (e.bus, e.reported) h
  advance-DeliversAt (Phase.looking t) s h = h
  advance-DeliversAt (Phase.choosing t app) s h =
      let e = select_accelerator-SameTasks ops t app s in rw (e.bus, e.reported) h
  advance-DeliversAt (Phase.running i t app) s h =
      let (bus, reported) = run-keeps i t app s in rw (bus, reported) h
  advance-DeliversAt (Phase.reporting t r) s (u, h) =
      (fulfill-IsUnshared r.id r.ok s.bus u, report-Serves k f n s.bus s.reported r u h)
  advance-DeliversAt (Phase.marking t) s h = h

  pub watch-keeps :
      (w : Watcher) (s : Impl A W)
      → ((watch ops w s).1.bus ≡ s.bus) × ((watch ops w s).1.reported ≡ s.reported)
  unfolding watch
  watch-keeps Watcher.asleep s = ground arith
  watch-keeps (Watcher.visiting kept []) s = (refl, refl)
  watch-keeps (Watcher.visiting kept (t ∷ todo)) s = (refl, refl)
  watch-keeps (Watcher.releasing kept t todo) s = (refl, refl)
  watch-keeps (Watcher.counting kept t todo) s =
      let e = record_ready-SameTasks ops t (pos 1) s in (e.bus, e.reported)

  abbrev Of : Process A W → Type 0
  Of c = DeliversAt c.impl.bus c.impl.reported

  Step-Delivers : {c d : Process A W} → Step ops c d → Of c → Of d
  unfolding add_accelerator start stop
  Step-Delivers {c} (submits t e) h = rw e h
  Step-Delivers {c} (advances before p after b may e) h = rw e (advance-DeliversAt p c.impl h)
  Step-Delivers {c} (watches e) h =
      let (bus, reported) = watch-keeps c.watcher c.impl in rw (e, bus, reported) h
  Step-Delivers {c} (takes t s w e) h =
      let (q, _, same) = worker_pop-popped ops c.impl s t w in rw (e, same) h
  Step-Delivers {c} (subscribes id e) (u, h) =
      rw e (
        subscribe-IsUnshared id c.impl.bus u,
        subscribe-Serves k f n id c.impl.bus c.impl.reported h,
      )
  Step-Delivers {c} (registers app e) h = rw e h
  Step-Delivers {c} (adds a e) h = rw e h
  Step-Delivers {c} (starts e) h =
      rw e (if_ind (λ (s : Impl A W). DeliversAt s.bus s.reported) c.impl.running (λ _. h) (λ _. h))
  Step-Delivers {c} (stops e) h = rw e (
      if_ind (λ (s : Impl A W). DeliversAt s.bus s.reported) (not c.impl.running) (λ _. h) (λ _. h))

  Reach-Delivers : {c d : Process A W} → Reach ops c d → Of c → Of d
  Reach-Delivers here h = h
  Reach-Delivers (next r s) h = Step-Delivers s (Reach-Delivers r h)

-- A future that a subscription to `k` has handed out, while no two promises share a state, however
-- the accesses of the threads interleave from there: as long as no further report of `k` is made its
-- promise stays open, and once one is made the future holds the outcome of a report of `k`.
pub subscribed-Serves :
    {A W : Type 0} (ops : Accelerators A W) (k f : ℕ) (c d : Process A W)
    → IsUnshared c.impl.bus
    → (subscribe k c.impl.bus).0 ≡ some f
    → Reach ops (record c { impl = record c.impl { bus = (subscribe k c.impl.bus).1 } }) d
    → Serves k f (count result_id k c.impl.reported) d.impl.bus d.impl.reported
subscribed-Serves ops k f c d u h run =
    (Reach-Delivers ops k f (count result_id k c.impl.reported) run
      (subscribe-IsUnshared k c.impl.bus u, inl (subscribe-opens k f c.impl.bus h, refl))).1
