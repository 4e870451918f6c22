-- ===== src/Dash/Answered.antt =====
-- An operation of src/dash/fft.cpp or src/dash/zip.cpp from its call to the value that fut.get()
-- returns, with the scheduler of src/scheduler.cpp.
use mathlib.Core.List.{Memᴰ}
use ece506scheduler.Base.{
  ℕ, ◌≤◌, ◌<◌, ℤ, ◌≡◌, refl, sym, ◌∙◌, ap, subst, true, List, [], ◌∷◌, none, some, lookup, nat_eq,
  length, count, count-cons_self, inl, inr, arith,
}
use ece506scheduler.Task.{Task, ExecutionResult}
use ece506scheduler.Registry.{IsKeyed}
use ece506scheduler.Dash.CompletionBus.{subscribe, future_get}
use ece506scheduler.Dash.Delivery.{subscribe-opens, subscribe_fresh}
use ece506scheduler.Dash.Unshared.{IsUnshared, subscribe-IsUnshared}
use ece506scheduler.Dash.Provider.{Provider, providers_for}
use ece506scheduler.Dash.Execute.{
  Operation, Globals, awaits, next_id, make_task, submit_to, execute,
}
use ece506scheduler.Scheduler.Deps.{all_counted, deps_satisfied}
use ece506scheduler.Scheduler.Accelerators.{Accelerators, IsLawful}
use ece506scheduler.Scheduler.Impl.{Impl, submit, make_ready}
use ece506scheduler.Scheduler.Passes.{task_id, result_id, make_ready-pq, make_ready-stop}
use ece506scheduler.Scheduler.Frame.{make_ready-queues}
use ece506scheduler.Scheduler.Loop.{worker_loop, IsLive}
use ece506scheduler.Scheduler.Loop.Reports.{worker_loop-reports, worker_loop-Serves}

-- A task without dependencies is made ready at once.
pub submit_independent :
    {A W : Type 0} (ops : Accelerators A W) (t : Task) (s : Impl A W)
    → t.depends_on ≡ []
    → submit ops t s ≡ make_ready ops t s
unfolding submit deps_satisfied all_counted
submit_independent ops t s e = rw (submit, deps_satisfied, e) refl

module _ {A W : Type 0} (ops : Accelerators A W) (lawful : IsLawful ops) where
  -- A subscribed task that is made ready is answered by a worker's loop.
  ready_answered :
      (t : Task) (f n : ℕ) (s : Impl A W)
      → (subscribe t.id s.bus).0 ≡ some f
      → IsUnshared s.bus
      → IsLive ops s
      → length s.ready.pq < n
      → let s' =
          worker_loop ops n (make_ready ops t (record s { bus = (subscribe t.id s.bus).1 })) in
        (r : ExecutionResult) × Memᴰ r s'.reported
        × (r.id ≡ t.id)
        × (future_get f s'.bus ≡ some r.ok)
  ready_answered t f n s e u v fits =
      let s1 = record s { bus = (subscribe t.id s.bus).1 } in
      let s2 = make_ready ops t s1 in
      let (_, _, _, r, b, run, g) = make_ready-queues ops t s1 in
      let pq = make_ready-pq ops t s1 in
      let fits2 : length s2.ready.pq ≤ n =
        omega (arith, fits, ap (λ (l : List Task). length l) pq) in
      let live : IsLive ops s2 = record {
        keyed = subst IsKeyed (sym g) v.keyed;
        running = run ∙ v.running;
        live = make_ready-stop ops t s1 ∙ v.live;
      } in
      let before = count result_id t.id s.reported in
      let counted = worker_loop-reports ops lawful t.id n s2 live fits2 in
      let served =
        worker_loop-Serves ops lawful t.id f before n s2 (rw b (subscribe-IsUnshared t.id s.bus u))
          (rw (b, r) (inl (subscribe-opens t.id f s.bus e, refl))) live fits2 in
      elim served [
        | inl (_, same) ↦ absurd (
            omega (
              arith,
              same,
              counted,
              ap (count result_id t.id) r,
              ap (count task_id t.id) pq,
              count-cons_self task_id (record t { ready = true }) s.ready.pq,
            ))
        | inr (r, m, e', h, _) ↦ (r, m, e', h)
      ]

  -- An operation with a provider, on a bound scheduler that runs, whose queue is not stopped and whose
  -- registry files each descriptor under its name, where no promise is open for the id that it takes
  -- and no two promises share a state, with accelerators that keep their laws: it blocks on a new future, and once a worker
  -- has made more rounds than tasks were queued before the call, that future holds whether a reported
  -- run of the task's id succeeded.
  pub execute-answered :
      (operation : Operation) (ctx n : ℕ) (now : ℤ) (g : Globals A W) (s : Impl A W) (p : Provider)
      (ps : List Provider)
      → g.sched ≡ some s
      → providers_for operation.op g.g_providers ≡ p ∷ ps
      → lookup g.counter s.bus.prom ≡ none
      → IsUnshared s.bus
      → IsLive ops s
      → length s.ready.pq < n
      → ((execute ops operation ctx now g).0 ≡ awaits s.bus.next)
        × (s1 : Impl A W) × ((execute ops operation ctx now g).1.sched ≡ some s1)
        × (let s' = worker_loop ops n s1 in
            (r : ExecutionResult) × Memᴰ r s'.reported
            × (r.id ≡ g.counter)
            × (future_get s.bus.next s'.bus ≡ some r.ok))
  unfolding execute submit_to next_id make_task
  execute-answered operation ctx n now g s p ps bound provided fresh u v fits =
      let t = make_task operation g.counter p.kind ctx now in
      let e = subscribe_fresh g.counter s.bus fresh in
      let s1 = make_ready ops t (record s { bus = (subscribe g.counter s.bus).1 }) in
      rw (provided, execute, bound, submit_to, e)
        (
          refl,
          s1,
          ap some (submit_independent ops t _ refl),
          ready_answered t s.bus.next n s e u v fits,
        )
