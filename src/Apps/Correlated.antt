-- ===== src/Apps/Correlated.antt =====
-- That apps/radar_correlator.cpp finishes on src/scheduler.cpp.
use ece506scheduler.Base.{
  ℕ, suc, ◌+◌, ◌%◌, ◌^◌, ◌≤◌, ◌<◌, ℤ, ◌≡◌, refl, ◌∙◌, ap, true, List, [], ◌∷◌, some, Text, text,
  is_some, arith,
}
use ece506scheduler.Task.{fft}
use ece506scheduler.Registry.{find_app}
use ece506scheduler.Dash.CompletionBus.{subscribe}
use ece506scheduler.Dash.Execute.{next_id, fft_operation, make_task}
use ece506scheduler.Dash.Answered.{submit_independent}
use ece506scheduler.Dash.Delivery.{subscribe_fresh}
use ece506scheduler.Dash.Pending.{IsPending, schedule-IsPending, settle-IsPending, scheduled}
use ece506scheduler.Runner.Wiring.{path_join}
use ece506scheduler.Scheduler.Accelerators.{Accelerators, IsLawful}
use ece506scheduler.Scheduler.Impl.{Impl}
use ece506scheduler.Scheduler.Frame.{make_ready-queues}
use ece506scheduler.Scheduler.Loop.{worker_loop, worker_loop_idle, length-nil}
use ece506scheduler.Scheduler.Staffed.{Duty, IsSteady}
use ece506scheduler.Scheduler.Liveness.Body.{Succeeds}
use ece506scheduler.Apps.Radar.{submit_subscribed, schedule_fft_task}
use ece506scheduler.Apps.Inputs.{Files, discover_input, load_data}
use ece506scheduler.Apps.Peak.{IsOrder, Correlates, peak-Correlates}
use ece506scheduler.Apps.Correlator.{
  Arithmetic, RunEnd, returns, await, await_both, after_await, after_third, run_one, after_both,
  after_second, after_first, run_three, peak, app_run,
}

module _ {A W : Type 0} (ops : Accelerators A W) (P : Duty → A → Type 0) (steady : IsSteady ops P)
    (lawful : IsLawful ops) (succeeds : Succeeds ops P) where
  abbrev Pending : List (ℕ × ℕ) → ℕ → Impl A W → Type 0
  Pending = IsPending ops P steady lawful succeeds

  -- The FFT tasks have a descriptor.
  abbrev pub HasFft : Impl A W → Type 0
  HasFft s = is_some (find_app (text "fft") s.reg) ≡ true

  next_id-suc : (k : ℕ) → k + 1 < 2 ^ 64 → next_id k ≡ (k, suc k)
  unfolding next_id
  next_id-suc k h = let e : (k + 1) % 2 ^ 64 ≡ suc k = omega arith in ap (λ c. (k, c)) e

  -- A scheduled task is handed a future, and is pending.
  schedule_fft_task-Pending :
      (pending : List (ℕ × ℕ)) (ctx k : ℕ) (now : ℤ) (s : Impl A W)
      → Pending pending k s
      → HasFft s
      → k + 1 < 2 ^ 64
      → (s1 : Impl A W) × (schedule_fft_task ops ctx now k s ≡ (some s.bus.next, suc k, s1))
        × Pending ((k, s.bus.next) ∷ pending) (suc k) s1
        × HasFft s1
  unfolding schedule_fft_task make_task
  schedule_fft_task-Pending pending ctx k now s p known small =
      let t = make_task fft_operation k fft ctx now in
      let e = subscribe_fresh k s.bus (p.fresh k (omega arith)) in
      let (_, _, _, _, _, _, g) =
        make_ready-queues ops t (record s { bus = (subscribe k s.bus).1 }) in
      (
        scheduled ops P steady lawful succeeds t pending k s.bus.next s p,
        ap
              (λ c.
                submit_subscribed ops (make_task fft_operation c.0 fft ctx now) c.1 s
                  (subscribe c.0 s.bus))
              (next_id-suc k small)
            ∙ ap (λ o. submit_subscribed ops t (suc k) s (o, (subscribe k s.bus).1)) e
            ∙ ap (λ s1. (some s.bus.next, suc k, s1)) (submit_independent ops t _ refl),
        schedule-IsPending ops P steady lawful succeeds t pending k s.bus.next s p refl known e,
        rw g known,
      )

  module _ (n : ℕ) (enough : 2 ≤ n) where
    abbrev settle : Impl A W → Impl A W
    settle = worker_loop ops n

    -- Both futures of two pending tasks hold true.
    await_both-Pending :
        (k i j f1 f2 : ℕ) (s : Impl A W)
        → Pending ((j, f2) ∷ (i, f1) ∷ []) k s
        → HasFft s
        → (s' : Impl A W) × (await_both ops (worker_loop ops n) f1 f2 s ≡ (some true, s'))
          × Pending [] k s'
          × HasFft s'
    unfolding await_both await
    await_both-Pending k i j f1 f2 s p known =
        let (p', (h2, (h1, _)), g) =
          settle-IsPending ops P steady lawful succeeds ((j, f2) ∷ (i, f1) ∷ []) k n s p
            (omega arith) in
        let s' = worker_loop ops n s in
        let none_left : s'.ready.pq ≡ [] = length-nil ops s'.ready.pq (p'.room) in
        let again = worker_loop_idle ops n s' p'.live.running p'.live.live none_left in
        (s', rw (h1, await_both, await, again, h2) refl, p', rw g known)

    run_one-well :
        (ctx k : ℕ) (now : ℤ) (s : Impl A W) (well : RunEnd)
        → Pending [] k s
        → HasFft s
        → k + 1 < 2 ^ 64
        → (run_one ops (worker_loop ops n) ctx now k s well).0 ≡ well
    unfolding run_one await
    run_one-well ctx k now s well p known small =
        let (s1, e, p1, known1) = schedule_fft_task-Pending [] ctx k now s p known small in
        let (_, (h, _), _) =
          settle-IsPending ops P steady lawful succeeds ((k, s.bus.next) ∷ []) (suc k) n s1 p1
            (omega arith) in
        ap (λ r. (after_third ops settle well r).0) e
        ∙ ap (λ o. (after_await ops settle (suc k) well (o, settle s1)).0) h

    run_three-well :
        (ctx : ℕ → ℕ) (k : ℕ) (now : ℤ) (s : Impl A W) (well : RunEnd)
        → Pending [] k s
        → HasFft s
        → k + 3 < 2 ^ 64
        → (run_three ops (worker_loop ops n) ctx now k s well).0 ≡ well
    unfolding run_three
    run_three-well ctx k now s well p known small =
        let (s1, e1, p1, known1) =
          schedule_fft_task-Pending [] (ctx 0) k now s p known (omega arith) in
        let (s2, e2, p2, known2) =
          schedule_fft_task-Pending ((k, s.bus.next) ∷ []) (ctx 1) (suc k) now s1 p1 known1
            (omega arith) in
        let (s3, e3, p3, known3) =
          await_both-Pending (suc (suc k)) k (suc k) s.bus.next s1.bus.next s2 p2 known2 in
        ap (λ r. (after_first ops settle ctx now well r).0) e1
        ∙ ap (λ r. (after_second ops settle ctx now well s.bus.next r).0) e2
        ∙ ap (λ r. (after_both ops settle ctx now (suc (suc k)) well r).0) e3
        ∙ run_one-well (ctx 2) (suc (suc k)) now s3 well p3 known3 (omega arith)

  -- Where accelerators keep their laws, one of them is no slot and always available, each is of a kind
  -- that ends each run in success, both of which a use keeps, and the FFT app is registered: on a
  -- scheduler that runs with nothing queued, whose queue is not stopped, whose registry files each
  -- descriptor under its name, which has reported no failure, no two of whose promises share a state
  -- and none of which is for an id from the program's counter on, which does not wrap, with the input
  -- files in place, threads that make two rounds or more while app_run waits, and floats that are
  -- ordered, the correlator returns 0 and the place of a maximum of the real parts of the inverse
  -- transform of the product of the first signal's transform and the conjugate of the second's.
  pub app_run-Correlates :
      {D F : Type 0} (files : Files D) (num : Arithmetic D F) (args : List Text) (ctx : ℕ → ℕ)
      (n counter : ℕ) (now : ℤ) (s : Impl A W) (dir : Text) (time received : List D)
      → 2 ≤ n
      → IsPending ops P steady lawful succeeds [] counter s
      → HasFft s
      → counter + 3 < 2 ^ 64
      → discover_input files args ≡ some dir
      → load_data files (path_join dir (text "time_input.txt")) ≡ some time
      → load_data files (path_join dir (text "received_input.txt")) ≡ some received
      → IsOrder num.greater num.lowest
      → (i : ℕ) × ((app_run ops (worker_loop ops n) files num args ctx now counter s).0
          ≡ returns 0 (some i))
        × Correlates num time received i
  unfolding app_run
  app_run-Correlates files num args ctx n counter now s dir time received enough p known small e f g
        order =
      (
        peak num time received,
        rw (e, app_run, f, g)
            (run_three-well n enough ctx counter now s (returns 0 (some (peak num time received))) p
              known small),
        peak-Correlates num time received order,
      )
