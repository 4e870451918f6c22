-- ===== src/Apps/Radar.antt =====
-- schedule_fft_task of apps/radar_correlator.cpp, and the loop of its app_run that finds the lag.
use ece506scheduler.Base.{ℕ, zero, suc, ◌*◌, ℤ, Bool, Option, none, some, if◌then◌else◌}
use ece506scheduler.Task.{Task, fft}
use ece506scheduler.Dash.CompletionBus.{Bus, subscribe}
use ece506scheduler.Dash.Execute.{next_id, fft_operation, make_task}
use ece506scheduler.Scheduler.Accelerators.{Accelerators}
use ece506scheduler.Scheduler.Impl.{Impl, submit}

-- g_next_fft_id at first.
abbrev pub radar_start : ℕ
radar_start = 5000

-- `sched.submit(task)`, once subscribe has returned.
unfoldable pub submit_subscribed :
    {A W : Type 0}
    → Accelerators A W
    → Task
    → ℕ
    → Impl A W
    → Option ℕ × Bus
    → Option ℕ × ℕ × Impl A W
submit_subscribed ops t counter s (none, bus) = (none, counter, record s { bus = bus })
submit_subscribed ops t counter s (some f, bus) =
    (some f, counter, submit ops t (record s { bus = bus }))

-- The future, the counter and the scheduler after a call, for a context at the address `ctx`; `none`:
-- subscribe throws, and nothing is submitted.
unfoldable pub schedule_fft_task :
    {A W : Type 0}
    → Accelerators A W
    → (ctx : ℕ) (now : ℤ) (counter : ℕ) → Impl A W
    → Option ℕ × ℕ × Impl A W
unfolding submit_subscribed
schedule_fft_task ops ctx now counter s =
    let (id, counter') = next_id counter in
    submit_subscribed ops (make_task fft_operation id fft ctx now) counter' s (subscribe id s.bus)

-- The loop over `i < count` for max_corr and max_index; `greater` compares floats.
unfoldable pub strongest : {F : Type 0} → (greater : F → F → Bool) → F → (ℕ → F) → ℕ → F × ℕ
strongest greater lowest corr zero = (lowest, 0)
strongest greater lowest corr (suc i) =
    let (max_corr, max_index) = strongest greater lowest corr i in
    if greater (corr (2 * i)) max_corr then (corr (2 * i), i) else (max_corr, max_index)
