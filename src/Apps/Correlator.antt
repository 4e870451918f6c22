-- ===== src/Apps/Correlator.antt =====
-- app_run of apps/radar_correlator.cpp. The arithmetic on floats, what an FFT task leaves in its
-- output buffer and the addresses of the contexts are parameters. While app_run blocks on a future, the
-- scheduler's threads do `settle`.
use ece506scheduler.Base.{
  ℕ, ◌+◌, ◌*◌, ◌/◌, ◌%◌, ◌==◌, ℤ, Bool, true, false, List, Option, none, some, Text, text,
  if◌then◌else◌,
}
use ece506scheduler.Dash.CompletionBus.{future_get}
use ece506scheduler.Runner.Wiring.{path_join}
use ece506scheduler.Scheduler.Accelerators.{Accelerators}
use ece506scheduler.Scheduler.Impl.{Impl}
use ece506scheduler.Apps.Radar.{schedule_fft_task, strongest}
use ece506scheduler.Apps.Inputs.{Files, discover_input, load_data, resized}

-- `D` is double and `F` is float. `transformed` is what app_run's task of
-- a number, from 0 on, leaves of an input, whichever code runs it.
pub record Arithmetic (D F : Type 0) : Type 0 where
  pub zero_double : D
  pub to_float : D → F
  pub sin_phase : D → F
  pub cos_phase : D → F
  pub times : F → F → F
  pub plus : F → F → F
  pub minus : F → F → F
  pub lowest : F
  pub greater : F → F → Bool
  pub transformed : (task : ℕ) (inverse : Bool) → (ℕ → F) → ℕ → F

-- How app_run ends: its code with the place of the maximum that it prints, an exception of subscribe,
-- or a wait for a future that is never set.
pub data RunEnd : Type 0 where
  returns : ℕ → Option ℕ → RunEnd
  throws hangs : RunEnd

abbrev pub target_fft_len : ℕ
target_fft_len = 65_536

module _ {D F : Type 0} (num : Arithmetic D F) where
  open num use {times, plus, minus, transformed}

  -- chirp, from the times.
  unfoldable pub chirp : (ℕ → D) → ℕ → F
  chirp time i = if i % 2 == 0 then num.sin_phase (time (i / 2)) else num.cos_phase (time (i / 2))

  -- corr_freq, from X1 and X2.
  unfoldable pub cross : (ℕ → F) → (ℕ → F) → ℕ → F
  cross x1 x2 j =
      let i = j / 2 in
      let a = x1 (2 * i) in
      let b = x1 (2 * i + 1) in
      let c = x2 (2 * i) in
      let d = x2 (2 * i + 1) in
      if j % 2 == 0 then plus (times a c) (times b d) else minus (times b c) (times a d)

  -- max_index, where the three transforms do well.
  unfoldable pub peak : List D → List D → ℕ
  unfolding chirp cross strongest resized
  peak time_values received_values =
      let time = resized num.zero_double time_values in
      let received : ℕ → F = λ i. num.to_float (resized num.zero_double received_values i) in
      let corr_freq = cross (transformed 0 false (chirp time)) (transformed 1 false received) in
      let corr_time = transformed 2 true corr_freq in
      (strongest num.greater num.lowest corr_time target_fft_len).1

module _ {A W : Type 0} (ops : Accelerators A W) (settle : Impl A W → Impl A W) where
  -- fut.get(): `none` where it never returns.
  unfoldable pub await : ℕ → Impl A W → Option Bool × Impl A W
  await f s = let s' = settle s in (future_get f s'.bus, s')

  -- `!fft1.fut.get() || !fft2.fut.get()`, with the futures that were handed out: `none` where it
  -- hangs.
  unfoldable pub await_both : ℕ → ℕ → Impl A W → Option Bool × Impl A W
  await_both f1 f2 s =
      let (first, s1) = await f1 s in
      elim first [
        | none ↦ (none, s1)
        | some ok ↦ elim ok [ false ↦ (some false, s1) | true ↦ await f2 s1 ]
      ]

  -- What follows the wait for the third task, and the call that schedules it.
  abbrev pub after_await : ℕ → RunEnd → Option Bool × Impl A W → RunEnd × ℕ × Impl A W
  after_await counter well (none, s) = (hangs, counter, s)
  after_await counter well (some ok, s) = (if ok then well else returns 1 none, counter, s)

  abbrev pub after_third : RunEnd → Option ℕ × ℕ × Impl A W → RunEnd × ℕ × Impl A W
  after_third well (none, counter, s) = (throws, counter, s)
  after_third well (some f, counter, s) = after_await counter well (await f s)

  -- A task is scheduled and waited for.
  unfoldable pub run_one :
      (ctx : ℕ) (now : ℤ) (counter : ℕ) → Impl A W → RunEnd → RunEnd × ℕ × Impl A W
  run_one ctx now counter s well = after_third well (schedule_fft_task ops ctx now counter s)

  -- What follows the two waits, the second call of schedule_fft_task, and the first.
  abbrev pub after_both :
      (ctx : ℕ → ℕ) (now : ℤ) (counter : ℕ)
      → RunEnd
      → Option Bool × Impl A W
      → RunEnd × ℕ × Impl A W
  after_both ctx now counter well (none, s) = (hangs, counter, s)
  after_both ctx now counter well (some false, s) = (returns 1 none, counter, s)
  after_both ctx now counter well (some true, s) = run_one (ctx 2) now counter s well

  abbrev pub after_second :
      (ctx : ℕ → ℕ) (now : ℤ) → RunEnd → ℕ → Option ℕ × ℕ × Impl A W → RunEnd × ℕ × Impl A W
  after_second ctx now well f1 (none, counter, s) = (throws, counter, s)
  after_second ctx now well f1 (some f2, counter, s) =
      after_both ctx now counter well (await_both f1 f2 s)

  abbrev pub after_first :
      (ctx : ℕ → ℕ) (now : ℤ) → RunEnd → Option ℕ × ℕ × Impl A W → RunEnd × ℕ × Impl A W
  after_first ctx now well (none, counter, s) = (throws, counter, s)
  after_first ctx now well (some f1, counter, s) =
      after_second ctx now well f1 (schedule_fft_task ops (ctx 1) now counter s)

  -- From the two forward transforms on; `well` is how it ends if all three do well.
  unfoldable pub run_three :
      (ctx : ℕ → ℕ) (now : ℤ) (counter : ℕ) → Impl A W → RunEnd → RunEnd × ℕ × Impl A W
  run_three ctx now counter s well =
      after_first ctx now well (schedule_fft_task ops (ctx 0) now counter s)

  module _ {D F : Type 0} (files : Files D) (num : Arithmetic D F) where
    unfoldable pub app_run :
        List Text → (ctx : ℕ → ℕ) (now : ℤ) (counter : ℕ) → Impl A W → RunEnd × ℕ × Impl A W
    app_run args ctx now counter s = elim (discover_input files args) [
      | none ↦ (returns 1 none, counter, s)
      | some asset_dir ↦ elim (load_data files (path_join asset_dir (text "time_input.txt"))) [
        | none ↦ (returns 1 none, counter, s)
        | some time ↦ elim (load_data files (path_join asset_dir (text "received_input.txt"))) [
          | none ↦ (returns 1 none, counter, s)
          | some received ↦ run_three ctx now counter s (returns 0 (some (peak num time received)))
        ]
      ]
    ]
