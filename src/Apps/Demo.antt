-- ===== src/Apps/Demo.antt =====
-- app_run of apps/demo_dash.cpp: a ZIP and then an FFT through Dash. While it blocks on a future, the
-- scheduler's threads do `settle`; the counters of the two operations stand beside the globals.
use ece506scheduler.Base.{ℕ, ℤ, Bool, Option, none, some}
use ece506scheduler.Dash.CompletionBus.{future_get}
use ece506scheduler.Dash.Execute.{
  Operation, fft_operation, zip_operation, Globals, Outcome, returns, throws, awaits, execute,
}
use ece506scheduler.Scheduler.Accelerators.{Accelerators}
use ece506scheduler.Scheduler.Impl.{Impl}

module _ {A W : Type 0} (ops : Accelerators A W) (settle : Impl A W → Impl A W) where
  -- What an operation returns; `none`: it throws, or never returns.
  unfoldable pub finish : Outcome × Globals A W → Option Bool × Globals A W
  finish (returns ok, g) = (some ok, g)
  finish (throws, g) = (none, g)
  finish (awaits f, g) = elim g.sched [
    | none ↦ (none, g)
    | some s ↦ let s' = settle s in (future_get f s'.bus, record g { sched = some s' })
  ]

  unfoldable pub call : Operation → (ctx : ℕ) (now : ℤ) → Globals A W → Option Bool × Globals A W
  unfolding finish
  call operation ctx now g = finish (execute ops operation ctx now g)

  -- The two answers that it prints; app_run returns 0 with each of them.
  unfoldable pub demo_run :
      (zip_ctx fft_ctx : ℕ) (now : ℤ) (fft_counter : ℕ)
      → Globals A W
      → Option (Bool × Bool) × Globals A W
  unfolding call
  demo_run zip_ctx fft_ctx now fft_counter g =
      let (ok_zip, g1) = call zip_operation zip_ctx now g in
      elim ok_zip [
        | none ↦ (none, g1)
        | some zipped ↦
            let (ok_fft, g2) =
              call fft_operation fft_ctx now (record g1 { counter = fft_counter }) in
            elim ok_fft [ none ↦ (none, g2) | some transformed ↦ (some (zipped, transformed), g2) ]
      ]
