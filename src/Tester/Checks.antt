-- ===== src/Tester/Checks.antt =====
-- The buffers that the FFT diagnostics of apps/fpga_pr_tester.cpp hand to the FFT functions.
use ece506scheduler.Base.{
  zero, suc, ◌==◌, Bool, false, if_ind, ℕ, ◌*◌, ◌/◌, ◌%◌, ◌^◌, ◌≤◌, ◌<◌, ◌≡◌, ◌⊎◌, inl, inr, refl,
  to_int32, pos, none, some, true, arith,
}
use ece506scheduler.Hardware.FftRunner.{
  FftContext, sample_count, plan_transfer, length_of, fft_length,
}
use ece506scheduler.Tester.Arguments.{Config}
use ece506scheduler.Device.World.{World}
use ece506scheduler.Device.Fleet.{Workload}
use ece506scheduler.Tester.Overlays.{SlotInstance}
use ece506scheduler.Tester.Diagnostics.{
  diagnostic_context, run_iteration, run_iterations, run_fft_diagnostic,
}

context_n : (n : ℕ) → n < 2 ^ 31 → to_int32 (n % 2 ^ 32) ≡ pos n
unfolding to_int32
context_n n h = let small : n % 2 ^ 32 ≡ n = omega (arith, h) in rw small (ground (arith, h))

iteration-mocked :
    (work : Workload) (i : SlotInstance) (ctx iter : ℕ) (w : World)
    → i.slot.opts.mock_mode ≡ true
    → (run_iteration work i ctx iter w).0 ≡ false
unfolding run_iteration
iteration-mocked work i ctx iter w mocked = ground (arith, mocked)

iterations-mocked :
    (work : Workload) (n : ℕ) (i : SlotInstance) (ctx : ℕ) (w : World)
    → i.slot.opts.mock_mode ≡ true
    → 0 < n
    → (run_iterations work n i ctx 0 w).0 ≡ false
unfolding run_iterations
iterations-mocked work zero i ctx w mocked h = absurd (omega (arith, h))
iterations-mocked work (suc n) i ctx w mocked h = rw (iteration-mocked work i ctx 0 w mocked) refl

-- A context of `n` samples in vectors of eight bytes a sample.
record IsWhole (n : ℕ) (ctx : FftContext) : Type 0 where
  plan : ctx.n ≡ pos n
  input : ctx.in_data ≡ true
  output : ctx.out_data ≡ true
  input_bytes : ctx.in_bytes ≡ 8 * n
  output_bytes : ctx.out_bytes ≡ 8 * n

whole-fft_length :
    (n : ℕ) (ctx : FftContext) → IsWhole n ctx → 0 < n → n < 2 ^ 31 → fft_length ctx ≡ length_of n
unfolding fft_length
whole-fft_length n ctx h some_samples small =
    rw (h.plan, h.input, h.output, h.input_bytes, h.output_bytes) (ground arith)

whole-plan_transfer :
    (n size : ℕ) (ctx : FftContext)
    → IsWhole n ctx
    → 0 < n
    → n < 2 ^ 31
    → 4 * n ≤ size / 2
    → plan_transfer size ctx ≡ some (n, n * 4)
unfolding plan_transfer sample_count
whole-plan_transfer n size ctx h some_samples small room =
    rw (h.plan, h.input, h.output, h.output_bytes) (ground arith)

whole-plan_transfer_refused :
    (n size : ℕ) (ctx : FftContext)
    → IsWhole n ctx
    → 0 < n
    → n < 2 ^ 31
    → size / 2 < 4 * n
    → plan_transfer size ctx ≡ none
unfolding plan_transfer sample_count
whole-plan_transfer_refused n size ctx h some_samples small full =
    rw (h.plan, h.input, h.output, h.output_bytes) (ground arith)

lt-or-ge : (i n : ℕ) → (n ≤ i) ⊎ (i < n)
lt-or-ge i n = ground arith

-- The diagnostics of a positive length that an `int` holds: the processor's FFT takes the context as
-- one of that length; the hardware's transfers four bytes for each of as many samples if half of the
-- buffer has room for them, and starts nothing otherwise; and both vectors have the eight bytes a
-- sample that it reads and writes.
pub diagnostic_context_lem :
    (cfg : Config) (size : ℕ)
    → 0 < cfg.fft_length
    → cfg.fft_length < 2 ^ 31
    → (fft_length (diagnostic_context cfg) ≡ length_of cfg.fft_length)
      × (((4 * cfg.fft_length ≤ size / 2)
            × (plan_transfer size (diagnostic_context cfg)
                ≡ some (cfg.fft_length, cfg.fft_length * 4)))
          ⊎ ((size / 2 < 4 * cfg.fft_length)
              × (plan_transfer size (diagnostic_context cfg) ≡ none)))
      × (8 * cfg.fft_length ≤ (diagnostic_context cfg).in_bytes)
      × (8 * cfg.fft_length ≤ (diagnostic_context cfg).out_bytes)
unfolding diagnostic_context
diagnostic_context_lem cfg size some_samples small =
    let n = cfg.fft_length in
    let whole : IsWhole n (diagnostic_context cfg) = record {
      plan = context_n n small;
      input = refl;
      output = refl;
      input_bytes = omega arith;
      output_bytes = omega arith;
    } in
    (
      whole-fft_length n (diagnostic_context cfg) whole some_samples small,
      elim (lt-or-ge (size / 2) (4 * n)) [
        | inl room ↦ inl (
          room,
          whole-plan_transfer n size (diagnostic_context cfg) whole some_samples small room,
        )
        | inr full ↦ inr (
          full,
          whole-plan_transfer_refused n size (diagnostic_context cfg) whole some_samples small full,
        )
      ],
      omega arith,
      omega arith,
    )

-- On a slot that is mocked, a positive number of iterations fails, whatever the operations answer:
-- the slot's run leaves the context as it is, and its success is not set.
pub run_fft_diagnostic-mocked :
    (work : Workload) (cfg : Config) (i : SlotInstance) (ctx : ℕ) (w : World)
    → i.slot.opts.mock_mode ≡ true
    → 0 < cfg.fft_iterations
    → (run_fft_diagnostic work cfg i ctx w).0 ≡ false
unfolding run_fft_diagnostic
run_fft_diagnostic-mocked work cfg i ctx w mocked some_iterations =
    if_ind (λ (a : Bool × SlotInstance × World). a.0 ≡ false) (cfg.fft_length == 0) (λ _. refl)
      (λ _. iterations-mocked work cfg.fft_iterations i ctx w mocked some_iterations)
