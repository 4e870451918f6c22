-- ===== src/Examples/Diagnostics.antt =====
-- The diagnostics of apps/fpga_pr_tester.cpp and the rows of apps/SAR/SAR.cpp at concrete inputs.
use ece506scheduler.Base.{ℕ, ◌+◌, ◌*◌, ◌/◌, ◌≤◌, ◌<◌, ◌≡◌, ◌⊎◌, refl, Bool, true, none, some, arith}
use ece506scheduler.Hardware.FftRunner.{plan_transfer, length_of, fft_length}
use ece506scheduler.Tester.Arguments.{default_config}
use ece506scheduler.Tester.Diagnostics.{diagnostic_context}
use ece506scheduler.Tester.Checks.{diagnostic_context_lem}
use ece506scheduler.Sar.Image.{
  Signals, software, left_by, store_sums, copy_block, swap_halves, fftshift, Buffers, run_plan,
  multiplied, process_row, process_rows, empty_buffers,
}

diagnostic_context_lem_example :
    (fft_length (diagnostic_context default_config) ≡ length_of 1024)
    × (((4 * 1024 ≤ 524_288 / 2)
          × (plan_transfer 524_288 (diagnostic_context default_config) ≡ some (1024, 1024 * 4)))
        ⊎ ((524_288 / 2 < 4 * 1024)
            × (plan_transfer 524_288 (diagnostic_context default_config) ≡ none)))
    × (8 * 1024 ≤ (diagnostic_context default_config).in_bytes)
    × (8 * 1024 ≤ (diagnostic_context default_config).out_bytes)
diagnostic_context_lem_example =
    diagnostic_context_lem default_config 524_288 (omega arith) (omega arith)

abbrev sums : ℕ → Bool → (ℕ → ℕ) → ℕ → ℕ
sums n inverse input k = input 2 + input 3

abbrev signals : Signals ℕ
signals = record {
  zero_sample = 0;
  times = λ a b. a * b;
  plus = λ a b. a + b;
  minus = λ a b. a + b;
  summed = sums;
  converted = sums;
  runs = λ k. software;
  answers = λ k. true;
}

-- Two rows of two samples.
abbrev image : Buffers ℕ
image = elim (process_rows signals 2 (λ i. 1) (λ i. i + 5) 2 (empty_buffers signals)) [
  | none ↦ empty_buffers signals
  | some b ↦ b
]

-- The first row has been through the transforms.
focused_test : image.corr 0 ≡ 60
unfolding process_rows process_row run_plan left_by store_sums copy_block fftshift swap_halves
    multiplied
focused_test = refl
