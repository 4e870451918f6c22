-- ===== src/Tester/Signal.antt =====
-- The input of run_fft_diagnostic of apps/fpga_pr_tester.cpp, and its functions whose text is that of
-- apps/fpga_static_probe.cpp or apps/sched_runner.cpp. The values of the patterns are parameters.
use ece506scheduler.Base.{ℕ, ◌+◌, ◌*◌, ◌/◌, ◌%◌, ◌==◌, ltb, Bool, Text, List, ◌&&◌, if◌then◌else◌}
use ece506scheduler.Task.{ResourceKind}
use ece506scheduler.Hardware.Regs.{Regs}
use ece506scheduler.Tester.Parsing.{FftPattern, impulse, sine, ramp, random, MmioProbe}
use ece506scheduler.StaticProbe.MmioProbes
use ece506scheduler.StaticProbe.MmioProbes.{DevMem}
use ece506scheduler.Runner.Options

-- The floats of the patterns: the sine at a frequency, for the sample `i` of `n`, the ramp at `i`, and
-- the draws of the generator in their order.
pub record Waveforms (F : Type 0) : Type 0 where
  pub zero_value : F
  pub one_value : F
  pub sine_at : (freq i n : ℕ) → F
  pub ramp_at : ℕ → F
  pub draw : ℕ → F

-- std::max<size_t>(1, iter % std::max<size_t>(complex_len, 1))
unfoldable pub sine_frequency : (iter complex_len : ℕ) → ℕ
sine_frequency iter complex_len =
    let freq = iter % (if complex_len == 0 then 1 else complex_len) in if freq == 0 then 1 else freq

-- The vector behind fill_fft_input; `drawn` is the number of draws before it.
unfoldable pub fill_fft_input :
    {F : Type 0} → Waveforms F → FftPattern → (complex_len iter drawn : ℕ) → ℕ → F
fill_fft_input w impulse complex_len iter drawn i = if i == 0 then w.one_value else w.zero_value
fill_fft_input w sine complex_len iter drawn i =
    if i % 2 == 0 && ltb (i / 2) complex_len
    then w.sine_at (sine_frequency iter complex_len) (i / 2) complex_len
    else w.zero_value
fill_fft_input w ramp complex_len iter drawn i =
    if i % 2 == 0 && ltb (i / 2) complex_len then w.ramp_at (i / 2) else w.zero_value
fill_fft_input w random complex_len iter drawn i =
    if ltb i (complex_len * 2) then w.draw (drawn + i) else w.zero_value

-- run_mmio_probe, run_mmio_probes and resource_for_app.
abbrev pub tester_mmio_probe : DevMem → MmioProbe → Regs → Bool × Regs
tester_mmio_probe = MmioProbes.run_mmio_probe

abbrev pub tester_mmio_probes : DevMem → List MmioProbe → Regs → Bool × Regs
tester_mmio_probes = MmioProbes.run_mmio_probes

abbrev pub tester_resource : Text → ResourceKind
tester_resource = Options.resource_for_app
