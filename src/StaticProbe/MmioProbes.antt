-- ===== src/StaticProbe/MmioProbes.antt =====
-- run_mmio_probes of apps/fpga_static_probe.cpp and of apps/fpga_pr_tester.cpp.
use ece506scheduler.Base.{
  ℕ, ◌*◌, ◌/◌, ltb, Bool, true, false, not, ◌||◌, ◌&&◌, List, [], ◌∷◌, if◌then◌else◌,
}
use ece506scheduler.Hardware.Regs.{Regs, Ran, fault, done, and_then, read_reg}
use ece506scheduler.Tester.Parsing.{MmioProbe}

-- Whether /dev/mem opens, and whether a probe's span can be mapped.
pub record DevMem : Type 0 where
  pub opens : Bool
  pub maps : MmioProbe → Bool

-- The loop over the offsets: those inside the span are read, as the word that they lie in.
unfoldable pub read_offsets : (span : ℕ) → List ℕ → Regs → Ran (Unit {0})
read_offsets span [] r = done tt r
read_offsets span (offset ∷ offsets) r =
    let inside = and_then (read_reg (offset / 4 * 4) r) (λ _ r'. read_offsets span offsets r') in
    let outside = read_offsets span offsets r in if ltb offset span then inside else outside

-- run_mmio_probe: a SIGBUS ends the probe with `false`.
unfoldable pub run_mmio_probe : DevMem → MmioProbe → Regs → Bool × Regs
run_mmio_probe m probe r =
    if not m.opens || not (m.maps probe)
    then (false, r)
    else elim (read_offsets probe.span probe.offsets r) [
      | fault r' ↦ (false, r')
      | done _ r' ↦ (true, r')
    ]

-- Every probe is run, after a failed one too.
unfoldable pub run_mmio_probes : DevMem → List MmioProbe → Regs → Bool × Regs
run_mmio_probes m [] r = (true, r)
run_mmio_probes m (probe ∷ probes) r =
    let (ok, r1) = run_mmio_probe m probe r in
    let (rest, r2) = run_mmio_probes m probes r1 in (ok && rest, r2)
