-- ===== src/StaticProbe/Main.antt =====
-- main of apps/fpga_static_probe.cpp. Which paths exist on the host is a part of the surroundings.
use ece506scheduler.Base.{
  ℕ, zero, suc, ◌+◌, Bool, true, false, not, ◌||◌, ◌&&◌, List, [], ◌++◌, Text, text, starts_with,
  is_empty, if◌then◌else◌,
}
use ece506scheduler.Task.{AppDescriptor, fft}
use ece506scheduler.Device.World.{World}
use ece506scheduler.Device.Slot.{FpgaSlotOptions, new_slot}
use ece506scheduler.Device.Load.{ensure_app_loaded, prepare_static}
use ece506scheduler.Hardware.Regs.{Regs}
use ece506scheduler.Runner.Wiring.{path_join}
use ece506scheduler.Loopback.Transfer.{Bench, run_dma_loopback}
use ece506scheduler.Loopback.Rules.{scan_args, exits, collected}
use ece506scheduler.StaticProbe.Options.{ProbeOptions, probe_defaults, probe_rules, Variables}
use ece506scheduler.StaticProbe.MmioProbes.{DevMem, run_mmio_probes}

pub record Surroundings : Type 0 where
  pub exists : Text → Bool
  pub dev_mem : DevMem
  pub bench : Bench

-- What the tool has done so far: to the slots' files, and to the registers.
pub record Effects : Type 0 where
  pub world : World
  pub regs : Regs

-- Whether resolve_bitstream_host_path finds a path.
unfoldable pub is_on_host : (Text → Bool) → Text → Bool
is_on_host exists request =
    exists request
    || (not (starts_with (text "/") request) && exists (path_join (text "/lib/firmware") request))

abbrev pub probe_slot_options : ProbeOptions → FpgaSlotOptions
probe_slot_options opts = record {
  manager_path = opts.fpga_manager;
  mock_mode = not opts.fpga_real;
  static_bitstream = opts.static_bitstream;
  debug_logging = opts.fpga_debug;
  pr_gpio_number = opts.pr_gpio;
  pr_gpio_active_low = opts.pr_gpio_active_low;
  pr_gpio_delay_ms = opts.pr_gpio_delay_ms;
}

abbrev pub probe_desc : ProbeOptions → AppDescriptor
probe_desc opts = record {
  app = opts.overlay_label;
  bitstream_path = opts.overlay_bitstream;
  kernel_name = opts.overlay_label ++ text "_kernel";
  kind = fft;
}

-- The body of the loop over the attempts: a slot of its own, the static shell, and the overlay.
unfoldable pub attempt : ProbeOptions → (iter : ℕ) → World → Bool × World
attempt opts iter w =
    let (ready, slot, w1) = prepare_static (new_slot iter (probe_slot_options opts)) w in
    let (loaded, _, w2) = ensure_app_loaded (probe_desc opts) slot w1 in
    if not ready then (false, w1) else if opts.load_overlay then (loaded, w2) else (true, w1)

-- The loop, with the attempts left.
unfoldable pub attempts : ProbeOptions → ℕ → (iter : ℕ) → World → Bool × World
attempts opts zero iter w = (true, w)
attempts opts (suc left) iter w =
    let (ok, w') = attempt opts iter w in
    let rest = attempts opts left (iter + 1) w' in if ok then rest else (false, w')

-- What follows the loop over the attempts: the exit code.
unfoldable pub look : Surroundings → Variables → Effects → ℕ × Effects
look m (opts, probes) e =
    let (probed, r1) = run_mmio_probes m.dev_mem probes e.regs in
    let (copied, r2) = run_dma_loopback m.bench opts.loopback r1 in
    if not probed
    then (1, record e { regs = r1 })
    else if opts.run_loopback
    then (if copied then 0 else 1, record e { regs = r2 })
    else (0, record e { regs = r1 })

-- What follows the loop over the arguments.
unfoldable pub probe_shell : Surroundings → Variables → Effects → ℕ × Effects
probe_shell m (opts, probes) e =
    let (ok, w) = attempts opts opts.repetitions 0 e.world in
    let e' = record e { world = w } in
    if not opts.fpga_real
    then (1, e)
    else if is_empty opts.static_bitstream || not (is_on_host m.exists opts.static_bitstream)
    then (1, e)
    else if opts.load_overlay && not (is_on_host m.exists opts.overlay_bitstream)
    then (1, e)
    else if ok
    then look m (opts, probes) e'
    else (1, e')

-- main, for the arguments behind the program's name.
unfoldable pub probe_main : Surroundings → List Text → Effects → ℕ × Effects
probe_main m args e = elim (scan_args probe_rules args (probe_defaults, [])) [
  | exits code ↦ (code, e)
  | collected v ↦ probe_shell m v e
]
