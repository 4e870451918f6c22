-- ===== src/Device/Fleet.antt =====
-- The two classes of accelerators of src/accelerators.cpp behind the interface that the scheduler
-- uses: CpuMockAccelerator, FpgaSlotAccelerator and the functions that make them. What a task's FFT
-- or ZIP does with its buffers is the parameter `work`.
use ece506scheduler.Base.{
  ℕ, ◌+◌, ◌*◌, ◌%◌, ◌^◌, ℤ, pos, ◌-ℤ◌, ltb_ℤ, ◌≡◌, refl, ap, Bool, true, false, not, ◌&&◌, Option,
  none, some, Text, text, text_eq, to_string, ◌++◌, if◌then◌else◌, arith,
}
use ece506scheduler.Task.{Task, ExecutionResult, AppDescriptor}
use ece506scheduler.Scheduler.Accelerators.{Accelerators, IsLawful}
use ece506scheduler.Device.World.{World, sleep_ns, tell, now}
use ece506scheduler.Device.Slot.{FpgaSlot, FpgaSlotOptions, new_slot, slot_name}
use ece506scheduler.Device.Gpio.{million}
use ece506scheduler.Device.Load
use ece506scheduler.Device.Loaded.{ensure_app_loaded_lem}

-- zip_context and fft_context give a context's address, where std::stoull does not throw: an exception
-- in `run` ends the process, and a task with such a parameter is outside of the model. The operations on it answer whether they
-- succeeded, and leave a message in it. `attempt_fft` is what `run` does with the hardware runner:
-- `none` where there is none, it is not available or it did not run, and else ctx->ok.
pub record Workload : Type 0 where
  pub zip_context : Task → Option ℕ
  pub fft_context : Task → Option ℕ
  pub run_zip : ℕ → World → Bool × World
  pub run_fft : ℕ → World → Bool × World
  pub attempt_fft : ℕ → World → Option Bool × World
  pub message : ℕ → World → Text

pub data Device : Type 0 where
  cpu_mock : ℕ → Device
  fpga_slot : FpgaSlot → Device

unfoldable pub make_cpu_mock : ℕ → Device
make_cpu_mock id = cpu_mock id

unfoldable pub make_fpga_slot : ℕ → FpgaSlotOptions → Device
make_fpga_slot slot opts = fpga_slot (new_slot slot opts)

unfoldable pub make_zip_overlay : ℕ → Device
make_zip_overlay id = make_cpu_mock id

unfoldable pub make_fft_overlay : ℕ → Device
make_fft_overlay id = make_cpu_mock ((id + 10) % 2 ^ 32)

unfoldable pub cpu_name : ℕ → Text
cpu_name id = text "cpu-mock-" ++ to_string id

-- est_runtime_ns, or the class's default where that is not positive.
unfoldable pub duration : ℤ → Task → ℤ
duration default_ns t = if ltb_ℤ (pos 0) t.est_runtime_ns then t.est_runtime_ns else default_ns

module _ (work : Workload) where
  open work use {zip_context, fft_context, run_zip, run_fft, attempt_fft, message}

  -- The body of CpuMockAccelerator::run between the two readings of the clock.
  unfoldable pub cpu_work : Task → AppDescriptor → World → Bool × Text × World
  cpu_work t app w = elim (zip_context t) [
    | some ctx ↦ let (ok, w') = run_zip ctx w in (ok, message ctx w', w')
    | none ↦ elim (fft_context t) [
      | some ctx ↦ let (ok, w') = run_fft ctx w in (ok, message ctx w', w')
      | none ↦ (
        true,
        text "Executed " ++ app.app ++ text " on mock CPU",
        tell (sleep_ns (duration (pos (10 * million)) t)) w,
      )
    ]
  ]

  unfoldable pub cpu_run : ℕ → Task → AppDescriptor → World → ExecutionResult × World
  cpu_run id t app w =
      let (t0, w0) = now w in
      let (ok, msg, w1) = cpu_work t app w0 in
      let (t1, w2) = now w1 in
      (
        record {
          id = t.id;
          ok = ok;
          message = msg;
          runtime_ns = t1 -ℤ t0;
          accelerator = cpu_name id;
        },
        w2,
      )

  -- The FFT of FpgaSlotAccelerator::run on a slot that is not mocked.
  unfoldable pub slot_fft : Task → World → Bool × Text × World
  slot_fft t w = elim (fft_context t) [
    | none ↦ (false, text "fft: missing execution context", w)
    | some ctx ↦
        let (ran_hw, w1) = attempt_fft ctx w in
        elim ran_hw [
          | some ok ↦ (ok, message ctx w1, w1)
          | none ↦
              let (ok, w2) = run_fft ctx w1 in (ok, message ctx w2 ++ text " (cpu fallback)", w2)
        ]
  ]

  unfoldable pub slot_work : Task → AppDescriptor → FpgaSlot → World → Bool × Text × World
  slot_work t app s w =
      if not s.opts.mock_mode && text_eq t.app (text "fft") then slot_fft t w else (
        true,
        text "Executed " ++ app.app ++ text " on " ++ slot_name s,
        tell (sleep_ns (duration (pos (15 * million)) t)) w,
      )

  unfoldable pub slot_run :
      Task → AppDescriptor → FpgaSlot → World → ExecutionResult × FpgaSlot × World
  slot_run t app s w =
      let (loaded, s', w0) = Load.ensure_app_loaded app s w in
      if not loaded
      then (
        record {
          id = t.id;
          ok = false;
          message = text "Failed to ensure " ++ app.app ++ text " on " ++ slot_name s';
          runtime_ns = pos 0;
          accelerator = slot_name s';
        },
        s',
        w0,
      )
      else let (t0, w1) = now w0 in
        let (ok, msg, w2) = slot_work t app s' w1 in
        let (t1, w3) = now w2 in
        (
          record {
            id = t.id;
            ok = ok;
            message = msg;
            runtime_ns = t1 -ℤ t0;
            accelerator = slot_name s';
          },
          s',
          w3,
        )

  -- The virtual calls.
  unfoldable pub device_name : Device → Text
  device_name (cpu_mock id) = cpu_name id
  device_name (fpga_slot s) = slot_name s

  unfoldable pub device_available : Device → World → Bool
  device_available (cpu_mock id) w = true
  device_available (fpga_slot s) w = Load.is_available s w

  abbrev pub device_reconfigurable : Device → Bool
  device_reconfigurable (cpu_mock id) = false
  device_reconfigurable (fpga_slot s) = true

  abbrev pub device_app : Device → Option Text
  device_app (cpu_mock id) = none
  device_app (fpga_slot s) = some s.current_app

  unfoldable pub device_load : AppDescriptor → Device → World → Bool × Device × World
  device_load app (cpu_mock id) w = (true, cpu_mock id, w)
  device_load app (fpga_slot s) w =
      let (ok, s', w') = Load.ensure_app_loaded app s w in (ok, fpga_slot s', w')

  unfoldable pub device_static : Device → World → Bool × Device × World
  device_static (cpu_mock id) w = (true, cpu_mock id, w)
  device_static (fpga_slot s) w =
      let (ok, s', w') = Load.prepare_static s w in (ok, fpga_slot s', w')

  unfoldable pub device_run :
      Task → AppDescriptor → Device → World → ExecutionResult × Device × World
  device_run t app (cpu_mock id) w = let (r, w') = cpu_run id t app w in (r, cpu_mock id, w')
  device_run t app (fpga_slot s) w = let (r, s', w') = slot_run t app s w in (r, fpga_slot s', w')

  abbrev pub fleet : Accelerators Device World
  fleet = record {
    name = device_name;
    is_available = device_available;
    is_reconfigurable = device_reconfigurable;
    slot_app = device_app;
    ensure_app_loaded = device_load;
    prepare_static = device_static;
    run = device_run;
  }

  device_run-id :
      (t : Task) (app : AppDescriptor) (d : Device) (w : World) → (device_run t app d w).0.id ≡ t.id
  unfolding device_run cpu_run slot_run
  device_run-id t app (cpu_mock id) w = refl
  device_run-id t app (fpga_slot s) w = ground arith

  device_load-loads :
      (app : AppDescriptor) (d : Device) (w : World) (current : Text)
      → device_app d ≡ some current
      → (device_load app d w).0 ≡ true
      → device_app (device_load app d w).1 ≡ some app.app
  unfolding device_load
  device_load-loads app (cpu_mock id) w current e h = cc
  device_load-loads app (fpga_slot s) w current e h =
      let (_, _, _, loaded, _) = ensure_app_loaded_lem app s w in ap some (loaded h).0

  -- The accelerators of the program keep the laws that the scheduler relies on.
  pub fleet-IsLawful : IsLawful fleet
  fleet-IsLawful = record { run_id = device_run-id; loads = device_load-loads }
