-- ===== src/Device/Mocked.antt =====
-- The accelerators of apps/sched_runner.cpp without --fpga-real: a mock CPU and mocked slots, of
-- src/accelerators.cpp.
use ece506scheduler.Base.{ℕ, ◌≡◌, refl, ◌∙◌, ap, true, false, Option-cases, inl, inr, arith}
use ece506scheduler.Task.{Task, AppDescriptor}
use ece506scheduler.Scheduler.Staffed.{Duty, one, each, IsSteady}
use ece506scheduler.Scheduler.Liveness.Body.{Succeeds}
use ece506scheduler.Device.World.{World}
use ece506scheduler.Device.Slot.{FpgaSlot}
use ece506scheduler.Device.Load
use ece506scheduler.Device.Loaded.{ensure_app_loaded_lem}
use ece506scheduler.Device.Fleet.{
  Workload, Device, cpu_mock, fpga_slot, cpu_work, cpu_run, slot_work, slot_run, device_available,
  device_load, device_run, fleet,
}

-- One is a mock CPU, and each is a mock CPU or a mocked slot.
abbrev pub IsMocked : Duty → Device → Type 0
IsMocked one (cpu_mock id) = Unit
IsMocked one (fpga_slot s) = ⊥
IsMocked each (cpu_mock id) = Unit
IsMocked each (fpga_slot s) = s.opts.mock_mode ≡ true

-- A mocked slot takes every app.
mocked-loads :
    (app : AppDescriptor) (s : FpgaSlot) (w : World)
    → s.opts.mock_mode ≡ true
    → (Load.ensure_app_loaded app s w).0 ≡ true
unfolding Load.ensure_app_loaded Load.load_bitstream
mocked-loads app s w h = ground arith

mocked-stays :
    (app : AppDescriptor) (s : FpgaSlot) (w : World)
    → s.opts.mock_mode ≡ true
    → (Load.ensure_app_loaded app s w).1.opts.mock_mode ≡ true
mocked-stays app s w h =
    let (same, _, _, _, _) = ensure_app_loaded_lem app s w in ap (λ o. o.mock_mode) same ∙ h

module _ (work : Workload) where
  load-IsMocked :
      (app : AppDescriptor) (d : Device) (w : World) (duty : Duty)
      → IsMocked duty d
      → IsMocked duty (device_load work app d w).1
  unfolding device_load
  load-IsMocked app (cpu_mock id) w one h = tt
  load-IsMocked app (cpu_mock id) w each h = tt
  load-IsMocked app (fpga_slot s) w one h = elim h [ ]
  load-IsMocked app (fpga_slot s) w each h = mocked-stays app s w h

  slot_run-slot :
      (t : Task) (app : AppDescriptor) (s : FpgaSlot) (w : World)
      → (slot_run work t app s w).1 ≡ (Load.ensure_app_loaded app s w).1
  unfolding slot_run
  slot_run-slot t app s w = ground arith

  run-IsMocked :
      (t : Task) (app : AppDescriptor) (d : Device) (w : World) (duty : Duty)
      → IsMocked duty d
      → IsMocked duty (device_run work t app d w).1
  unfolding device_run
  run-IsMocked t app (cpu_mock id) w one h = tt
  run-IsMocked t app (cpu_mock id) w each h = tt
  run-IsMocked t app (fpga_slot s) w one h = elim h [ ]
  run-IsMocked t app (fpga_slot s) w each h =
      ap (λ s'. s'.opts.mock_mode) (slot_run-slot t app s w) ∙ mocked-stays app s w h

  cpu-available : (d : Device) (w : World) → IsMocked one d → device_available work d w ≡ true
  unfolding device_available
  cpu-available (cpu_mock id) w h = refl
  cpu-available (fpga_slot s) w h = elim h [ ]

  cpu-fixed : (d : Device) → IsMocked one d → (fleet work).is_reconfigurable d ≡ false
  cpu-fixed (cpu_mock id) h = refl
  cpu-fixed (fpga_slot s) h = elim h [ ]

  pub mocked-IsSteady : IsSteady (fleet work) IsMocked
  mocked-IsSteady = record {
    available = cpu-available;
    fixed = cpu-fixed;
    after_load = load-IsMocked;
    after_run = run-IsMocked;
  }

  module _ (zips : (ctx : ℕ) (w : World) → (work.run_zip ctx w).0 ≡ true)
      (ffts : (ctx : ℕ) (w : World) → (work.run_fft ctx w).0 ≡ true) where
    cpu_work-succeeds :
        (t : Task) (app : AppDescriptor) (w : World) → (cpu_work work t app w).0 ≡ true
    unfolding cpu_work
    cpu_work-succeeds t app w = elim (Option-cases (work.zip_context t)) [
      | inr (ctx, e) ↦ rw (e, cpu_work) (zips ctx w)
      | inl e ↦ elim (Option-cases (work.fft_context t)) [
        | inr (ctx, f) ↦ rw (e, f, cpu_work) (ffts ctx w)
        | inl f ↦ rw (e, f, cpu_work) refl
      ]
    ]

    slot_run-succeeds :
        (t : Task) (app : AppDescriptor) (s : FpgaSlot) (w : World)
        → s.opts.mock_mode ≡ true
        → (slot_run work t app s w).0.ok ≡ true
    unfolding slot_run slot_work
    slot_run-succeeds t app s w h = ground (arith, mocked-loads app s w h, mocked-stays app s w h)

    -- Where the operations succeed, so does each run.
    pub mocked-Succeeds : Succeeds (fleet work) IsMocked
    unfolding device_run cpu_run
    mocked-Succeeds t app (cpu_mock id) w h = cpu_work-succeeds t app _
    mocked-Succeeds t app (fpga_slot s) w h = slot_run-succeeds t app s w h
