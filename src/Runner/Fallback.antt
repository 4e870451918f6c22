-- ===== src/Runner/Fallback.antt =====
-- What select_accelerator answers in the process that apps/sched_runner.cpp sets up.
use mathlib.Core.Bool.{false≢true}
use ece506scheduler.Base.{ℕ, ◌≡◌, ◌≢◌, refl, subst, true, List, [], ◌∷◌, ◌++◌, none, All, All-split}
use ece506scheduler.Task.{Task, AppDescriptor}
use ece506scheduler.Scheduler.Impl.{Impl, select_accelerator}
use ece506scheduler.Scheduler.Select.{Selects, select_accelerator-Selects}
use ece506scheduler.Device.World.{World}
use ece506scheduler.Device.Fleet.{
  Workload, Device, cpu_mock, fleet, fleet-IsLawful, device_available, device_reconfigurable,
  make_cpu_mock,
}
use ece506scheduler.Runner.Wiring.{OverlayEntry, wire}
use ece506scheduler.Device.Slot.{FpgaSlotOptions}

module _ (work : Workload) where
  not-Selects-none :
      (t : Task) (s s' : Impl Device World) (id : ℕ) (before after : List Device)
      → s.accelerators ≡ before ++ cpu_mock id ∷ after
      → ¬ Selects (fleet work) t s (none, s')
  unfolding device_available
  not-Selects-none t s s' id before after e (all_slots, _) =
      let (_, here) =
        All-split
          (λ a. device_available work a s.world ≡ true → device_reconfigurable work a ≡ true) before
          (cpu_mock id ∷ after) (subst (All _) e all_slots) in
      false≢true (here.0 refl)

  -- Where one of the accelerators is a mock CPU, as after main has set them up, a task whose app is
  -- registered always gets an accelerator.
  pub select-ne-none :
      (t : Task) (app : AppDescriptor) (s : Impl Device World) (id : ℕ) (before after : List Device)
      → app.app ≡ t.app
      → s.accelerators ≡ before ++ cpu_mock id ∷ after
      → (select_accelerator (fleet work) t app s).0 ≢ none
  select-ne-none t app s id before after named e h =
      not-Selects-none t s (select_accelerator (fleet work) t app s).1 id before after e (
        subst (λ o. Selects (fleet work) t s (o, (select_accelerator (fleet work) t app s).1)) h
          (select_accelerator-Selects (fleet work) (fleet-IsLawful work) t app s named))

  -- The accelerators that main sets up end with a mock CPU.
  pub wire-cpu_mock :
      (opts : FpgaSlotOptions) (entries : List OverlayEntry) (world : World)
      → (before : List Device) × ((wire work opts entries world).accelerators
          ≡ before ++ cpu_mock 0 ∷ [])
  unfolding wire make_cpu_mock
  wire-cpu_mock opts entries world = (_, refl)
