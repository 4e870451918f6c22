-- ===== src/Runner/Wiring.antt =====
-- How main of apps/sched_runner.cpp builds the registry, the accelerators and the providers.
use ece506scheduler.Base.{
  ℕ, zero, suc, ◌+◌, ◌%◌, ◌^◌, ◌==◌, pos, Bool, false, not, ◌||◌, List, [], ◌∷◌, ◌++◌, Text, text,
  text_eq, is_empty, starts_with, if◌then◌else◌,
}
use ece506scheduler.Task.{AppDescriptor, cpu}
use ece506scheduler.Registry.{Registry, register_app}
use ece506scheduler.Dash.Provider.{Provider, register_provider}
use ece506scheduler.Device.World.{World}
use ece506scheduler.Device.Slot.{FpgaSlotOptions}
use ece506scheduler.Device.Fleet.{
  Workload, Device, make_fpga_slot, make_cpu_mock, device_static, device_load,
}
use ece506scheduler.Runner.Options.{Options, OverlaySpec, resource_for_app}

-- `overlays` once main has filled in the default.
unfoldable pub with_defaults : List OverlaySpec → List OverlaySpec
with_defaults [] =
    record { app = text "zip"; count = 2; bitstream = [] }
    ∷ record { app = text "fft"; count = 1; bitstream = [] }
    ∷ record { app = text "fir"; count = 1; bitstream = [] }
    ∷ []
with_defaults (o ∷ os) = o ∷ os

-- c ends with a slash.
unfoldable pub ends_with_slash : Text → Bool
ends_with_slash [] = false
ends_with_slash (c ∷ []) = c == b'/'
ends_with_slash (c ∷ d ∷ rest) = ends_with_slash (d ∷ rest)

-- std::filesystem::path's operator/: an absolute path on the right replaces the left one.
unfoldable pub path_join : Text → Text → Text
path_join base rest =
    if starts_with (text "/") rest
    then rest
    else if is_empty base || ends_with_slash base
    then base ++ rest
    else base ++ text "/" ++ rest

unfoldable pub describe : Text → OverlaySpec → AppDescriptor
describe bitstream_dir overlay = record {
  app = overlay.app;
  bitstream_path =
      if is_empty overlay.bitstream
      then path_join bitstream_dir (overlay.app ++ text "_partial.bit")
      else path_join bitstream_dir overlay.bitstream;
  kernel_name = overlay.app ++ text "_kernel";
  kind = resource_for_app overlay.app;
}

pub record OverlayEntry : Type 0 where
  pub desc : AppDescriptor
  pub count : ℕ

-- The loop that registers the overlays' apps.
unfoldable pub register_overlays : Text → List OverlaySpec → Registry → List OverlayEntry × Registry
register_overlays bitstream_dir [] reg = ([], reg)
register_overlays bitstream_dir (overlay ∷ overlays) reg =
    let desc = describe bitstream_dir overlay in
    let (entries, reg') = register_overlays bitstream_dir overlays (register_app desc reg) in
    (record { desc = desc; count = overlay.count } ∷ entries, reg')

unfoldable pub slot_options : Options → FpgaSlotOptions
slot_options o = record {
  manager_path = o.fpga_manager;
  mock_mode = not o.fpga_real;
  static_bitstream = o.static_bitstream;
  debug_logging = o.fpga_debug;
  pr_gpio_number = o.fpga_pr_gpio;
  pr_gpio_active_low = o.fpga_pr_gpio_active_low;
  pr_gpio_delay_ms = o.fpga_pr_gpio_delay_ms;
}

-- The variables of the loops that make the slots.
pub record Wiring : Type 0 where
  pub next_slot_id : ℕ
  pub provider_instance : ℕ
  pub cpu_registered : List Text
  pub providers : List Provider
  pub accelerators : List Device
  pub world : World

unfoldable pub has_text : Text → List Text → Bool
has_text t [] = false
has_text t (u ∷ us) = text_eq u t || has_text t us

-- `if (cpu_registered.insert(app).second) register_provider(...)`
unfoldable pub add_cpu_provider : Text → Wiring → Wiring
add_cpu_provider app w = if has_text app w.cpu_registered then w else record w {
  cpu_registered = app ∷ w.cpu_registered;
  provider_instance = (w.provider_instance + 1) % 2 ^ 32;
  providers =
      register_provider
        (record { op = app; kind = cpu; instance_id = w.provider_instance; priority = pos 10 })
        w.providers;
}

module _ (work : Workload) (opts : FpgaSlotOptions) where
  -- The body of the inner loop.
  unfoldable pub add_slot : AppDescriptor → Wiring → Wiring
  add_slot desc w =
      let (_, shell, w1) = device_static work (make_fpga_slot w.next_slot_id opts) w.world in
      let (_, slot, w2) = device_load work desc shell w1 in
      record w {
        next_slot_id = (w.next_slot_id + 1) % 2 ^ 32;
        provider_instance = (w.provider_instance + 1) % 2 ^ 32;
        providers =
            register_provider
              (record {
                op = desc.app;
                kind = desc.kind;
                instance_id = w.provider_instance;
                priority = pos 0;
              })
              w.providers;
        accelerators = w.accelerators ++ slot ∷ [];
        world = w2;
      }

  unfoldable pub add_slots : ℕ → AppDescriptor → Wiring → Wiring
  add_slots zero desc w = w
  add_slots (suc n) desc w = add_slots n desc (add_slot desc w)

  unfoldable pub add_entries : List OverlayEntry → Wiring → Wiring
  add_entries [] w = w
  add_entries (entry ∷ entries) w =
      add_entries entries (add_cpu_provider entry.desc.app (add_slots entry.count entry.desc w))

  -- From the first slot to the mock CPU that is added last.
  unfoldable pub wire : List OverlayEntry → World → Wiring
  wire entries world =
      let start : Wiring = record {
        next_slot_id = 0;
        provider_instance = 0;
        cpu_registered = [];
        providers = [];
        accelerators = [];
        world = world;
      } in
      let w1 = add_cpu_provider (text "zip") (add_entries entries start) in
      let w2 = add_cpu_provider (text "fir") (add_cpu_provider (text "fft") w1) in
      record w2 { accelerators = w2.accelerators ++ make_cpu_mock 0 ∷ [] }
