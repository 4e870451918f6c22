-- ===== src/Tester/Overlays.antt =====
-- load_overlays of apps/fpga_pr_tester.cpp. Which paths exist on the host is the parameter `exists`.
use ece506scheduler.Base.{
  ℕ, zero, suc, ◌+◌, ◌%◌, ◌^◌, Bool, true, false, not, ◌||◌, ◌&&◌, List, [], ◌∷◌, ◌++◌, Text, text,
  starts_with, negsuc, if◌then◌else◌,
}
use ece506scheduler.Task.{AppDescriptor}
use ece506scheduler.Device.World.{World}
use ece506scheduler.Device.Slot.{FpgaSlot, FpgaSlotOptions, new_slot}
use ece506scheduler.Device.Load.{ensure_app_loaded, prepare_static}
use ece506scheduler.Runner.Options.{resource_for_app}
use ece506scheduler.Runner.Wiring.{path_join}
use ece506scheduler.Tester.Parsing.{TestOverlay}
use ece506scheduler.Tester.Arguments.{Config}

pub record SlotInstance : Type 0 where
  pub desc : AppDescriptor
  pub slot : FpgaSlot

-- The variables of the loops.
pub record Loading : Type 0 where
  pub next_slot : ℕ
  pub slots : List SlotInstance
  pub world : World

unfoldable pub test_options : Config → FpgaSlotOptions
test_options cfg = record {
  manager_path = cfg.fpga_manager;
  mock_mode = not cfg.fpga_real;
  static_bitstream = cfg.static_bitstream;
  debug_logging = cfg.fpga_debug;
  pr_gpio_number = negsuc 0;
  pr_gpio_active_low = false;
  pr_gpio_delay_ms = 5;
}

unfoldable pub overlay_desc : TestOverlay → AppDescriptor
overlay_desc overlay = record {
  app = overlay.app;
  bitstream_path = overlay.bitstream_path;
  kernel_name = overlay.app ++ text "_kernel";
  kind = resource_for_app overlay.app;
}

module _ (exists : Text → Bool) where
  -- ensure_path_exists: the path as it is, or a relative one under /lib/firmware.
  unfoldable pub ensure_path_exists : Text → Bool
  ensure_path_exists path =
      exists path
      || (not (starts_with (text "/") path) && exists (path_join (text "/lib/firmware") path))

  -- The body of the inner loop; `false`: load_overlays returns false here.
  unfoldable pub load_slot : Config → AppDescriptor → Loading → Bool × Loading
  load_slot cfg desc l =
      let (ready, shell, w1) = prepare_static (new_slot l.next_slot (test_options cfg)) l.world in
      let l1 = record l { next_slot = (l.next_slot + 1) % 2 ^ 32; world = w1 } in
      if not ready
      then (false, l1)
      else let (loaded, slot, w2) = ensure_app_loaded desc shell w1 in
        if not loaded then (false, record l1 { world = w2 }) else (
          true,
          record l1 { slots = l1.slots ++ record { desc = desc; slot = slot } ∷ []; world = w2 },
        )

  unfoldable pub load_copies : ℕ → Config → AppDescriptor → Loading → Bool × Loading
  load_copies zero cfg desc l = (true, l)
  load_copies (suc n) cfg desc l =
      let (ok, l') = load_slot cfg desc l in
      let rest = load_copies n cfg desc l' in if ok then rest else (false, l')

  unfoldable pub load_each : Config → List TestOverlay → Loading → Bool × Loading
  load_each cfg [] l = (true, l)
  load_each cfg (overlay ∷ overlays) l =
      let (ok, l') = load_copies overlay.count cfg (overlay_desc overlay) l in
      let rest = load_each cfg overlays l' in
      if not (ensure_path_exists overlay.bitstream_path)
      then (false, l)
      else if ok
      then rest
      else (false, l')

  unfoldable pub load_overlays : Config → List TestOverlay → World → Bool × Loading
  load_overlays cfg overlays w =
      let start : Loading = record { next_slot = 0; slots = []; world = w } in
      if not (ensure_path_exists cfg.static_bitstream)
      then (false, start)
      else load_each cfg overlays start
