-- ===== src/Examples/Slots.antt =====
-- A slot of src/accelerators.cpp with GPIO 5, on a system where every call succeeds.
use ece506scheduler.Base.{
  is_empty, ◌⊎◌, ◌≡◌, refl, Bool, true, false, not, [], text, text_eq, pos, ◌*◌, digits, to_string,
  arith,
}
use ece506scheduler.Task.{AppDescriptor, fft}
use ece506scheduler.Device.World.{World, flush, sleep_ns, ask, tell}
use ece506scheduler.Device.Slot.{FpgaSlot, FpgaSlotOptions, new_slot, has_pr_gpio}
use ece506scheduler.Device.Gpio.{
  million, gpio_dir, export_gpio, wait_dir, configure_gpio, ensure_pr_gpio_ready, decouple_level,
  write_level, set_decouple_gpio,
}
use ece506scheduler.Device.Load.{
  write_manager, guarded_write, load_bitstream, ensure_app_loaded, prepare_static,
}
use ece506scheduler.Device.Decouple.{
  content, write_level-delays_first, decouple_level-ignores_active_low,
}
use ece506scheduler.Device.Loaded.{Wrote, ensure_app_loaded_lem, prepare_static-keeps_app}

abbrev options : FpgaSlotOptions
options = record {
  manager_path = text "fw";
  mock_mode = false;
  static_bitstream = text "static.bit";
  debug_logging = false;
  pr_gpio_number = pos 5;
  pr_gpio_active_low = true;
  pr_gpio_delay_ms = 5;
}

abbrev slot : FpgaSlot
slot = new_slot 0 options

abbrev world : World
world = record {
  answers = λ n. true;
  calls = 0;
  trace = [];
  readable = λ path. true;
  clock = λ n. pos n;
}

abbrev app : AppDescriptor
app = record { app = text "fft"; bitstream_path = text "fft.bit"; kernel_name = []; kind = fft }

program : Unit {0}
unfolding text text_eq digits to_string ask tell new_slot has_pr_gpio gpio_dir export_gpio wait_dir
    configure_gpio ensure_pr_gpio_ready decouple_level write_level set_decouple_gpio write_manager
    guarded_write load_bitstream ensure_app_loaded prepare_static
program = tt

-- A slot whose GPIO has been set up.
abbrev set_up : FpgaSlot
set_up = record slot {
  pr_gpio_ready = true;
  pr_gpio_value_path = text "/sys/class/gpio/gpio5/value";
}

ensure_app_loaded_lem_example :
    let (ok, s', w') = ensure_app_loaded app slot world in
    (s'.opts ≡ slot.opts)
    × (s'.slot ≡ slot.slot)
    × (s'.static_loaded ≡ slot.static_loaded)
    × (ok ≡ true
        → (s'.current_app ≡ app.app)
          × (s'.configured ≡ true)
          × (((slot.configured ≡ true) × (slot.current_app ≡ app.app))
              ⊎ (is_empty app.bitstream_path ≡ true)
              ⊎ (slot.opts.mock_mode ≡ true)
              ⊎ Wrote app.bitstream_path slot world w'))
    × (ok ≡ false → (s'.current_app ≡ slot.current_app) × (s'.configured ≡ slot.configured))
ensure_app_loaded_lem_example = ensure_app_loaded_lem app slot world

slot-loads : (ensure_app_loaded app slot world).0 ≡ true
unfolding program
slot-loads = refl

abbrev loaded : FpgaSlot
loaded = (ensure_app_loaded app slot world).1

loaded-holds : (loaded.configured ≡ true) × (loaded.current_app ≡ app.app)
unfolding program
loaded-holds = (refl, refl)

prepare_static-keeps_app_example :
    let s' = (prepare_static loaded world).1 in ensure_app_loaded app s' world ≡ (true, s', world)
prepare_static-keeps_app_example =
    prepare_static-keeps_app app loaded world world loaded-holds.0 loaded-holds.1

writes : (write_level true 5 (text "value") world).0 ≡ true
unfolding program
writes = refl

write_level-delays_first_example :
    (slept : World) × ((write_level true 5 (text "value") world).1
      ≡ tell (flush (text "value")) slept)
    × (before : World) × (slept ≡ tell (sleep_ns (pos (5 * million))) before)
    × (content (text "value") slept ≡ content (text "value") world)
write_level-delays_first_example =
    write_level-delays_first true 5 (text "value") world (omega arith) writes

abbrev pin : Bool → Bool → Bool
pin true v = not v
pin false v = v

decouple_level-ignores_active_low_example : pin true (decouple_level true true) ≡ true
decouple_level-ignores_active_low_example =
    decouple_level-ignores_active_low pin (λ v. refl) (λ v. refl) true true
