-- ===== src/Device/Guarded.antt =====
-- The decouple GPIO around a reconfiguration: load_bitstream and its DecoupleGuard in
-- src/accelerators.cpp.
use ece506scheduler.Base.{
  ℕ, ◌≡◌, Bool, true, false, ◌&&◌, List, [], ◌∷◌, Option, none, some, Text, text_eq, if◌then◌else◌,
}
use ece506scheduler.Device.World.{Op, flush, Event, World}
use ece506scheduler.Device.Slot.{FpgaSlot}
use ece506scheduler.Device.Gpio.{decouple_level, write_level}
use ece506scheduler.Device.Load.{write_manager}
use ece506scheduler.Device.Decouple.{file_state, content}

abbrev is_flush : Text → Op → Bool
is_flush manager (flush path) = text_eq manager path
is_flush manager _ = false

abbrev holds : Text → Option Text → Bool
holds level none = false
holds level (some v) = text_eq v level

-- In a trace, the newest call first: at each flush of `manager`, the file `gpio` had the content
-- `level`.
pub guards : (manager gpio level : Text) → List Event → Bool
guards manager gpio level [] = true
guards manager gpio level (e ∷ rest) =
    (if is_flush manager e.op then holds level (file_state gpio rest).content else true)
    && guards manager gpio level rest

-- Where every call succeeds, so do the writes, and the manager's file has the path.
abbrev AllAnswer : World → Type 0
AllAnswer w = (k : ℕ) → w.answers k ≡ true

-- guarded_write of a slot whose GPIO has been set up.
abbrev plain_write : Text → FpgaSlot → World → Bool × World
plain_write path s w =
    let low = s.opts.pr_gpio_active_low in
    let (asserted, w1) =
      write_level (decouple_level low true) s.opts.pr_gpio_delay_ms s.pr_gpio_value_path w in
    let (good, w2) = write_manager s.opts.manager_path path w1 in
    let (_, w3) =
      write_level (decouple_level low false) s.opts.pr_gpio_delay_ms s.pr_gpio_value_path w2 in
    if asserted then (good, w3) else (false, w1)
