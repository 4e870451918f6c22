-- ===== src/Device/Load.antt =====
-- load_bitstream, ensure_app_loaded, prepare_static and is_available of FpgaSlotAccelerator,
-- src/accelerators.cpp.
use ece506scheduler.Base.{
  Bool, true, false, not, ◌&&◌, ◌||◌, ◌++◌, Text, text, text_eq, is_empty, if◌then◌else◌,
}
use ece506scheduler.Task.{AppDescriptor}
use ece506scheduler.Device.World.{World, open_out, put, flush, ask, tell}
use ece506scheduler.Device.Slot.{FpgaSlot, has_pr_gpio}
use ece506scheduler.Device.Gpio.{set_decouple_gpio}

-- From the opening of the manager's file on, up to the stream's destructor.
unfoldable pub write_manager : (manager path : Text) → World → Bool × World
write_manager manager path w =
    let (opened, w1) = ask (open_out manager) w in
    if not opened
    then (false, w1)
    else let (good, w2) = ask (put manager (path ++ text "\n")) w1 in
      (good, tell (flush manager) w2)

-- DecoupleGuard's destructor releases the GPIO once it is engaged; its result is not looked at.
unfoldable pub guarded_write : Text → FpgaSlot → World → Bool × FpgaSlot × World
guarded_write path s w =
    let (asserted, s1, w1) = set_decouple_gpio true s w in
    if not asserted
    then (false, s1, w1)
    else let (good, w2) = write_manager s1.opts.manager_path path w1 in
      let (_, s3, w3) = set_decouple_gpio false s1 w2 in (good, s3, w3)

unfoldable pub load_bitstream : Text → FpgaSlot → World → Bool × FpgaSlot × World
load_bitstream path s w =
    if is_empty path
    then (true, s, w)
    else if s.opts.mock_mode
    then (true, s, w)
    else if has_pr_gpio s
    then guarded_write path s w
    else let (good, w') = write_manager s.opts.manager_path path w in (good, s, w')

unfoldable pub ensure_app_loaded : AppDescriptor → FpgaSlot → World → Bool × FpgaSlot × World
ensure_app_loaded app s w =
    if s.configured && text_eq s.current_app app.app
    then (true, s, w)
    else let (ok, s', w') = load_bitstream app.bitstream_path s w in
      if not ok then (false, s', w') else (
        true,
        record s' { current_app = app.app; current_kind = app.kind; configured = true },
        w',
      )

unfoldable pub prepare_static : FpgaSlot → World → Bool × FpgaSlot × World
prepare_static s w =
    if s.static_loaded || is_empty s.opts.static_bitstream
    then (true, s, w)
    else let (ok, s', w') = load_bitstream s.opts.static_bitstream s w in
      if not ok then (false, s', w') else (true, record s' { static_loaded = true }, w')

unfoldable pub is_available : FpgaSlot → World → Bool
is_available s w = if s.opts.mock_mode then true else w.readable s.opts.manager_path || s.configured
