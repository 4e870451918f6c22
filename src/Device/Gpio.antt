-- ===== src/Device/Gpio.antt =====
-- ensure_pr_gpio_ready and set_decouple_gpio of FpgaSlotAccelerator, src/accelerators.cpp. Its log
-- lines are not modelled.
use ece506scheduler.Base.{
  ℕ, zero, suc, ◌*◌, ℤ, pos, pos_part, ltb, Bool, true, false, not, ◌++◌, Text, text, to_string,
  if◌then◌else◌,
}
use ece506scheduler.Device.World.{World, open_out, put, flush, exists, sleep_ns, ask, tell}
use ece506scheduler.Device.Slot.{FpgaSlot, has_pr_gpio}

abbrev pub million : ℕ
million = 1_000_000

-- "/sys/class/gpio/gpioN"
unfoldable pub gpio_dir : ℤ → Text
gpio_dir number = text "/sys/class/gpio/gpio" ++ to_string (pos_part number)

abbrev pub export_path : Text
export_path = text "/sys/class/gpio/export"

-- The first `if` of ensure_pr_gpio_ready; the block's end flushes the file.
unfoldable pub export_gpio : ℤ → Text → World → Bool × World
export_gpio number dir w =
    let (there, w1) = ask (exists dir) w in
    if there
    then (true, w1)
    else let (opened, w2) = ask (open_out export_path) w1 in
      if not opened then (false, w2) else (
        true,
        tell (flush export_path)
            (tell (put export_path (to_string (pos_part number) ++ text "\n")) w2),
      )

-- The loop that waits for the directory, with the rounds left.
unfoldable pub wait_dir : ℕ → Text → World → World
wait_dir zero dir w = w
wait_dir (suc rounds) dir w =
    let (there, w') = ask (exists dir) w in
    let rest = wait_dir rounds dir (tell (sleep_ns (pos (10 * million))) w') in
    if there then w' else rest

-- From the second test of the directory to the end: the destructors flush active_low, if it is
-- open, and then direction.
unfoldable pub configure_gpio : Bool → Text → World → Bool × World
configure_gpio active_low dir w =
    let (there, w1) = ask (exists dir) w in
    if not there
    then (false, w1)
    else let direction = dir ++ text "/direction" in
      let (opened, w2) = ask (open_out direction) w1 in
      if not opened
      then (false, w2)
      else let w3 = tell (put direction (text "out\n")) w2 in
        let low_path = dir ++ text "/active_low" in
        let (low, w4) = ask (open_out low_path) w3 in
        let value = if active_low then text "1\n" else text "0\n" in
        let w5 = if low then tell (flush low_path) (tell (put low_path value) w4) else w4 in
        (true, tell (flush direction) w5)

unfoldable pub ensure_pr_gpio_ready : FpgaSlot → World → Bool × FpgaSlot × World
ensure_pr_gpio_ready s w =
    if not (has_pr_gpio s)
    then (true, s, w)
    else if s.pr_gpio_ready
    then (true, s, w)
    else let dir = gpio_dir s.opts.pr_gpio_number in
      let (exported, w1) = export_gpio s.opts.pr_gpio_number dir w in
      if not exported
      then (false, s, w1)
      else let (done, w2) = configure_gpio s.opts.pr_gpio_active_low dir (wait_dir 50 dir w1) in
        if not done then (false, s, w2) else (
          true,
          record s { pr_gpio_ready = true; pr_gpio_value_path = dir ++ text "/value" },
          w2,
        )

-- The level that is written to the value file.
unfoldable pub decouple_level : (active_low asserted : Bool) → Bool
decouple_level active_low asserted =
    if active_low then (if asserted then false else true) else (if asserted then true else false)

abbrev pub level_text : Bool → Text
level_text true = text "1\n"
level_text false = text "0\n"

-- From the opening of the value file on. The stream is flushed when it goes out of scope.
unfoldable pub write_level : Bool → ℕ → Text → World → Bool × World
write_level level delay_ms path w =
    let (opened, w1) = ask (open_out path) w in
    if not opened
    then (false, w1)
    else let (good, w2) = ask (put path (level_text level)) w1 in
      if not good
      then (false, tell (flush path) w2)
      else let w3 = if ltb 0 delay_ms then tell (sleep_ns (pos (delay_ms * million))) w2 else w2 in
        (true, tell (flush path) w3)

unfoldable pub set_decouple_gpio : Bool → FpgaSlot → World → Bool × FpgaSlot × World
set_decouple_gpio asserted s w =
    if not (has_pr_gpio s)
    then (true, s, w)
    else let (ready, s', w1) = ensure_pr_gpio_ready s w in
      if not ready
      then (false, s', w1)
      else let level = decouple_level s'.opts.pr_gpio_active_low asserted in
        let (ok, w2) = write_level level s'.opts.pr_gpio_delay_ms s'.pr_gpio_value_path w1 in
        (ok, s', w2)
