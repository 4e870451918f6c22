-- ===== src/Device/Loaded.antt =====
-- What a slot of src/accelerators.cpp says that it holds, after ensure_app_loaded and
-- prepare_static.
use ece506scheduler.Base.{
  ℕ, zero, suc, ◌+◌, ◌*◌, ◌<◌, ◌≤◌, ℤ, pos, ◌≡◌, ◌∙◌, ap, Bool, true, false, ◌&&◌, List, [], ◌∷◌,
  ◌++◌, ◌⊎◌, Text, text, text_eq, text_eq_iff, text_eq_refl, is_empty, if◌then◌else◌, arith,
}
use ece506scheduler.Task.{AppDescriptor}
use ece506scheduler.Device.World.{open_out, put, flush, exists, sleep_ns, Event, World, ask, tell}
use ece506scheduler.Device.Slot.{FpgaSlot}
use ece506scheduler.Device.Load.{
  write_manager, guarded_write, load_bitstream, ensure_app_loaded, prepare_static,
}
use ece506scheduler.Device.Gpio.{
  million, gpio_dir, export_gpio, wait_dir, configure_gpio, ensure_pr_gpio_ready, decouple_level,
  write_level, set_decouple_gpio,
}
use ece506scheduler.Device.Decouple.{SameApp, set_decouple_gpio-SameApp}

guarded_write-SameApp :
    (path : Text) (s : FpgaSlot) (w : World) → SameApp s (guarded_write path s w).1
unfolding guarded_write
guarded_write-SameApp path s w =
    let (_, s1, w1) = set_decouple_gpio true s w in
    let (_, w2) = write_manager s1.opts.manager_path path w1 in
    ground (arith, set_decouple_gpio-SameApp true s w, set_decouple_gpio-SameApp false s1 w2)

pub load_bitstream-SameApp :
    (path : Text) (s : FpgaSlot) (w : World) → SameApp s (load_bitstream path s w).1
unfolding load_bitstream
load_bitstream-SameApp path s w = ground (arith, guarded_write-SameApp path s w)

-- How often a line was put, with success, into a stream over `manager`.
abbrev is_put : (manager line : Text) → Event → Bool
is_put manager line e = elim e.op [
  | put path v ↦ e.ok && text_eq path manager && text_eq v line
  | open_out path ↦ false
  | flush path ↦ false
  | exists path ↦ false
  | sleep_ns ns ↦ false
]

pub puts : (manager line : Text) → List Event → ℕ
puts manager line [] = 0
puts manager line (e ∷ rest) = (if is_put manager line e then 1 else 0) + puts manager line rest

module _ (manager line : Text) where
  -- No call takes one back.
  abbrev Grows : World → World → Type 0
  Grows w w' = puts manager line w.trace ≤ puts manager line w'.trace

  write_level-Grows :
      (level : Bool) (delay_ms : ℕ) (path : Text) (w : World)
      → Grows w (write_level level delay_ms path w).1
  unfolding write_level ask tell puts
  write_level-Grows level delay_ms path w = ground arith

  export_gpio-Grows : (number : ℤ) (dir : Text) (w : World) → Grows w (export_gpio number dir w).1
  unfolding export_gpio ask tell puts
  export_gpio-Grows number dir w = ground arith

  wait_dir-Grows : (rounds : ℕ) (dir : Text) (w : World) → Grows w (wait_dir rounds dir w)
  unfolding wait_dir ask tell puts
  wait_dir-Grows zero dir w = omega arith
  wait_dir-Grows (suc rounds) dir w = ground (
    arith,
    wait_dir-Grows rounds dir (tell (sleep_ns (pos (10 * million))) (ask (exists dir) w).1),
  )

  configure_gpio-Grows :
      (low : Bool) (dir : Text) (w : World) → Grows w (configure_gpio low dir w).1
  unfolding configure_gpio ask tell puts
  configure_gpio-Grows low dir w = ground arith

  ensure_ready-Grows : (s : FpgaSlot) (w : World) → Grows w (ensure_pr_gpio_ready s w).2
  unfolding ensure_pr_gpio_ready
  ensure_ready-Grows s w =
      let dir = gpio_dir s.opts.pr_gpio_number in
      let w1 = (export_gpio s.opts.pr_gpio_number dir w).1 in
      ground (
        arith,
        export_gpio-Grows s.opts.pr_gpio_number dir w,
        wait_dir-Grows 50 dir w1,
        configure_gpio-Grows s.opts.pr_gpio_active_low dir (wait_dir 50 dir w1),
      )

  set_decouple-Grows :
      (asserted : Bool) (s : FpgaSlot) (w : World) → Grows w (set_decouple_gpio asserted s w).2
  unfolding set_decouple_gpio
  set_decouple-Grows asserted s w =
      let (ready, s1, w1) = ensure_pr_gpio_ready s w in
      ground (
        arith,
        ensure_ready-Grows s w,
        write_level-Grows (decouple_level s1.opts.pr_gpio_active_low asserted)
            s1.opts.pr_gpio_delay_ms s1.pr_gpio_value_path w1,
      )

write_manager-puts :
    (manager path : Text) (w : World)
    → (write_manager manager path w).0 ≡ true
    → puts manager (path ++ text "\n") w.trace
      < puts manager (path ++ text "\n") (write_manager manager path w).1.trace
unfolding write_manager ask tell puts
write_manager-puts manager path w h =
    ground (arith, text_eq_refl manager, text_eq_refl (path ++ text "\n"))

-- A success writes the path of the bitstream to the manager.
abbrev pub Wrote : Text → FpgaSlot → World → World → Type 0
Wrote path s w w' =
    puts s.opts.manager_path (path ++ text "\n") w.trace
    < puts s.opts.manager_path (path ++ text "\n") w'.trace

guarded_write-Wrote :
    (path : Text) (s : FpgaSlot) (w : World)
    → (guarded_write path s w).0 ≡ true
    → Wrote path s w (guarded_write path s w).2
unfolding guarded_write
guarded_write-Wrote path s w h =
    let (_, s1, w1) = set_decouple_gpio true s w in
    let (_, w2) = write_manager s1.opts.manager_path path w1 in
    let same = (set_decouple_gpio-SameApp true s w).opts in
    let line = path ++ text "\n" in
    ground (
      arith,
      set_decouple-Grows s.opts.manager_path line true s w,
      write_manager-puts s1.opts.manager_path path w1,
      set_decouple-Grows s.opts.manager_path line false s1 w2,
      ap (λ o. puts o.manager_path line w1.trace) same,
      ap (λ o. puts o.manager_path line w2.trace) same,
    )

load_bitstream-Wrote :
    (path : Text) (s : FpgaSlot) (w : World)
    → (load_bitstream path s w).0 ≡ true
    → (is_empty path ≡ true)
      ⊎ (s.opts.mock_mode ≡ true)
      ⊎ Wrote path s w (load_bitstream path s w).2
unfolding load_bitstream
load_bitstream-Wrote path s w h =
    ground (arith, guarded_write-Wrote path s w, write_manager-puts s.opts.manager_path path w)

-- ensure_app_loaded on each branch: a success leaves the slot configured with the app, which it held
-- before, or the bitstream has no path, or the slot is mocked, or the path has been put into the
-- manager's stream once more; a failure leaves what the slot said it held; and neither touches the
-- options or the static shell's flag.
pub ensure_app_loaded_lem :
    (app : AppDescriptor) (s : FpgaSlot) (w : World)
    → let (ok, s', w') = ensure_app_loaded app s w in
      (s'.opts ≡ s.opts)
      × (s'.slot ≡ s.slot)
      × (s'.static_loaded ≡ s.static_loaded)
      × (ok ≡ true
          → (s'.current_app ≡ app.app)
            × (s'.configured ≡ true)
            × (((s.configured ≡ true) × (s.current_app ≡ app.app))
                ⊎ (is_empty app.bitstream_path ≡ true)
                ⊎ (s.opts.mock_mode ≡ true)
                ⊎ Wrote app.bitstream_path s w w'))
      × (ok ≡ false → (s'.current_app ≡ s.current_app) × (s'.configured ≡ s.configured))
unfolding ensure_app_loaded
ensure_app_loaded_lem app s w = ground (
  arith,
  load_bitstream-SameApp app.bitstream_path s w,
  load_bitstream-Wrote app.bitstream_path s w,
  text_eq_iff s.current_app app.app,
)

ensure_again :
    (app : AppDescriptor) (s : FpgaSlot) (w : World)
    → s.configured ≡ true
    → s.current_app ≡ app.app
    → ensure_app_loaded app s w ≡ (true, s, w)
unfolding ensure_app_loaded
ensure_again app s w c e = ground (arith, text_eq_iff s.current_app app.app)

-- Once it has succeeded, ensure_app_loaded for the same app makes no call and changes nothing.
pub ensure_app_loaded_twice :
    (app : AppDescriptor) (s : FpgaSlot) (w w' : World)
    → (ensure_app_loaded app s w).0 ≡ true
    → ensure_app_loaded app (ensure_app_loaded app s w).1 w'
      ≡ (true, (ensure_app_loaded app s w).1, w')
ensure_app_loaded_twice app s w w' h =
    let (_, _, _, loaded, _) = ensure_app_loaded_lem app s w in
    ensure_again app _ w' (loaded h).1 (loaded h).0

prepare_static-keeps :
    (s : FpgaSlot) (w : World)
    → ((prepare_static s w).1.current_app ≡ s.current_app)
      × ((prepare_static s w).1.configured ≡ s.configured)
unfolding prepare_static
prepare_static-keeps s w = ground (arith, load_bitstream-SameApp s.opts.static_bitstream s w)

-- A slot that holds an app still says so after prepare_static has loaded the static shell over it:
-- ensure_app_loaded then reports success without a call.
pub prepare_static-keeps_app :
    (app : AppDescriptor) (s : FpgaSlot) (w w' : World)
    → s.configured ≡ true
    → s.current_app ≡ app.app
    → let s' = (prepare_static s w).1 in ensure_app_loaded app s' w' ≡ (true, s', w')
prepare_static-keeps_app app s w w' c e =
    let (current, configured) = prepare_static-keeps s w in
    ensure_again app _ w' (configured ∙ c) (current ∙ e)
