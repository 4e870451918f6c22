-- ===== src/Device/Decouple.antt =====
-- The file of the decouple GPIO, after set_decouple_gpio of src/accelerators.cpp.
use ece506scheduler.Base.{
  ℕ, ◌<◌, ◌≡◌, refl, Bool, true, false, not, ◌&&◌, List, [], ◌∷◌, Option, none, some, Text, text_eq,
  text_eq_refl, if◌then◌else◌, arith, pos, ◌*◌, lt→ltb,
}
use ece506scheduler.Device.World.{Op, open_out, put, flush, sleep_ns, Event, World, ask, tell}
use ece506scheduler.Device.Slot.{FpgaSlot}
use ece506scheduler.Device.Gpio.{
  million, decouple_level, level_text, write_level, set_decouple_gpio, ensure_pr_gpio_ready,
}

-- What a stream over a file has in its buffer, and what the file was last written.
pub record FileState : Type 0 where
  pub buffer : Option Text
  pub content : Option Text

abbrev after_op : Text → Op → Bool → FileState → FileState
after_op path (put p v) ok f = if text_eq p path && ok then record f { buffer = some v } else f
after_op path (flush p) ok f =
    if text_eq p path
    then elim f.buffer [ none ↦ f | some v ↦ record { buffer = none; content = some v } ]
    else f
after_op path _ ok f = f

-- A file that nothing has written, after the calls of a trace.
unfoldable pub file_state : Text → List Event → FileState
file_state path [] = record { buffer = none; content = none }
file_state path (e ∷ rest) = after_op path e.op e.ok (file_state path rest)

abbrev pub content : Text → World → Option Text
content path w = (file_state path w.trace).content

-- When write_level succeeds the file holds the level.
pub write_level-content :
    (level : Bool) (delay_ms : ℕ) (path : Text) (w : World)
    → (write_level level delay_ms path w).0 ≡ true
    → content path (write_level level delay_ms path w).1 ≡ some (level_text level)
unfolding write_level ask tell file_state
write_level-content level delay_ms path w h = ground (arith, text_eq_refl path)

-- What set_decouple_gpio keeps of a slot.
pub record SameApp (s s' : FpgaSlot) : Type 0 where
  pub slot : s'.slot ≡ s.slot
  pub opts : s'.opts ≡ s.opts
  pub current_app : s'.current_app ≡ s.current_app
  pub current_kind : s'.current_kind ≡ s.current_kind
  pub configured : s'.configured ≡ s.configured
  pub static_loaded : s'.static_loaded ≡ s.static_loaded

ensure_pr_gpio_ready-SameApp : (s : FpgaSlot) (w : World) → SameApp s (ensure_pr_gpio_ready s w).1
unfolding ensure_pr_gpio_ready
ensure_pr_gpio_ready-SameApp s w = ground arith

pub set_decouple_gpio-SameApp :
    (asserted : Bool) (s : FpgaSlot) (w : World) → SameApp s (set_decouple_gpio asserted s w).1
unfolding set_decouple_gpio
set_decouple_gpio-SameApp asserted s w = ground (arith, ensure_pr_gpio_ready-SameApp s w)

-- Where a write of a level succeeds, with a delay that is not 0, the whole delay passes before the
-- file changes: it ends with the delay and then the flush, up to which the content is the old one.
pub write_level-delays_first :
    (level : Bool) (delay_ms : ℕ) (path : Text) (w : World)
    → 0 < delay_ms
    → (write_level level delay_ms path w).0 ≡ true
    → (slept : World) × ((write_level level delay_ms path w).1 ≡ tell (flush path) slept)
      × (before : World) × (slept ≡ tell (sleep_ns (pos (delay_ms * million))) before)
      × (content path slept ≡ content path w)
unfolding write_level ask tell file_state
write_level-delays_first level delay_ms path w d h =
    let before = (ask (put path (level_text level)) (ask (open_out path) w).1).1 in
    let slept = tell (sleep_ns (pos (delay_ms * million))) before in
    (slept, ground (arith, lt→ltb 0 delay_ms), before, refl, ground arith)

-- The level in the value file, seen through the kernel's active_low inversion of it, is high exactly
-- when the GPIO is asserted, for an active-low GPIO too.
pub decouple_level-ignores_active_low :
    (pin : (active_low value : Bool) → Bool)
    → ((v : Bool) → pin false v ≡ v)
    → ((v : Bool) → pin true v ≡ not v)
    → (active_low asserted : Bool) → pin active_low (decouple_level active_low asserted) ≡ asserted
unfolding decouple_level
decouple_level-ignores_active_low pin plain low true true = low false
decouple_level-ignores_active_low pin plain low true false = low true
decouple_level-ignores_active_low pin plain low false true = plain true
decouple_level-ignores_active_low pin plain low false false = plain false
