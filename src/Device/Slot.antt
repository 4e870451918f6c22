-- ===== src/Device/Slot.antt =====
-- FpgaSlotOptions and the state of FpgaSlotAccelerator, include/schedrt/accelerator.hpp.
use ece506scheduler.Base.{ℕ, ℤ, pos, ltb_ℤ, Bool, false, not, [], Text, text, to_string, ◌++◌}
use ece506scheduler.Task.{ResourceKind, cpu}

pub record FpgaSlotOptions : Type 0 where
  pub manager_path : Text
  pub mock_mode : Bool
  pub static_bitstream : Text
  pub debug_logging : Bool
  pub pr_gpio_number : ℤ
  pub pr_gpio_active_low : Bool
  pub pr_gpio_delay_ms : ℕ

pub record FpgaSlot : Type 0 where
  pub slot : ℕ
  pub opts : FpgaSlotOptions
  pub current_app : Text
  pub current_kind : ResourceKind
  pub configured : Bool
  pub static_loaded : Bool
  pub pr_gpio_ready : Bool
  pub pr_gpio_value_path : Text

-- The constructor.
unfoldable pub new_slot : ℕ → FpgaSlotOptions → FpgaSlot
new_slot slot opts = record {
  slot = slot;
  opts = opts;
  current_app = [];
  current_kind = cpu;
  configured = false;
  static_loaded = false;
  pr_gpio_ready = false;
  pr_gpio_value_path = [];
}

unfoldable pub slot_name : FpgaSlot → Text
slot_name s = text "fpga-slot-" ++ to_string s.slot

unfoldable pub has_pr_gpio : FpgaSlot → Bool
has_pr_gpio s = not (ltb_ℤ s.opts.pr_gpio_number (pos 0))

-- The methods current_app, current_kind and slot_id.
abbrev pub app_in_slot : FpgaSlot → Text
app_in_slot s = s.current_app

abbrev pub kind_in_slot : FpgaSlot → ResourceKind
kind_in_slot s = s.current_kind

abbrev pub slot_id : FpgaSlot → ℕ
slot_id s = s.slot
