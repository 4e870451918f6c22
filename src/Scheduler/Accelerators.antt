-- ===== src/Scheduler/Accelerators.antt =====
-- The class Accelerator of include/schedrt/accelerator.hpp as the scheduler uses it. `A` is the type
-- of the objects and `W` that of the world which their methods change. `slot_app a` is
-- `none` where dynamic_cast<FpgaSlotAccelerator*> fails, and else what current_app() returns.
use ece506scheduler.Base.{◌≡◌, Bool, true, Option, some, Text}
use ece506scheduler.Task.{Task, ExecutionResult, AppDescriptor}

pub record Accelerators (A W : Type 0) : Type 0 where
  pub name : A → Text
  pub is_available : A → W → Bool
  pub is_reconfigurable : A → Bool
  pub slot_app : A → Option Text
  pub ensure_app_loaded : AppDescriptor → A → W → Bool × A × W
  pub prepare_static : A → W → Bool × A × W
  pub run : Task → AppDescriptor → A → W → ExecutionResult × A × W

-- What the scheduler relies on.
pub record IsLawful {A W : Type 0} (ops : Accelerators A W) : Type 0 where
  pub run_id : (t : Task) (d : AppDescriptor) (a : A) (w : W) → (ops.run t d a w).0.id ≡ t.id
  -- A slot that reports success holds the app.
  pub loads :
      (d : AppDescriptor) (a : A) (w : W) (current : Text)
      → ops.slot_app a ≡ some current
      → (ops.ensure_app_loaded d a w).0 ≡ true
      → ops.slot_app (ops.ensure_app_loaded d a w).1 ≡ some d.app
