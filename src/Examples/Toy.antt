-- ===== src/Examples/Toy.antt =====
-- Accelerators that the examples run on: a processor, and slots that hold an app.
use ece506scheduler.Base.{pos, ◌≡◌, refl, Bool, true, Option, none, some, Text, is_some, []}
use ece506scheduler.Task.{Task, ExecutionResult, AppDescriptor}
use ece506scheduler.Scheduler.Accelerators.{Accelerators, IsLawful}

-- `none` is the processor, `some app` a slot that holds `app`.
abbrev pub Board : Type 0
Board = Option Text

abbrev load : AppDescriptor → Board → Unit {0} → Bool × Board × Unit {0}
load d none w = (true, none, w)
load d (some _) w = (true, some d.app, w)

abbrev run_task : Task → AppDescriptor → Board → Unit {0} → ExecutionResult × Board × Unit {0}
run_task t d b w =
    (record { id = t.id; ok = true; message = []; runtime_ns = pos 7; accelerator = [] }, b, w)

abbrev pub boards : Accelerators Board (Unit {0})
boards = record {
  name = λ b. [];
  is_available = λ b w. true;
  is_reconfigurable = is_some;
  slot_app = λ b. b;
  ensure_app_loaded = load;
  prepare_static = λ b w. (true, b, w);
  run = run_task;
}

boards-loads :
    (d : AppDescriptor) (b : Board) (w : Unit {0}) (current : Text)
    → boards.slot_app b ≡ some current
    → (boards.ensure_app_loaded d b w).0 ≡ true
    → boards.slot_app (boards.ensure_app_loaded d b w).1 ≡ some d.app
boards-loads d none w current e h = cc
boards-loads d (some a) w current e h = refl

pub boards-IsLawful : IsLawful boards
boards-IsLawful = record { run_id = λ t d b w. refl; loads = boards-loads }
