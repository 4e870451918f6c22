-- ===== src/Examples/Choices.antt =====
-- The queue, the choice of an accelerator, the demand counts and a pass of src/scheduler.cpp at
-- concrete inputs.
use ece506scheduler.Base.{
  ℕ, ◌+◌, ◌≡◌, refl, true, false, List, [], ◌∷◌, some, none, Text, text, text_eq, text_key, count,
  ℤ, pos, arith,
}
use ece506scheduler.Task.{Task, AppDescriptor, fft, new_task}
use ece506scheduler.ReadyQueue.{ReadyQueue, task_compare, take_top, pop_blocking}
use ece506scheduler.ReadyQueue.Pop.{Pops, pop_blocking-Pops, drain, Drains, drain-Drains}
use ece506scheduler.Registry.{find_app, register_app}
use ece506scheduler.Dash.CompletionBus.{new_bus}
use ece506scheduler.Scheduler.Impl.{Impl, fpga, new_impl, select_accelerator}
use ece506scheduler.Scheduler.Threads.{dep_pass}
use ece506scheduler.Scheduler.Passes.{task_id, AllUnmet, AllSatisfied, dep_pass-releases}
use ece506scheduler.Scheduler.Select.{Selects, Prefers, select_accelerator-Prefers}
use ece506scheduler.Scheduler.Counts.{demand}
use ece506scheduler.Scheduler.Traffic.{
  Traffic, quiet, Moves, here, next, pushes, KeepsUp, Moves-KeepsUp, count-drifts,
}
use ece506scheduler.Examples.Toy.{Board, boards, boards-IsLawful}

abbrev first : Task
first = record (new_task (pos 0)) { id = 1; app = text "fft"; required = fft }

abbrev urgent : Task
urgent = record (new_task (pos 0)) {
  id = 2;
  app = text "fft";
  priority = pos 5;
  depends_on = 1 ∷ [];
}

abbrev fft_app : AppDescriptor
fft_app = record { app = text "fft"; bitstream_path = []; kernel_name = []; kind = fft }

abbrev queue : ReadyQueue
queue = record { pq = first ∷ urgent ∷ []; stop = false }

pop_blocking-Pops_example : Pops queue (pop_blocking queue)
pop_blocking-Pops_example = pop_blocking-Pops queue

drain-Drains_example : Drains queue (drain 2 queue)
drain-Drains_example = drain-Drains 2 queue refl (omega arith)

drain_test : drain 2 queue ≡ urgent ∷ first ∷ []
unfolding drain pop_blocking take_top task_compare
drain_test = refl

-- A processor, a slot with another app and one with the task's.
abbrev state : Impl Board (Unit {0})
state = record (new_impl (record { apps = [] }) fpga 1 0 4 new_bus tt) {
  use_cpu = false;
  running = true;
  waiting = urgent ∷ [];
  accelerators = none ∷ some (text "zip") ∷ some (text "fft") ∷ [];
}

select_accelerator-Prefers_example :
    Selects boards first state (select_accelerator boards first fft_app state)
    × Prefers boards first state (select_accelerator boards first fft_app state)
select_accelerator-Prefers_example =
    select_accelerator-Prefers boards boards-IsLawful first fft_app state refl

state-running : state.running ≡ true
unfolding new_impl
state-running = refl

dep_pass-releases_example :
    AllUnmet state.completed (dep_pass boards state).waiting
    × (AllSatisfied state.completed state.ready.pq
        → AllSatisfied state.completed (dep_pass boards state).ready.pq)
    × ((dep_pass boards state).completed ≡ state.completed)
    × ((k : ℕ)
        → count task_id k (dep_pass boards state).waiting
            + count task_id k (dep_pass boards state).ready.pq
          ≡ count task_id k state.waiting + count task_id k state.ready.pq)
dep_pass-releases_example = dep_pass-releases boards state state-running

abbrev pushed_once : Traffic
pushed_once = record { queued = 1; raising = 1; lowering = 0; counts = []; pushed = 1; popped = 0 }

one-Moves : Moves 3 (text "fft") quiet pushed_once
one-Moves = next here (pushes refl)

Moves-KeepsUp_example : KeepsUp 3 (text "fft") pushed_once
Moves-KeepsUp_example = Moves-KeepsUp 3 (text "fft") one-Moves

count-drifts_example :
    (m : List (Text × ℤ)) × Moves 3
      (text "fft")
      quiet
      (record { queued = 0; raising = 0; lowering = 0; counts = m; pushed = 4; popped = 4 })
    × (demand (text "fft") m ≡ pos 4)
count-drifts_example = count-drifts 3 (text "fft") 4

find_app_test : find_app (text "fft") (register_app fft_app (record { apps = [] })) ≡ some fft_app
unfolding find_app register_app text text_eq
find_app_test = refl
