-- ===== src/Examples/Operations.antt =====
-- src/dash and apps/sched_runner.cpp at concrete inputs.
use ece506scheduler.Base.{
  ◌≡◌, ◌≢◌, refl, true, [], ◌∷◌, some, none, text, to_string, lookup, pos, arith,
}
use ece506scheduler.Task.{Task, AppDescriptor, fft, new_task}
use ece506scheduler.Dash.CompletionBus.{new_bus, subscribe}
use ece506scheduler.Dash.Execute.{next_id, fft_start, zip_start, fft_operation, make_task}
use ece506scheduler.Dash.Ids.{id_of_call, fft_ids_collide, context_from_task-make_task}
use ece506scheduler.Device.Context.{context_from_task, address, fft_key}
use ece506scheduler.Device.World.{World}
use ece506scheduler.Registry.{IsKeyed, find_app}
use ece506scheduler.Apps.Setup.{app_initialize}
use ece506scheduler.Apps.Served.{app_initialize-serves}
use ece506scheduler.Apps.Radar.{radar_start, schedule_fft_task}
use ece506scheduler.Device.Fleet.{Workload, Device, cpu_mock, fleet}
use ece506scheduler.Scheduler.Impl.{Impl, fpga, new_impl, select_accelerator}
use ece506scheduler.Runner.Numbers.{parse_unsigned, parse_unsigned-to_string}

fft_ids_collide_example : id_of_call fft_start 1003 ≡ id_of_call zip_start 3
fft_ids_collide_example = fft_ids_collide 3 (omega arith)

context_from_task-make_task_example :
    context_from_task fft_key (make_task fft_operation 1000 fft 305_419_896 (pos 0))
    ≡ address 305_419_896
context_from_task-make_task_example =
    context_from_task-make_task fft_operation 1000 305_419_896 fft (pos 0) (omega arith)

parse_unsigned-to_string_example : parse_unsigned (to_string 4096) 3 ≡ 4096
parse_unsigned-to_string_example = parse_unsigned-to_string 4096 3 (omega arith) (omega arith)

-- A workload whose operations succeed, for tasks that have no context.
abbrev work : Workload
work = record {
  zip_context = λ t. none;
  fft_context = λ t. none;
  run_zip = λ ctx w. (true, w);
  run_fft = λ ctx w. (true, w);
  attempt_fft = λ ctx w. (none, w);
  message = λ ctx w. [];
}

abbrev world : World
world = record {
  answers = λ n. true;
  calls = 0;
  trace = [];
  readable = λ path. true;
  clock = λ n. pos n;
}

abbrev task : Task
task = record (new_task (pos 0)) { id = 1; app = text "fft"; required = fft }

abbrev fft_app : AppDescriptor
fft_app = record { app = text "fft"; bitstream_path = []; kernel_name = []; kind = fft }

abbrev state : Impl Device World
state = record (new_impl (record { apps = [] }) fpga 1 0 4 new_bus world) {
  accelerators = cpu_mock 0 ∷ [];
}

state-IsKeyed : IsKeyed state.reg
unfolding new_impl find_app lookup
state-IsKeyed name d h = absurd (cc)

app_initialize-serves_example :
    let s' = (app_initialize work state []).0 in
    (app : AppDescriptor) × (find_app (text "fft") s'.reg ≡ some app)
    × ((select_accelerator (fleet work) task app s').0 ≢ none)
app_initialize-serves_example = app_initialize-serves work state [] task state-IsKeyed refl

-- The correlator's counter after its first task.
radar_id_test : (schedule_fft_task (fleet work) 64 (pos 0) radar_start state).1 ≡ 5001
unfolding schedule_fft_task next_id new_impl subscribe lookup
radar_id_test = refl
