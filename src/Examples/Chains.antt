-- ===== src/Examples/Chains.antt =====
-- src/scheduler.cpp on a chain of three tasks, submitted in the reverse of their order, and an
-- operation of src/dash/fft.cpp on the same scheduler.
use mathlib.Core.List.{Memᴰ}
use ece506scheduler.Base.{
  ℕ, ◌<◌, ◌≡◌, refl, true, false, [], ◌∷◌, none, some, text, ltb, count, pos, ◌+ℤ◌, text_eq, lookup,
  assign, erase, inl, inr, arith, if◌then◌else◌, ◌+◌, ◌-◌, ◌*◌, List, Text,
}
use ece506scheduler.Task.{Task, AppDescriptor, fft, cpu, new_task, ExecutionResult}
use ece506scheduler.ReadyQueue.{take_top, push, pop_blocking, stop_queue}
use ece506scheduler.Registry.{IsKeyed, register_app-IsKeyed, find_app, register_app}
use ece506scheduler.Dash.CompletionBus.{new_bus, fulfill, future_get}
use ece506scheduler.Dash.Unshared.{new_bus-IsUnshared}
use ece506scheduler.Dash.Provider.{Provider, providers_for}
use ece506scheduler.Dash.Execute.{Globals, awaits, execute, fft_operation, fft_start}
use ece506scheduler.Dash.Answered.{execute-answered}
use ece506scheduler.Scheduler.Deps.{Completed, mark_complete, count_id, all_counted, deps_satisfied}
use ece506scheduler.Scheduler.Impl.{
  Impl, auto, new_impl, store_count, update_count, add_accelerator, candidates, try_slot, try_slots,
  select_accelerator, maybe_preload, record_ready, make_ready, submit,
}
use ece506scheduler.Scheduler.Threads.{has_fpga, prepare_all, start}
use ece506scheduler.Scheduler.Passes.{result_id}
use ece506scheduler.Scheduler.Loop.{IsLive, worker_loop}
use ece506scheduler.Scheduler.Staffed.{IsSteady}
use ece506scheduler.Scheduler.Accelerators.{Accelerators, IsLawful}
use ece506scheduler.Scheduler.Liveness.Body.{Succeeds}
use ece506scheduler.Scheduler.Liveness.Turns.{outstanding, turns}
use ece506scheduler.Scheduler.Liveness.Served.{turns_complete}
use ece506scheduler.Dash.Pending.{IsPending}
use ece506scheduler.Runner.Options.{value_of}
use ece506scheduler.Runner.Wiring.{path_join}
use ece506scheduler.Apps.Inputs.{Files, discover_input, load_data}
use ece506scheduler.Apps.Correlator.{Arithmetic, returns, app_run}
use ece506scheduler.Apps.Peak.{IsOrder, Correlates}
use ece506scheduler.Apps.Correlated.{app_run-Correlates}
use ece506scheduler.Device.World.{World}
use ece506scheduler.Device.Slot.{FpgaSlotOptions, new_slot}
use ece506scheduler.Device.Load.{load_bitstream, ensure_app_loaded, prepare_static}
use ece506scheduler.Device.Fleet.{
  Workload, Device, make_cpu_mock, make_fpga_slot, device_available, device_load, device_static,
  fleet, fleet-IsLawful,
}
use ece506scheduler.Device.Mocked.{IsMocked, mocked-IsSteady, mocked-Succeeds}

abbrev first : Task
first = record (new_task (pos 0)) { id = 1; app = text "fft" }

abbrev second : Task
second = record (new_task (pos 0)) { id = 2; app = text "fft"; depends_on = 1 ∷ [] }

abbrev third : Task
third = record (new_task (pos 0)) { id = 3; app = text "fft"; depends_on = 2 ∷ 1 ∷ [] }

abbrev fft_app : AppDescriptor
fft_app = record { app = text "fft"; bitstream_path = []; kernel_name = []; kind = fft }

-- The accelerators of the runner, with operations that succeed: a mocked slot and a mock CPU.
abbrev work : Workload
work = record {
  zip_context = λ t. none;
  fft_context = λ t. none;
  run_zip = λ ctx w. (true, w);
  run_fft = λ ctx w. (true, w);
  attempt_fft = λ ctx w. (none, w);
  message = λ ctx w. [];
}

abbrev machines : Accelerators Device World
machines = fleet work

machines-IsLawful : IsLawful machines
machines-IsLawful = fleet-IsLawful work

machines-IsSteady : IsSteady machines IsMocked
machines-IsSteady = mocked-IsSteady work

machines-Succeed : Succeeds machines IsMocked
machines-Succeed = mocked-Succeeds work (λ ctx w. refl) (λ ctx w. refl)

abbrev world : World
world = record {
  answers = λ n. true;
  calls = 0;
  trace = [];
  readable = λ path. true;
  clock = λ n. pos n;
}

abbrev slot_options : FpgaSlotOptions
slot_options = record {
  manager_path = text "fw";
  mock_mode = true;
  static_bitstream = text "static.bit";
  debug_logging = false;
  pr_gpio_number = pos 5;
  pr_gpio_active_low = true;
  pr_gpio_delay_ms = 5;
}

abbrev started : Impl Device World
started =
    let s : Impl Device World = new_impl (record { apps = [] }) auto 1 0 4 new_bus world in
    let s' =
      add_accelerator machines (make_fpga_slot 0 slot_options)
        (record s { reg = register_app fft_app s.reg }) in
    start machines (add_accelerator machines (make_cpu_mock 0) s')

abbrev chain : Impl Device World
chain = submit machines first (submit machines second (submit machines third started))

program : Unit {0}
unfolding ◌+ℤ◌ text_eq lookup assign erase take_top push pop_blocking stop_queue find_app
    register_app fulfill mark_complete count_id all_counted deps_satisfied new_impl store_count
    update_count add_accelerator candidates try_slot try_slots select_accelerator maybe_preload
    record_ready make_ready make_cpu_mock make_fpga_slot new_slot load_bitstream ensure_app_loaded
    prepare_static device_available device_load device_static submit has_fpga prepare_all start text
program = tt

empty-IsKeyed : IsKeyed (record { apps = [] })
unfolding program
empty-IsKeyed name d e = cc

chain-IsLive : IsLive machines chain
unfolding program
chain-IsLive = record {
  keyed = register_app-IsKeyed fft_app (record { apps = [] }) empty-IsKeyed;
  running = refl;
  live = refl;
}

-- The ids of the chain by their order.
abbrev rank : ℕ → ℕ
rank i = if ltb i 4 then i else 0

rank_bound : (i : ℕ) → rank i < 4
rank_bound i = ground arith

turns_complete_example :
    let s' = turns machines 4 3 chain in
    (s'.waiting ≡ [])
    × (s'.ready.pq ≡ [])
    × ((i : ℕ) → 0 < outstanding i chain → Completed s'.completed i)
    × ((i : ℕ) → Completed chain.completed i → Completed s'.completed i)
    × ((i : ℕ)
        → count result_id i s'.reported ≡ count result_id i chain.reported + outstanding i chain)
unfolding program count
turns_complete_example =
    turns_complete machines IsMocked machines-IsSteady machines-IsLawful machines-Succeed rank 4 3
      chain chain-IsLive (inr (inl tt), (refl, (tt, tt))) (refl, (refl, tt)) (refl, tt)
      (
        (inr (omega arith, omega arith), (inr (omega arith, omega arith), tt)),
        ((inr (omega arith, omega arith), tt), tt),
      )
      rank_bound (omega arith)

abbrev processor_provider : Provider
processor_provider = record { op = text "fft"; kind = cpu; instance_id = 0; priority = pos 0 }

abbrev bound : Globals Device World
bound = record {
  sched = some started;
  unbound_bus = new_bus;
  g_providers = processor_provider ∷ [];
  counter = fft_start;
}

started-IsLive : IsLive machines started
unfolding program
started-IsLive = record {
  keyed = register_app-IsKeyed fft_app (record { apps = [] }) empty-IsKeyed;
  running = refl;
  live = refl;
}

execute-answered_example :
    ((execute machines fft_operation 4096 (pos 0) bound).0 ≡ awaits 0)
    × (s1 : Impl Device World) × ((execute machines fft_operation 4096 (pos 0) bound).1.sched
        ≡ some s1)
    × (let s' = worker_loop machines 1 s1 in
        (r : ExecutionResult) × Memᴰ r s'.reported
        × (r.id ≡ 1000)
        × (future_get 0 s'.bus ≡ some r.ok))
unfolding program providers_for
execute-answered_example =
    execute-answered machines machines-IsLawful fft_operation 4096 1 (pos 0) bound started
      processor_provider [] refl refl refl new_bus-IsUnshared started-IsLive (omega arith)

-- Directories and files that are all there, and numbers in place of floats.
abbrev files : Files ℕ
files = record {
  is_directory = λ path. true;
  exe_dir = text "apps";
  current_path = text "home";
  values = λ path. some (4 ∷ 2 ∷ []);
}

abbrev num : Arithmetic ℕ ℕ
num = record {
  zero_double = 0;
  to_float = λ d. d;
  sin_phase = λ d. d;
  cos_phase = λ d. d;
  times = λ a b. a * b;
  plus = λ a b. a + b;
  minus = λ a b. a - b;
  lowest = 0;
  greater = λ a b. ltb b a;
  transformed = λ task inverse xs. xs;
}

abbrev arguments : List Text
arguments = text "radar" ∷ text "--input=here" ∷ []

started-IsPending :
    IsPending machines IsMocked machines-IsSteady machines-IsLawful machines-Succeed [] 5000 started
unfolding program
started-IsPending = record {
  live = started-IsLive;
  staffed = (inr (inl tt), (refl, (tt, tt)));
  known = tt;
  unshared = new_bus-IsUnshared;
  fresh = λ i h. refl;
  well = tt;
  opened = tt;
  room = omega arith;
}

num-IsOrder : IsOrder num.greater num.lowest
num-IsOrder = record {
  asym = λ x y h. ground arith;
  trans = λ x y z h k. ground arith;
  least = λ x. ground arith;
}

app_run-Correlates_example :
    (i : ℕ) × ((app_run machines
        (worker_loop machines 2)
        files
        num
        arguments
        (λ i. 64 * i)
        (pos 0)
        5000
        started).0
      ≡ returns 0 (some i))
    × Correlates num (4 ∷ 2 ∷ []) (4 ∷ 2 ∷ []) i
unfolding program discover_input load_data path_join value_of
app_run-Correlates_example =
    app_run-Correlates machines IsMocked machines-IsSteady machines-IsLawful machines-Succeed files
      num arguments (λ i. 64 * i) 2 5000 (pos 0) started (text "here") (4 ∷ 2 ∷ []) (4 ∷ 2 ∷ [])
      (omega arith) started-IsPending refl (omega arith) refl refl refl num-IsOrder
