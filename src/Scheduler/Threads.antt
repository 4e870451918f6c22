-- ===== src/Scheduler/Threads.antt =====
-- The threads of Scheduler::Impl in src/scheduler.cpp: start and stop, the passes of dep_loop, and
-- the rounds of worker_loop. Reporting is the list of results; its text is not modelled.
use ece506scheduler.Base.{
  ℕ, pos, negsuc, ◌+◌, Bool, true, false, not, ◌&&◌, ◌||◌, List, [], ◌∷◌, ◌++◌, Option, none, some,
  Text, text, has_part, get_elem?, set, if◌then◌else◌,
}
use ece506scheduler.Task.{Task, ExecutionResult, AppDescriptor}
use ece506scheduler.ReadyQueue.{blocked, stopped, popped, pop_blocking, stop_queue}
use ece506scheduler.Registry.{find_app}
use ece506scheduler.Dash.CompletionBus.{fulfill}
use ece506scheduler.Scheduler.Deps.{mark_complete, deps_satisfied}
use ece506scheduler.Scheduler.Accelerators.{Accelerators}
use ece506scheduler.Scheduler.Impl.{
  BackendMode, auto, cpu_only, Impl, record_ready, make_ready, select_accelerator,
}

abbrev is_cpu_mode : BackendMode → Bool
is_cpu_mode cpu_only = true
is_cpu_mode _ = false

abbrev is_auto : BackendMode → Bool
is_auto auto = true
is_auto _ = false

-- The result that worker_loop reports where no accelerator runs the task.
abbrev pub failure : Task → Text → ExecutionResult
failure t message = record {
  id = t.id;
  ok = false;
  message = message;
  runtime_ns = pos 0;
  accelerator = text "none";
}

module _ {A W : Type 0} (ops : Accelerators A W) where
  open ops use {name, is_available, prepare_static, run}

  -- The first loop of start.
  unfoldable pub has_fpga : W → List A → Bool
  unfolding has_part text
  has_fpga w [] = false
  has_fpga w (a ∷ rest) = (has_part (text "fpga") (name a) && is_available a w) || has_fpga w rest

  -- The second: a failure is printed, and the loop goes on.
  unfoldable pub prepare_all : List A → W → List A × W
  prepare_all [] w = ([], w)
  prepare_all (a ∷ rest) w =
      let (ok, a', w') = prepare_static a w in
      let (rest', w'') = prepare_all rest w' in (a' ∷ rest', w'')

  unfoldable pub start : Impl A W → Impl A W
  start s =
      if s.running
      then s
      else let fpga_ok = has_fpga s.world s.accelerators in
        let (accs, w) = prepare_all s.accelerators s.world in
        record s {
          running = true;
          accelerators = accs;
          world = w;
          use_cpu = is_cpu_mode s.mode || (is_auto s.mode && not fpga_ok);
          workers = s.workers + s.cpu_workers;
          dep_thread = true;
        }

  -- join waits for the threads, whose loops end as `running` is false: see `worker_pop`.
  unfoldable pub stop : Impl A W → Impl A W
  stop s =
      if not s.running
      then s
      else record s { running = false; ready = stop_queue s.ready; dep_thread = false; workers = 0 }

  -- The inner loop of dep_loop over the tasks that it has still to visit; `kept` are those that it
  -- has visited and left, in their order.
  unfoldable pub dep_visit : List Task → List Task → Impl A W → Impl A W
  dep_visit kept [] s = record s { waiting = kept }
  dep_visit kept (t ∷ ts) s = elim (deps_satisfied t s.completed) [
    | true ↦ dep_visit kept ts (make_ready ops t s)
    | false ↦ dep_visit (kept ++ t ∷ []) ts s
  ]

  -- One round of dep_loop, under mu_wait_.
  unfoldable pub dep_pass : Impl A W → Impl A W
  dep_pass s = if s.running then dep_visit [] s.waiting s else s

  unfoldable pub report : ExecutionResult → Impl A W → Impl A W
  report r s = record s { reported = r ∷ s.reported; bus = fulfill r.id r.ok s.bus }

  -- report(r), and mark_complete for a success.
  unfoldable pub report_and_mark : Task → ExecutionResult → Impl A W → Impl A W
  report_and_mark task r s =
      let s' = report r s in
      if r.ok then record s' { completed = mark_complete task.id s'.completed } else s'

  -- chosen->run on the accelerator at position `i`, and what follows it.
  unfoldable pub run_on : ℕ → Task → AppDescriptor → Impl A W → Impl A W
  run_on i task app s = elim (get_elem? s.accelerators i) [
    | none ↦ s
    | some a ↦
        let (r, a', w') = run task app a s.world in
        report_and_mark task r (record s { accelerators = set s.accelerators i a'; world = w' })
  ]

  -- What worker_loop does with a task that it has taken from the queue.
  unfoldable pub worker_body : Task → Impl A W → Impl A W
  worker_body task s =
      let counted = record_ready ops task (negsuc 0) s in
      elim (find_app task.app counted.reg) [
        | none ↦ report (failure task (text "Unknown app: " ++ task.app)) counted
        | some app ↦
            let (chosen, s') = select_accelerator ops task app counted in
            elim chosen [
              | none ↦ report (failure task (text "No accelerator available")) s'
              | some i ↦ run_on i task app s'
            ]
      ]

  -- The head of worker_loop: the task that a round takes from the queue, if it takes one.
  unfoldable pub worker_pop : Impl A W → Option (Task × Impl A W)
  worker_pop s = if not s.running then none else elim (pop_blocking s.ready) [
    | blocked ↦ none
    | stopped ↦ none
    | popped t q ↦ some (t, record s { ready = q })
  ]
