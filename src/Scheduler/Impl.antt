-- ===== src/Scheduler/Impl.antt =====
-- Scheduler::Impl of src/scheduler.cpp: its state, and each method as a function on the state. An
-- Accelerator* is the position of the object in `accelerators`, from which nothing is removed.
use ece506scheduler.Base.{
  ℕ, suc, ℤ, pos, ◌+ℤ◌, max_ℤ, ltb_ℤ, eqb_ℤ, to_int32, ◌==◌, ltb, Bool, true, false, not, ◌&&◌,
  ◌||◌, List, [], ◌∷◌, ◌++◌, Option, none, some, Text, text_eq, text_key, lookup, assign, erase,
  get_elem?, set, is_empty, if◌then◌else◌,
}
use ece506scheduler.Task.{Task, cpu, kind_rank, ExecutionResult, AppDescriptor}
use ece506scheduler.ReadyQueue.{ReadyQueue, push, new_queue}
use ece506scheduler.Registry.{Registry, find_app}
use ece506scheduler.Dash.CompletionBus.{Bus}
use ece506scheduler.Scheduler.Deps.{deps_satisfied}
use ece506scheduler.Scheduler.Accelerators.{Accelerators}

pub data BackendMode : Type 0 where
  auto fpga cpu_only : BackendMode

-- The members of Impl, with the map of promises that `report` reaches, the world of the
-- accelerators, the number of threads in workers_, whether dep_thread_ runs, and the reported lines.
pub record Impl (A W : Type 0) : Type 0 where
  pub reg : Registry
  pub mode : BackendMode
  pub use_cpu : Bool
  pub cpu_workers : ℕ
  pub overlay_preload_threshold : ℕ
  pub ready_app_counts : List (Text × ℤ)
  pub running : Bool
  pub ready : ReadyQueue
  pub completed : List ℕ
  pub accelerators : List A
  pub waiting : List Task
  pub workers : ℕ
  pub dep_thread : Bool
  pub bus : Bus
  pub world : W
  pub reported : List ExecutionResult

-- Impl::Impl. `hardware` is std::thread::hardware_concurrency().
unfoldable pub new_impl : {A W : Type 0} → Registry → BackendMode → ℕ → ℕ → ℕ → Bus → W → Impl A W
new_impl reg mode cpu_workers threshold hardware bus world = record {
  reg = reg;
  mode = mode;
  use_cpu = true;
  cpu_workers = if cpu_workers == 0 then hardware else cpu_workers;
  overlay_preload_threshold = threshold;
  ready_app_counts = [];
  running = false;
  ready = new_queue;
  completed = [];
  accelerators = [];
  waiting = [];
  workers = 0;
  dep_thread = false;
  bus = bus;
  world = world;
  reported = [];
}

-- `it != end() ? it->second : 0`
abbrev pub or_zero : Option ℤ → ℤ
or_zero none = pos 0
or_zero (some n) = n

-- What record_ready does with the new count: the map, and whether the app is in high demand.
unfoldable pub store_count : ℕ → Text → ℤ → ℤ → List (Text × ℤ) → List (Text × ℤ) × Bool
store_count threshold app delta count counts =
    if eqb_ℤ count (pos 0) then (erase app counts, false) else (
      assign app count counts,
      ltb_ℤ (pos 0) delta && ltb 0 threshold && not (ltb_ℤ count (to_int32 threshold)),
    )

-- The part of record_ready under its mutex.
unfoldable pub update_count : ℕ → Text → ℤ → List (Text × ℤ) → List (Text × ℤ) × Bool
update_count threshold app delta counts =
    store_count threshold app delta (max_ℤ (pos 0) (or_zero (lookup app counts) +ℤ delta)) counts

-- v.front(), if there is one.
abbrev pub front : List ℕ → Option ℕ
front [] = none
front (i ∷ is) = some i

-- The two returns behind the loop of select_accelerator.
abbrev pub fallback : Bool → List ℕ → List ℕ → Option ℕ
fallback use_cpu cpus slots =
    if not (is_empty cpus)
    then front cpus
    else if not use_cpu && not (is_empty slots)
    then front slots
    else none

module _ {A W : Type 0} (ops : Accelerators A W) where
  open ops use {is_available, is_reconfigurable, slot_app, ensure_app_loaded, prepare_static, run}

  unfoldable pub add_accelerator : A → Impl A W → Impl A W
  add_accelerator acc s = record s { accelerators = s.accelerators ++ acc ∷ [] }

  -- The first loop of select_accelerator, from position `i`: the positions of the available
  -- accelerators that are not reconfigurable, and of those that are.
  unfoldable pub candidates : ℕ → W → List A → List ℕ × List ℕ
  candidates i w [] = ([], [])
  candidates i w (a ∷ rest) =
      let (cpus, slots) = candidates (suc i) w rest in
      if not (is_available a w)
      then (cpus, slots)
      else if is_reconfigurable a
      then (cpus, i ∷ slots)
      else (i ∷ cpus, slots)

  -- slot->ensure_app_loaded(app) on the object at position `i`.
  unfoldable pub load_at : AppDescriptor → ℕ → A → List A → W → Bool × List A × W
  load_at app i a accs w = let (ok, a', w') = ensure_app_loaded app a w in (ok, set accs i a', w')

  -- The body of the loop over `reconfigurable`: whether it returns this accelerator.
  unfoldable pub try_slot : Text → AppDescriptor → ℕ → List A → W → Bool × List A × W
  try_slot name app i accs w = elim (get_elem? accs i) [
    | none ↦ (false, accs, w)
    | some a ↦ elim (slot_app a) [
      | none ↦ (false, accs, w)
      | some current ↦ if text_eq current name then (true, accs, w) else load_at app i a accs w
    ]
  ]

  unfoldable pub try_slots : Text → AppDescriptor → List ℕ → List A → W → Option ℕ × List A × W
  try_slots name app [] accs w = (none, accs, w)
  try_slots name app (i ∷ is) accs w =
      let (found, accs', w') = try_slot name app i accs w in
      elim found [ true ↦ (some i, accs', w') | false ↦ try_slots name app is accs' w' ]

  unfoldable pub select_accelerator : Task → AppDescriptor → Impl A W → Option ℕ × Impl A W
  select_accelerator task app s =
      let (cpus, slots) = candidates 0 s.world s.accelerators in
      let (found, accs, w) =
        if not s.use_cpu && not (kind_rank task.required == kind_rank cpu)
        then try_slots task.app app slots s.accelerators s.world
        else (none, s.accelerators, s.world) in
      (
        elim found [ some i ↦ some i | none ↦ fallback s.use_cpu cpus slots ],
        record s { accelerators = accs; world = w },
      )

  -- The first loop of maybe_preload: `none` where it returns because a slot has the app.
  unfoldable pub preload_slots : Text → ℕ → W → List A → Option (List ℕ)
  preload_slots app i w [] = some []
  preload_slots app i w (a ∷ rest) =
      let others = preload_slots app (suc i) w rest in
      if not (is_available a w) then others else elim (slot_app a) [
        | none ↦ others
        | some current ↦
            if text_eq current app
            then none
            else elim others [ none ↦ none | some is ↦ some (i ∷ is) ]
      ]

  -- Its second loop: it ends at the first slot that takes the app.
  unfoldable pub load_first : AppDescriptor → List ℕ → List A → W → List A × W
  load_first desc [] accs w = (accs, w)
  load_first desc (i ∷ is) accs w =
      let (ok, accs', w') : Bool × List A × W = elim (get_elem? accs i) [
        | none ↦ (false, accs, w)
        | some a ↦ load_at desc i a accs w
      ] in
      elim ok [ true ↦ (accs', w') | false ↦ load_first desc is accs' w' ]

  unfoldable pub maybe_preload : Text → Impl A W → Impl A W
  maybe_preload app s =
      if s.use_cpu || s.overlay_preload_threshold == 0 then s else elim (find_app app s.reg) [
        | none ↦ s
        | some desc ↦ elim (preload_slots app 0 s.world s.accelerators) [
          | none ↦ s
          | some slots ↦
              let (accs, w) = load_first desc slots s.accelerators s.world in
              record s { accelerators = accs; world = w }
        ]
      ]

  unfoldable pub record_ready : Task → ℤ → Impl A W → Impl A W
  record_ready task delta s =
      if eqb_ℤ delta (pos 0)
      then s
      else let (counts, high_demand) =
          update_count s.overlay_preload_threshold task.app delta s.ready_app_counts in
        let s' = record s { ready_app_counts = counts } in
        if high_demand && not (is_empty task.app) then maybe_preload task.app s' else s'

  -- `ready.store(true)`, the push and its count: what submit and dep_loop do with a ready task.
  unfoldable pub make_ready : Task → Impl A W → Impl A W
  make_ready t s =
      let t' = record t { ready = true } in
      record_ready t' (pos 1) (record s { ready = push t' s.ready })

  unfoldable pub submit : Task → Impl A W → Impl A W
  submit t s =
      if deps_satisfied t s.completed
      then make_ready t s
      else record s { waiting = s.waiting ++ t ∷ [] }
