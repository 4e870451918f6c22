-- ===== src/Dash/Execute.antt =====
-- src/dash/fft.cpp and src/dash/zip.cpp: an operation looks up its providers, makes a task with a
-- new id, subscribes to it and submits it.
use ece506scheduler.Base.{
  ℕ, ◌+◌, ◌%◌, ◌^◌, ℤ, pos, Bool, false, List, [], ◌∷◌, Option, none, some, Text, text, text_key,
  to_string, emplace,
}
use ece506scheduler.Task.{Task, ResourceKind, new_task}
use ece506scheduler.Dash.CompletionBus.{Bus, subscribe}
use ece506scheduler.Dash.Provider.{Provider, providers_for}
use ece506scheduler.Device.Context.{zip_key, fft_key}
use ece506scheduler.Scheduler.Accelerators.{Accelerators}
use ece506scheduler.Scheduler.Impl.{Impl, submit}

-- next_id of either file: the id, and the counter after it. fetch_add wraps.
unfoldable pub next_id : ℕ → ℕ × ℕ
next_id c = (c, (c + 1) % 2 ^ 64)

abbrev pub fft_start : ℕ
fft_start = 1000

abbrev pub zip_start : ℕ
zip_start = 2000

-- What differs between the two files.
pub record Operation : Type 0 where
  pub op : Text
  pub key : Text
  pub est_runtime_ns : ℤ

abbrev pub fft_operation : Operation
fft_operation = record { op = text "fft"; key = fft_key; est_runtime_ns = pos 15_000_000 }

abbrev pub zip_operation : Operation
zip_operation = record { op = text "zip"; key = zip_key; est_runtime_ns = pos 12_000_000 }

-- The task, for the context at the address `ctx`.
unfoldable pub make_task : Operation → ℕ → ResourceKind → ℕ → ℤ → Task
make_task operation id kind ctx now = record (new_task now) {
  id = id;
  app = operation.op;
  required = kind;
  est_runtime_ns = operation.est_runtime_ns;
  params = emplace operation.key (to_string ctx) [];
}

-- The globals that an operation works with: the scheduler that is bound, if one is, the map of
-- promises, the providers and the operation's counter. There is one map, g_prom; it is the `bus` of the
-- scheduler that is bound, whose threads fulfil its promises, and `unbound_bus` where none is.
pub record Globals (A W : Type 0) : Type 0 where
  pub sched : Option (Impl A W)
  pub unbound_bus : Bus
  pub g_providers : List Provider
  pub counter : ℕ

-- `returns`: the operation is over. `throws`: get_future threw. `awaits f`: it blocks in get() on
-- the future `f`.
pub data Outcome : Type 0 where
  returns : Bool → Outcome
  throws : Outcome
  awaits : ℕ → Outcome

module _ {A W : Type 0} (ops : Accelerators A W) where
  unfoldable pub submit_to : Globals A W → Task → Option (Impl A W) → Outcome × Globals A W
  submit_to g t none =
      let (fut, bus) = subscribe t.id g.unbound_bus in
      elim fut [
        | none ↦ (throws, record g { unbound_bus = bus })
        | some f ↦ (returns false, record g { unbound_bus = bus })
      ]
  submit_to g t (some s) =
      let (fut, bus) = subscribe t.id s.bus in
      elim fut [
        | none ↦ (throws, record g { sched = some (record s { bus = bus }) })
        | some f ↦ (awaits f, record g { sched = some (submit ops t (record s { bus = bus })) })
      ]

  -- fft_execute and zip_execute up to fut.get(), for a context at the address `ctx`.
  unfoldable pub execute : Operation → ℕ → ℤ → Globals A W → Outcome × Globals A W
  execute operation ctx now g = elim (providers_for operation.op g.g_providers) [
    | [] ↦ (returns false, g)
    | p ∷ ps ↦
        let (id, counter) = next_id g.counter in
        submit_to (record g { counter = counter }) (make_task operation id p.kind ctx now) g.sched
  ]
