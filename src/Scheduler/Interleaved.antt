-- ===== src/Scheduler/Interleaved.antt =====
-- The threads of src/scheduler.cpp in small steps, between any two of which the other threads may run:
-- a test of a task's dependencies, a push, an entry into or a removal from the waiting list, a look-up
-- of an app, a run, a report and a mark are one step each. Coarser than the source are these steps,
-- which take several locks or reads there: record_ready with the preload that it starts,
-- select_accelerator with the loads that it tries, start, stop, and a worker's test of running_ with
-- its pop.
pub mod Weights
pub mod Relied
pub mod Advance
pub mod Watch
pub mod Sound
pub mod Invariant
pub mod Ends
pub mod Delivery
pub mod Refinement
use ece506scheduler.Base.{
  ℕ, pos, negsuc, Bool, true, false, List, [], ◌∷◌, ◌++◌, Option, none, some, ◌≡◌, Text, text,
  get_elem?, set, if◌then◌else◌,
}
use ece506scheduler.Task.{Task, ExecutionResult, AppDescriptor}
use ece506scheduler.ReadyQueue.{push}
use ece506scheduler.Registry.{find_app, register_app}
use ece506scheduler.Dash.CompletionBus.{subscribe}
use ece506scheduler.Scheduler.Deps.{mark_complete, deps_satisfied}
use ece506scheduler.Scheduler.Accelerators.{Accelerators}
use ece506scheduler.Scheduler.Impl.{Impl, record_ready, select_accelerator, add_accelerator}
use ece506scheduler.Scheduler.Threads.{failure, report, start, stop, worker_pop}

-- What a thread will do next: in submit before it reads the dependencies, before the push, before
-- it waits for mu_wait_, and after the push; in worker_loop before record_ready, the lookup,
-- select_accelerator, the run, the report and mark_complete.
pub data Phase : Type 0 where
  entering pushing holding raising lowering looking : Task → Phase
  choosing : Task → AppDescriptor → Phase
  running : ℕ → Task → AppDescriptor → Phase
  reporting : Task → ExecutionResult → Phase
  marking : Task → Phase

-- The dependency watcher: without mu_wait_, or with it and the tasks that it has left in
-- waiting_ so far and those that it has still to visit.
pub data Watcher : Type 0 where
  asleep : Watcher
  visiting : (kept todo : List Task) → Watcher
  releasing : (kept : List Task) → Task → (todo : List Task) → Watcher
  counting : (kept : List Task) → Task → (todo : List Task) → Watcher

-- `submitted` is the history of submit's arguments.
pub record Process (A W : Type 0) : Type 0 where
  pub impl : Impl A W
  pub watcher : Watcher
  pub phases : List Phase
  pub submitted : List Task

abbrev as_ready : Task → Task
as_ready t = record t { ready = true }

module _ {A W : Type 0} (ops : Accelerators A W) where
  -- The next step of a thread: what it does after it, if it does not end or start over, and the
  -- state.
  unfoldable pub advance : Phase → Impl A W → Option Phase × Impl A W
  advance (entering t) s = (some (if deps_satisfied t s.completed then pushing t else holding t), s)
  advance (pushing t) s =
      (some (raising (as_ready t)), record s { ready = push (as_ready t) s.ready })
  advance (holding t) s = (none, record s { waiting = s.waiting ++ t ∷ [] })
  advance (raising t) s = (none, record_ready ops t (pos 1) s)
  advance (lowering t) s = (some (looking t), record_ready ops t (negsuc 0) s)
  advance (looking t) s = (
    some (elim (find_app t.app s.reg) [
      | none ↦ reporting t (failure t (text "Unknown app: " ++ t.app))
      | some app ↦ choosing t app
    ]),
    s,
  )
  advance (choosing t app) s =
      let (chosen, s') = select_accelerator ops t app s in
      (
        some (elim chosen [
          | none ↦ reporting t (failure t (text "No accelerator available"))
          | some i ↦ running i t app
        ]),
        s',
      )
  advance (running i t app) s = elim (get_elem? s.accelerators i) [
    | none ↦ (some (running i t app), s)
    | some a ↦
        let (r, a', w') = ops.run t app a s.world in
        (some (reporting t r), record s { accelerators = set s.accelerators i a'; world = w' })
  ]
  advance (reporting t r) s = ((if r.ok then some (marking t) else none), report ops r s)
  advance (marking t) s = (none, record s { completed = mark_complete t.id s.completed })

  -- The next step of dep_loop. While it holds mu_wait_, what is left of waiting_ stands in the
  -- watcher.
  unfoldable pub watch : Watcher → Impl A W → Watcher × Impl A W
  watch asleep s =
      if s.running then (visiting [] s.waiting, record s { waiting = [] }) else (asleep, s)
  watch (visiting kept []) s = (asleep, record s { waiting = kept })
  watch (visiting kept (t ∷ todo)) s = (
    (if deps_satisfied t s.completed
        then releasing kept t todo
        else visiting (kept ++ t ∷ []) todo),
    s,
  )
  watch (releasing kept t todo) s =
      (counting kept (as_ready t) todo, record s { ready = push (as_ready t) s.ready })
  watch (counting kept t todo) s = (visiting kept todo, record_ready ops t (pos 1) s)

  -- A thread that waits for mu_wait_ goes on only when the watcher does not hold it.
  abbrev pub MayAdvance : Phase → Watcher → Type 0
  MayAdvance (holding t) w = w ≡ asleep
  MayAdvance _ w = Unit

  abbrev pub listed : Option Phase → List Phase
  listed none = []
  listed (some p) = p ∷ []

  pub data Step (c d : Process A W) : Type 0 where
    submits :
        (t : Task)
        → d ≡ record c { phases = entering t ∷ c.phases; submitted = t ∷ c.submitted }
        → Step c d
    advances :
        (before : List Phase) (p : Phase) (after : List Phase)
        → c.phases ≡ before ++ p ∷ after
        → MayAdvance p c.watcher
        → d ≡ record c {
          impl = (advance p c.impl).1;
          phases = before ++ (listed (advance p c.impl).0 ++ after);
        }
        → Step c d
    watches :
        d ≡ record c { watcher = (watch c.watcher c.impl).0; impl = (watch c.watcher c.impl).1 }
        → Step c d
    takes :
        (t : Task) (s : Impl A W)
        → worker_pop ops c.impl ≡ some (t, s)
        → d ≡ record c { impl = s; phases = lowering t ∷ c.phases }
        → Step c d
    subscribes :
        (id : ℕ)
        → d ≡ record c { impl = record c.impl { bus = (subscribe id c.impl.bus).1 } }
        → Step c d
    registers :
        (app : AppDescriptor)
        → d ≡ record c { impl = record c.impl { reg = register_app app c.impl.reg } }
        → Step c d
    adds : (a : A) → d ≡ record c { impl = add_accelerator ops a c.impl } → Step c d
    starts : d ≡ record c { impl = start ops c.impl } → Step c d
    stops : d ≡ record c { impl = stop ops c.impl } → Step c d

  pub data Reach (c : Process A W) : Process A W → Type 0 where
    here : Reach c c
    next : {d e : Process A W} → Reach c d → Step d e → Reach c e
