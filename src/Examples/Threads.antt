-- ===== src/Examples/Threads.antt =====
-- The threads of src/scheduler.cpp on two tasks, the second of which depends on the first.
use ece506scheduler.Base.{
  false, map, length, ◌≤◌, arith, ◌≡◌, refl, true, [], ◌∷◌, none, some, text, pos, ◌+ℤ◌, text_eq,
  lookup, assign, erase, text_key,
}
use ece506scheduler.Task.{Task, AppDescriptor, fft, new_task}
use ece506scheduler.ReadyQueue.{take_top, push, pop_blocking, stop_queue}
use ece506scheduler.Registry.{IsKeyed, register_app-IsKeyed, find_app, register_app}
use ece506scheduler.Dash.CompletionBus.{new_bus, fulfill}
use ece506scheduler.Scheduler.Deps.{mark_complete, count_id, all_counted, deps_satisfied}
use ece506scheduler.Scheduler.Impl.{
  Impl, auto, new_impl, store_count, update_count, add_accelerator, candidates, try_slot, try_slots,
  select_accelerator, maybe_preload, record_ready, make_ready, submit,
}
use ece506scheduler.Scheduler.Threads.{
  has_fpga, prepare_all, start, stop, dep_visit, dep_pass, report, report_and_mark, run_on,
  worker_body, worker_pop,
}
use ece506scheduler.Scheduler.Passes.{task_id, result_id}
use ece506scheduler.Scheduler.Steps.{
  System, submits, passes, takes, works, registers, adds, starts, Reach, here, next,
}
use ece506scheduler.Scheduler.Safety.{IsFresh, IsFresh-IsSafe, Reach-IsSafe}
use ece506scheduler.ReadyQueue.Pop.{drain}
use ece506scheduler.Scheduler.Loop.{onto, worker_loop, worker_loop_lem}
use ece506scheduler.Scheduler.Stopping.{stop-final}
use ece506scheduler.Examples.Toy.{Board, boards, boards-IsLawful}

abbrev first : Task
first = record (new_task (pos 0)) { id = 1; app = text "fft" }

abbrev second : Task
second = record (new_task (pos 0)) { id = 2; app = text "fft"; depends_on = 1 ∷ [] }

abbrev fft_app : AppDescriptor
fft_app = record { app = text "fft"; bitstream_path = []; kernel_name = []; kind = fft }

abbrev fresh : System Board (Unit {0})
fresh = record {
  impl = new_impl (record { apps = [] }) auto 1 0 4 new_bus tt;
  busy = [];
  submitted = [];
}

abbrev ready : System Board (Unit {0})
ready =
    let s =
      add_accelerator boards none
        (record fresh.impl { reg = register_app fft_app fresh.impl.reg }) in
    record fresh { impl = start boards s }

abbrev queued : System Board (Unit {0})
queued = record ready {
  impl = submit boards second (submit boards first ready.impl);
  submitted = second ∷ first ∷ [];
}

abbrev emptied : Impl Board (Unit {0}) → Impl Board (Unit {0})
emptied s = record s { ready = record s.ready { pq = [] } }

abbrev taken : System Board (Unit {0})
taken = record queued { impl = emptied queued.impl; busy = record first { ready = true } ∷ [] }

abbrev released : System Board (Unit {0})
released = record taken {
  impl = dep_pass boards (worker_body boards (record first { ready = true }) taken.impl);
  busy = [];
}

abbrev taken_second : System Board (Unit {0})
taken_second = record released {
  impl = emptied released.impl;
  busy = record second { ready = true } ∷ [];
}

program : Unit {0}
unfolding ◌+ℤ◌ text_eq lookup assign erase take_top push pop_blocking stop_queue find_app
    register_app fulfill mark_complete count_id all_counted deps_satisfied new_impl store_count
    update_count add_accelerator candidates try_slot try_slots select_accelerator maybe_preload
    record_ready make_ready submit has_fpga prepare_all start stop dep_visit dep_pass report
    report_and_mark run_on worker_body worker_pop text
program = tt

fresh-IsFresh : IsFresh boards fresh
unfolding program
fresh-IsFresh = (λ name d e. cc, refl, refl, refl, refl, refl, refl)

queued-Reach : Reach boards fresh queued
queued-Reach =
    next
      (next (next (next (next here (registers fft_app refl)) (adds none refl)) (starts refl))
        (submits first refl))
      (submits second refl)

taken-Reach : Reach boards fresh taken
unfolding program
taken-Reach = next queued-Reach (takes (record first { ready = true }) taken.impl refl refl)

released-Reach : Reach boards fresh released
released-Reach =
    next (next taken-Reach (works [] (record first { ready = true }) [] refl refl)) (passes refl)

taken_second-Reach : Reach boards fresh taken_second
unfolding program
taken_second-Reach =
    next released-Reach (takes (record second { ready = true }) taken_second.impl refl refl)

restarted-Reach :
    Reach boards
      (record queued { impl = stop boards queued.impl })
      (record queued { impl = start boards (stop boards queued.impl) })
restarted-Reach = next here (starts refl)

queued-running : queued.impl.running ≡ true
unfolding program
queued-running = refl

stop-final_example : worker_pop boards (start boards (stop boards queued.impl)) ≡ none
stop-final_example =
    stop-final boards boards-IsLawful queued
      (record queued { impl = start boards (stop boards queued.impl) })
      (Reach-IsSafe boards boards-IsLawful queued-Reach (IsFresh-IsSafe boards fresh fresh-IsFresh))
      queued-running restarted-Reach

-- Before it was stopped, the first task could be taken.
unstopped_test : worker_pop boards queued.impl ≡ some (record first { ready = true }, taken.impl)
unfolding program
unstopped_test = refl

queued-IsKeyed : IsKeyed queued.impl.reg
unfolding program
queued-IsKeyed = register_app-IsKeyed fft_app (record { apps = [] }) (λ name d e. absurd (cc))

queued-live : queued.impl.ready.stop ≡ false
unfolding program
queued-live = refl

queued-fits : length queued.impl.ready.pq ≤ 2
unfolding program
queued-fits = omega arith

worker_loop_lem_example :
    let s' = worker_loop boards 2 queued.impl in
    (s'.ready.pq ≡ [])
    × (s'.waiting ≡ queued.impl.waiting)
    × (map result_id s'.reported
        ≡ onto (map task_id (drain 2 queued.impl.ready)) (map result_id queued.impl.reported))
worker_loop_lem_example =
    worker_loop_lem boards boards-IsLawful 2 queued.impl queued-IsKeyed queued-running queued-live
      queued-fits
