-- ===== src/Examples/Interleaving.antt =====
-- The steps of the threads of src/scheduler.cpp on one task, up to its report.
use mathlib.Core.List.{Memᴰ}
use mathlib.Core.List.Perm
use ece506scheduler.Base.{
  ◌+◌, ◌≡◌, refl, true, false, [], ◌∷◌, none, some, text, All, count, pos, ◌+ℤ◌, text_eq, lookup,
  assign, erase, text_key, arith, ◌++◌, List, ℕ, zero, suc, count-cons, count-nil,
}
use ece506scheduler.Task.{Task, AppDescriptor, fft, new_task}
use ece506scheduler.ReadyQueue.{ReadyQueue, take_top, push, pop_blocking}
use ece506scheduler.ReadyQueue.Pop.{drain}
use ece506scheduler.ReadyQueue.Unique.{HasDistinctIds, drain_unique}
use ece506scheduler.Registry.{find_app, register_app}
use ece506scheduler.Dash.CompletionBus.{new_bus, subscribe, fulfill, future_get}
use ece506scheduler.Dash.Unshared.{IsUnshared, new_bus-IsUnshared}
use ece506scheduler.Scheduler.Deps.{mark_complete, count_id, all_counted, deps_satisfied}
use ece506scheduler.Scheduler.Impl.{
  auto, new_impl, store_count, update_count, add_accelerator, candidates, try_slot, try_slots,
  select_accelerator, maybe_preload, record_ready,
}
use ece506scheduler.Scheduler.Threads.{has_fpga, prepare_all, start, report, worker_pop}
use ece506scheduler.Scheduler.Passes.{task_id, result_id}
use ece506scheduler.Scheduler.Safety.{succeeded}
use ece506scheduler.Scheduler.Interleaved.{
  Phase, Watcher, Process, advance, MayAdvance, listed, Reach, here, next, submits, advances, takes,
  registers, adds, starts, asleep,
}
use ece506scheduler.Scheduler.Ledger.{History, Entry}
use ece506scheduler.Scheduler.Interleaved.Refinement.{ledger, Reach-ledger}
use ece506scheduler.Scheduler.Interleaved.Weights.{watched, held}
use ece506scheduler.Scheduler.Interleaved.Sound.{IsNew}
use ece506scheduler.Scheduler.Interleaved.Ends.{running-succeeded, submitted-accounted}
use ece506scheduler.Scheduler.Interleaved.Delivery.{Serves, subscribed-Serves}
use ece506scheduler.Examples.Toy.{Board, boards, boards-IsLawful}

abbrev job : Task
job = record (new_task (pos 0)) { id = 1; app = text "fft" }

abbrev later : Task
later = record (new_task (pos 0)) { id = 2; app = text "fft"; depends_on = 1 ∷ [] }

abbrev fft_app : AppDescriptor
fft_app = record { app = text "fft"; bitstream_path = []; kernel_name = []; kind = fft }

abbrev new : Process Board (Unit {0})
new = record {
  impl = new_impl (record { apps = [] }) auto 1 0 4 new_bus tt;
  watcher = asleep;
  phases = [];
  submitted = [];
}

new-IsNew : IsNew new
unfolding new_impl
new-IsNew = (refl, refl, refl, refl, refl, refl, refl)

-- The application sets up the scheduler.
abbrev set_up : Process Board (Unit {0}) → Process Board (Unit {0})
set_up c = record c {
  impl =
      start boards
        (add_accelerator boards none (record c.impl { reg = register_app fft_app c.impl.reg }));
}

set_up-Reach : (c : Process Board (Unit {0})) → Reach boards c (set_up c)
set_up-Reach c = next (next (next here (registers fft_app refl)) (adds none refl)) (starts refl)

abbrev submitted : Task → Process Board (Unit {0}) → Process Board (Unit {0})
submitted t c = record c { phases = Phase.entering t ∷ c.phases; submitted = t ∷ c.submitted }

-- The newest thread goes on, `n` times.
unfoldable ahead : ℕ → List Phase → Process Board (Unit {0}) → Process Board (Unit {0})
ahead zero ps c = record c { phases = ps }
ahead (suc n) [] c = record c { phases = [] }
ahead (suc n) (p ∷ rest) c =
    ahead n (listed boards (advance boards p c.impl).0 ++ rest)
      (record c { impl = (advance boards p c.impl).1 })

asleep-MayAdvance : (p : Phase) (w : Watcher) → w ≡ asleep → MayAdvance boards p w
asleep-MayAdvance (Phase.entering t) w e = tt
asleep-MayAdvance (Phase.pushing t) w e = tt
asleep-MayAdvance (Phase.holding t) w e = e
asleep-MayAdvance (Phase.raising t) w e = tt
asleep-MayAdvance (Phase.lowering t) w e = tt
asleep-MayAdvance (Phase.looking t) w e = tt
asleep-MayAdvance (Phase.choosing t app) w e = tt
asleep-MayAdvance (Phase.running i t app) w e = tt
asleep-MayAdvance (Phase.reporting t r) w e = tt
asleep-MayAdvance (Phase.marking t) w e = tt

ahead-Reach :
    (n : ℕ) (ps : List Phase) {b : Process Board (Unit {0})} (c : Process Board (Unit {0}))
    → c.watcher ≡ asleep
    → Reach boards b (record c { phases = ps })
    → Reach boards b (ahead n ps c)
unfolding ahead
ahead-Reach zero ps c e r = r
ahead-Reach (suc n) [] c e r = r
ahead-Reach (suc n) (p ∷ rest) c e r =
    ahead-Reach n _ _ e (next r (advances [] p rest refl (asleep-MayAdvance p c.watcher e) refl))

-- The thread that submits the first task pushes it and has not counted it when a worker takes it.
abbrev pushed : Process Board (Unit {0})
pushed = let c = submitted job (set_up new) in ahead 2 c.phases c

pushed-Reach : Reach boards new pushed
pushed-Reach = ahead-Reach 2 _ _ refl (next (set_up-Reach new) (submits job refl))

abbrev taken : Process Board (Unit {0})
taken = record pushed {
  impl = record pushed.impl { ready = record pushed.impl.ready { pq = [] } };
  phases = Phase.lowering (record job { ready = true }) ∷ pushed.phases;
}

program : Unit {0}
unfolding ◌+ℤ◌ text_eq lookup assign erase take_top push pop_blocking find_app register_app fulfill
    mark_complete count_id all_counted deps_satisfied new_impl store_count update_count
    add_accelerator candidates try_slot try_slots select_accelerator maybe_preload record_ready
    has_fpga prepare_all start report worker_pop advance ahead text
program = tt

taken-Reach : Reach boards new taken
unfolding program
taken-Reach = next pushed-Reach (takes (record job { ready = true }) taken.impl refl refl)

-- The worker runs and reports the task; then the second is submitted, before the mark.
abbrev reported : Process Board (Unit {0})
reported = ahead 5 taken.phases taken

abbrev marked : Process Board (Unit {0})
marked = let c = ahead 1 reported.phases reported in submitted later (ahead 2 c.phases c)

abbrev taken_later : Process Board (Unit {0})
taken_later =
    let c = ahead 2 marked.phases marked in
    record c {
      impl = record c.impl { ready = record c.impl.ready { pq = [] } };
      phases = Phase.lowering (record later { ready = true }) ∷ c.phases;
    }

abbrev running_later : Process Board (Unit {0})
running_later = ahead 3 taken_later.phases taken_later

reported-Reach : Reach boards new reported
unfolding program
reported-Reach = ahead-Reach 5 taken.phases taken refl taken-Reach

marked-Reach : Reach boards new marked
unfolding program
marked-Reach =
    let c = ahead 1 reported.phases reported in
    next
      (ahead-Reach 2 c.phases c refl (ahead-Reach 1 reported.phases reported refl reported-Reach))
      (submits later refl)

taken_later-Reach : Reach boards new taken_later
unfolding program
taken_later-Reach =
    next (ahead-Reach 2 marked.phases marked refl marked-Reach)
      (takes (record later { ready = true }) taken_later.impl refl refl)

running_later-Reach : Reach boards new running_later
unfolding program
running_later-Reach = ahead-Reach 3 taken_later.phases taken_later refl taken_later-Reach

running-succeeded_example : All (λ k. succeeded k running_later.impl.reported ≡ true) (1 ∷ [])
unfolding program
running-succeeded_example =
    running-succeeded boards boards-IsLawful new running_later new-IsNew running_later-Reach 0
      (record later { ready = true }) fft_app (Memᴰ.head refl)

submitted-accounted_example :
    count task_id 2 running_later.submitted
    ≡ count task_id 2 running_later.impl.waiting
      + watched 2 running_later.watcher
      + count task_id 2 running_later.impl.ready.pq
      + held 2 running_later.phases
      + count result_id 2 running_later.impl.reported
submitted-accounted_example =
    submitted-accounted boards boards-IsLawful new running_later new-IsNew running_later-Reach 2

Reach-ledger_example :
    History (ledger running_later)
    × Entry (ledger running_later) (ledger (submitted job running_later))
Reach-ledger_example =
    Reach-ledger boards boards-IsLawful new running_later (submitted job running_later) new-IsNew
      running_later-Reach (submits job refl)

-- The report of the first task, for which the application has subscribed.
abbrev subscribed : Process Board (Unit {0})
subscribed = record new { impl = record new.impl { bus = (subscribe 1 new.impl.bus).1 } }

abbrev sent : Process Board (Unit {0})
sent = let c = submitted job (set_up subscribed) in ahead 2 c.phases c

abbrev received : Process Board (Unit {0})
received = record sent {
  impl = record sent.impl { ready = record sent.impl.ready { pq = [] } };
  phases = Phase.lowering (record job { ready = true }) ∷ sent.phases;
}

abbrev fulfilled : Process Board (Unit {0})
fulfilled = ahead 5 received.phases received

fulfilled-Reach : Reach boards subscribed fulfilled
unfolding program
fulfilled-Reach = ahead-Reach 5 received.phases received refl (
    next
      (ahead-Reach 2 (submitted job (set_up subscribed)).phases (submitted job (set_up subscribed))
        refl (next (set_up-Reach subscribed) (submits job refl)))
      (takes (record job { ready = true }) received.impl refl refl))

new-IsUnshared : IsUnshared new.impl.bus
unfolding new_impl
new-IsUnshared = new_bus-IsUnshared

new-subscribe : (subscribe 1 new.impl.bus).0 ≡ some 0
unfolding program subscribe
new-subscribe = refl

subscribed-Serves_example :
    Serves 1 0 (count result_id 1 new.impl.reported) fulfilled.impl.bus fulfilled.impl.reported
unfolding program
subscribed-Serves_example =
    subscribed-Serves boards 1 0 new fulfilled new-IsUnshared new-subscribe fulfilled-Reach

fulfilled_test : future_get 0 fulfilled.impl.bus ≡ some true
unfolding program subscribe future_get
fulfilled_test = refl

abbrev one_way : ReadyQueue
one_way = record { pq = job ∷ later ∷ []; stop = false }

abbrev other_way : ReadyQueue
other_way = record { pq = later ∷ job ∷ []; stop = false }

job-later-HasDistinctIds : HasDistinctIds (job ∷ later ∷ [])
job-later-HasDistinctIds k = ground (
  arith,
  count-cons task_id k job (later ∷ []),
  count-cons task_id k later [],
  count-nil task_id k,
)

drain_unique_example : drain 2 one_way ≡ drain 3 other_way
drain_unique_example =
    drain_unique 2 3 one_way other_way refl refl (Perm.swap later job []) job-later-HasDistinctIds
      (omega arith) (omega arith)
