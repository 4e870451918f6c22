-- ===== src/Scheduler/Frame.antt =====
-- What the scheduler's helpers leave alone: counting a ready task, preloading an overlay and
-- choosing an accelerator change the counts, the accelerators and the world only.
use ece506scheduler.Base.{ℤ, pos, ◌≡◌, refl, true, Text, arith}
use ece506scheduler.Task.{Task, AppDescriptor}
use ece506scheduler.ReadyQueue.{push}
use ece506scheduler.Scheduler.Accelerators.{Accelerators}
use ece506scheduler.Scheduler.Impl.{
  Impl, update_count, maybe_preload, record_ready, make_ready, select_accelerator,
}

pub record SameTasks {A W : Type 0} (s s' : Impl A W) : Type 0 where
  pub reg : s'.reg ≡ s.reg
  pub ready : s'.ready ≡ s.ready
  pub completed : s'.completed ≡ s.completed
  pub waiting : s'.waiting ≡ s.waiting
  pub reported : s'.reported ≡ s.reported
  pub bus : s'.bus ≡ s.bus
  pub running : s'.running ≡ s.running

module _ {A W : Type 0} (ops : Accelerators A W) where
  maybe_preload-SameTasks : (app : Text) (s : Impl A W) → SameTasks s (maybe_preload ops app s)
  unfolding maybe_preload
  maybe_preload-SameTasks app s = ground arith

  pub record_ready-SameTasks :
      (t : Task) (delta : ℤ) (s : Impl A W) → SameTasks s (record_ready ops t delta s)
  unfolding record_ready
  record_ready-SameTasks t delta s = ground (
    arith,
    maybe_preload-SameTasks t.app (record s {
      ready_app_counts =
          (update_count s.overlay_preload_threshold t.app delta s.ready_app_counts).0;
    }),
  )

  pub select_accelerator-SameTasks :
      (t : Task) (app : AppDescriptor) (s : Impl A W)
      → SameTasks s (select_accelerator ops t app s).1
  unfolding select_accelerator
  select_accelerator-SameTasks t app s = record {
    reg = refl;
    ready = refl;
    completed = refl;
    waiting = refl;
    reported = refl;
    bus = refl;
    running = refl;
  }

  -- A task made ready is put on the queue with its flag set, and no other task moves.
  pub make_ready-queues :
      (t : Task) (s : Impl A W)
      → let s' = make_ready ops t s in
        (s'.ready ≡ push (record t { ready = true }) s.ready)
        × (s'.completed ≡ s.completed)
        × (s'.waiting ≡ s.waiting)
        × (s'.reported ≡ s.reported)
        × (s'.bus ≡ s.bus)
        × (s'.running ≡ s.running)
        × (s'.reg ≡ s.reg)
  unfolding make_ready
  make_ready-queues t s =
      let f =
        record_ready-SameTasks (record t { ready = true }) (pos 1)
          (record s { ready = push (record t { ready = true }) s.ready }) in
      (f.ready, f.completed, f.waiting, f.reported, f.bus, f.running, f.reg)
