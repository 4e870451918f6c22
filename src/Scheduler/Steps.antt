-- ===== src/Scheduler/Steps.antt =====
-- The scheduler as a system of threads: the application submits tasks, the dependency watcher makes
-- its passes and any number of workers take tasks and finish them, in every order. A step is a part
-- of src/scheduler.cpp that no other thread sees half done, or that only adds to what others read.
use ece506scheduler.Base.{◌≡◌, List, ◌∷◌, ◌++◌, some}
use ece506scheduler.Task.{Task, AppDescriptor}
use ece506scheduler.Registry.{register_app}
use ece506scheduler.Scheduler.Accelerators.{Accelerators}
use ece506scheduler.Scheduler.Impl.{Impl, add_accelerator, submit}
use ece506scheduler.Scheduler.Threads.{start, stop, dep_pass, worker_pop, worker_body}

-- The scheduler, the tasks that workers have taken and not yet finished, and all that was submitted.
pub record System (A W : Type 0) : Type 0 where
  pub impl : Impl A W
  pub busy : List Task
  pub submitted : List Task

module _ {A W : Type 0} (ops : Accelerators A W) where
  pub data Step (c d : System A W) : Type 0 where
    submits :
        (t : Task)
        → d ≡ record c { impl = submit ops t c.impl; submitted = t ∷ c.submitted }
        → Step c d
    passes : d ≡ record c { impl = dep_pass ops c.impl } → Step c d
    takes :
        (t : Task) (s : Impl A W)
        → worker_pop ops c.impl ≡ some (t, s)
        → d ≡ record c { impl = s; busy = t ∷ c.busy }
        → Step c d
    works :
        (before : List Task) (t : Task) (after : List Task)
        → c.busy ≡ before ++ t ∷ after
        → d ≡ record c { impl = worker_body ops t c.impl; busy = before ++ after }
        → Step c d
    registers :
        (app : AppDescriptor)
        → d ≡ record c { impl = record c.impl { reg = register_app app c.impl.reg } }
        → Step c d
    adds : (a : A) → d ≡ record c { impl = add_accelerator ops a c.impl } → Step c d
    starts : d ≡ record c { impl = start ops c.impl } → Step c d
    stops : d ≡ record c { impl = stop ops c.impl } → Step c d

  pub data Reach (c : System A W) : System A W → Type 0 where
    here : Reach c c
    next : {d e : System A W} → Reach c d → Step d e → Reach c e
