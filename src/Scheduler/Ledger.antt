-- ===== src/Scheduler/Ledger.antt =====
-- What the scheduler of src/scheduler.cpp promises its applications, without its threads: a ledger of
-- the tasks that were accepted and of the reports, which the applications see.
use ece506scheduler.Base.{◌<◌, List, [], ◌∷◌, count}
use ece506scheduler.Task.{Task, ExecutionResult}
use ece506scheduler.Scheduler.Passes.{task_id, result_id}

-- Both lists have the newest first.
pub record Ledger : Type 0 where
  pub accepted : List Task
  pub reports : List ExecutionResult

abbrev pub empty_ledger : Ledger
empty_ledger = record { accepted = []; reports = [] }

-- An entry: a task is accepted; or one report is added, of an id with fewer reports so far than
-- accepted tasks; or the ledger stays.
pub data Entry (l : Ledger) : Ledger → Type 0 where
  accepts : (t : Task) → Entry l (record l { accepted = t ∷ l.accepted })
  settles :
      (r : ExecutionResult)
      → count result_id r.id l.reports < count task_id r.id l.accepted
      → Entry l (record l { reports = r ∷ l.reports })
  idles : Entry l l

-- The ledgers that come about by entries in the empty one.
pub data History : Ledger → Type 0 where
  opened : History empty_ledger
  entered : {l m : Ledger} → History l → Entry l m → History m
