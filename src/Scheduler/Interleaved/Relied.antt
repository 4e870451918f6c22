-- ===== src/Scheduler/Interleaved/Relied.antt =====
-- What a thread of src/scheduler.cpp relies on at each step, and what a step may do to it.
use ece506scheduler.Base.{
  ℕ, ◌+◌, ◌==◌, ◌≡◌, refl, sym, subst, ap, true, List, Option, none, some, All, arith, count,
  count-cons, if◌then◌else◌,
}
use ece506scheduler.Task.{Task, ExecutionResult}
use ece506scheduler.ReadyQueue.{push}
use ece506scheduler.Scheduler.Deps.{deps_satisfied}
use ece506scheduler.Scheduler.Impl.{Impl}
use ece506scheduler.Scheduler.Passes.{task_id, result_id, AllSatisfied}
use ece506scheduler.Scheduler.Safety.{succeeded}
use ece506scheduler.Scheduler.Frame.{SameTasks}
use ece506scheduler.Scheduler.Interleaved.{
  Phase, entering, pushing, holding, raising, lowering, looking, choosing, running, reporting,
  marking,
}

-- What a thread relies on: the dependencies of its task are complete, its result carries the task's
-- id, and before mark_complete the success has been reported.
abbrev pub Relies : List ℕ → List ExecutionResult → Phase → Type 0
Relies completed reported (entering t) = Unit
Relies completed reported (pushing t) = deps_satisfied t completed ≡ true
Relies completed reported (holding t) = Unit
Relies completed reported (raising t) = Unit
Relies completed reported (lowering t) = deps_satisfied t completed ≡ true
Relies completed reported (looking t) = deps_satisfied t completed ≡ true
Relies completed reported (choosing t app) = deps_satisfied t completed ≡ true
Relies completed reported (running i t app) = deps_satisfied t completed ≡ true
Relies completed reported (reporting t r) = (deps_satisfied t completed ≡ true) × (r.id ≡ t.id)
Relies completed reported (marking t) = succeeded t.id reported ≡ true

abbrev pub Earned : List ℕ → List ExecutionResult → Type 0
Earned completed reported = All (λ d. succeeded d reported ≡ true) completed

-- Completed tasks and reports only grow.
pub record Grows {A W : Type 0} (s s' : Impl A W) : Type 0 where
  pub deps : (t : Task) → deps_satisfied t s.completed ≡ true → deps_satisfied t s'.completed ≡ true
  pub reports : (d : ℕ) → succeeded d s.reported ≡ true → succeeded d s'.reported ≡ true

pub Grows-Relies :
    {A W : Type 0} (s s' : Impl A W) (p : Phase)
    → Grows s s'
    → Relies s.completed s.reported p
    → Relies s'.completed s'.reported p
Grows-Relies s s' (entering t) g h = tt
Grows-Relies s s' (pushing t) g h = g.deps t h
Grows-Relies s s' (holding t) g h = tt
Grows-Relies s s' (raising t) g h = tt
Grows-Relies s s' (lowering t) g h = g.deps t h
Grows-Relies s s' (looking t) g h = g.deps t h
Grows-Relies s s' (choosing t app) g h = g.deps t h
Grows-Relies s s' (running i t app) g h = g.deps t h
Grows-Relies s s' (reporting t r) g h = (g.deps t h.0, h.1)
Grows-Relies s s' (marking t) g h = g.reports t.id h

abbrev pub ReliesIf : List ℕ → List ExecutionResult → Option Phase → Type 0
ReliesIf completed reported none = Unit
ReliesIf completed reported (some p) = Relies completed reported p

-- The number of tasks with the id in the lists of a state.
abbrev pub stored : {A W : Type 0} → ℕ → Impl A W → ℕ
stored k s = count task_id k s.waiting + count task_id k s.ready.pq + count result_id k s.reported

pub record Advanced {A W : Type 0} (before : ℕ → ℕ) (s : Impl A W) (after : ℕ → ℕ)
    (relies : List ℕ → List ExecutionResult → Type 0) (s' : Impl A W) : Type 0 where
  pub grows : Grows s s'
  pub queue : AllSatisfied s.completed s.ready.pq → AllSatisfied s'.completed s'.ready.pq
  pub earned : Earned s.completed s.reported → Earned s'.completed s'.reported
  pub relied : relies s'.completed s'.reported
  pub moved : (k : ℕ) → stored k s' + after k ≡ stored k s + before k

module _ {A W : Type 0} where
  -- A step that leaves every list of tasks.
  pub same-Advanced :
      (before after : ℕ → ℕ) (s s' : Impl A W) (relies : List ℕ → List ExecutionResult → Type 0)
      → SameTasks s s'
      → relies s.completed s.reported
      → ((k : ℕ) → after k ≡ before k)
      → Advanced before s after relies s'
  same-Advanced before after s s' relies f h same = record {
    grows = record {
      deps = λ t met. subst (λ cs. deps_satisfied t cs ≡ true) (sym f.completed) met;
      reports = λ d ok. subst (λ rs. succeeded d rs ≡ true) (sym f.reported) ok;
    };
    queue = λ q. rw (f.completed, f.ready) q;
    earned = λ e. rw (f.completed, f.reported) e;
    relied = rw (f.completed, f.reported) h;
    moved = λ k. omega (
      arith,
      same k,
      ap (count task_id k) f.waiting,
      ap (λ (q : List Task). count task_id k q) (ap (λ q. q.pq) f.ready),
      ap (count result_id k) f.reported,
    );
  }

  abbrev pub same_state : (s : Impl A W) → SameTasks s s
  same_state s = record {
    reg = refl;
    ready = refl;
    completed = refl;
    waiting = refl;
    reported = refl;
    bus = refl;
    running = refl;
  }

  -- A task whose dependencies are complete goes to the queue.
  pub push-Advanced :
      (t : Task) (before after : ℕ → ℕ) (s : Impl A W)
      (relies : List ℕ → List ExecutionResult → Type 0)
      → deps_satisfied t s.completed ≡ true
      → relies s.completed s.reported
      → ((k : ℕ) → (if t.id == k then 1 else 0) + after k ≡ before k)
      → Advanced before s after relies
          (record s { ready = push (record t { ready = true }) s.ready })
  unfolding push deps_satisfied
  push-Advanced t before after s relies met h gone = record {
    grows = record { deps = λ u m. m; reports = λ d m. m };
    queue = λ q. (met, q);
    earned = λ e. e;
    relied = h;
    moved = λ k. omega (arith, gone k, count-cons task_id k (record t { ready = true }) s.ready.pq);
  }
