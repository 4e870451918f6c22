-- ===== src/Scheduler/Safety/Parts.antt =====
-- The invariant of the scheduler's threads in src/scheduler.cpp, and what each move of a task does
-- to its parts.
use mathlib.Core.Bool.{Bool-set}
use mathlib.Core.List.{Perm}
use ece506scheduler.Base.{
  ℕ, ◌+◌, ◌==◌, ◌≡◌, subst, ap, Bool, true, false, ◌&&◌, ◌||◌, List, [], ◌∷◌, ◌++◌, arith, All,
  All-map, All-perm, All-append, All-split, count, count-nil, count-cons, count-append, count-perm,
  if_ind, if◌then◌else◌,
}
use ece506scheduler.Task.{Task, ExecutionResult}
use ece506scheduler.Registry.{Registry, IsKeyed}
use ece506scheduler.Scheduler.Deps.{mark_complete, deps_satisfied, deps_satisfied_mark}
use ece506scheduler.Scheduler.Passes.{task_id, result_id, AllSatisfied}

-- A success has been reported under the id `d`.
unfoldable pub succeeded : ℕ → List ExecutionResult → Bool
succeeded d [] = false
succeeded d (r ∷ rs) = (r.id == d && r.ok) || succeeded d rs

-- The invariant, of the parts of a system that it is about.
pub record SafeParts (reg : Registry) (completed : List ℕ) (pq waiting busy : List Task)
    (reported : List ExecutionResult) (submitted : List Task) : Type 0 where
  pub keyed : IsKeyed reg
  pub queue_ready : AllSatisfied completed pq
  pub busy_ready : AllSatisfied completed busy
  pub earned : All (λ d. succeeded d reported ≡ true) completed
  pub conserved :
      (k : ℕ)
      → count task_id k submitted
        ≡ count task_id k waiting
          + count task_id k pq
          + count task_id k busy
          + count result_id k reported

AllSatisfied-mark :
    (id : ℕ) (completed : List ℕ) (ts : List Task)
    → AllSatisfied completed ts
    → AllSatisfied (mark_complete id completed) ts
AllSatisfied-mark id completed ts = All-map _ _ ts (λ t. deps_satisfied_mark t id completed)

earned-cons :
    (r : ExecutionResult) (rs : List ExecutionResult) (completed : List ℕ)
    → All (λ d. succeeded d rs ≡ true) completed
    → All (λ d. succeeded d (r ∷ rs) ≡ true) completed
unfolding succeeded
earned-cons r rs completed = All-map _ _ completed (λ d h. ground arith)

earned-work :
    (r : ExecutionResult) (id : ℕ) (rs : List ExecutionResult) (completed : List ℕ)
    → r.id ≡ id
    → All (λ d. succeeded d rs ≡ true) completed
    → All
        (λ d. succeeded d (r ∷ rs) ≡ true)
        (if r.ok then mark_complete id completed else completed)
unfolding mark_complete succeeded
earned-work r id rs completed e h =
    if_ind (λ cs. All (λ d. succeeded d (r ∷ rs) ≡ true) cs) r.ok
      (λ ok. (ground arith, earned-cons r rs completed h)) (λ _. earned-cons r rs completed h)

-- A task whose dependencies are met may join the queue.
pub ready-parts :
    (t : Task) {reg : Registry} {completed : List ℕ} {pq waiting busy : List Task}
    {reported : List ExecutionResult} {submitted : List Task}
    → SafeParts reg completed pq waiting busy reported submitted
    → deps_satisfied t completed ≡ true
    → SafeParts reg completed (record t { ready = true } ∷ pq) waiting busy reported (t ∷ submitted)
unfolding deps_satisfied
ready-parts t {pq} {submitted} h met = record {
  keyed = h.keyed;
  queue_ready = (met, h.queue_ready);
  busy_ready = h.busy_ready;
  earned = h.earned;
  conserved = λ k. omega (
    arith,
    h.conserved k,
    count-cons task_id k t submitted,
    count-cons task_id k (record t { ready = true }) pq,
  );
}

pub wait-parts :
    (t : Task) {reg : Registry} {completed : List ℕ} {pq waiting busy : List Task}
    {reported : List ExecutionResult} {submitted : List Task}
    → SafeParts reg completed pq waiting busy reported submitted
    → SafeParts reg completed pq (waiting ++ t ∷ []) busy reported (t ∷ submitted)
wait-parts t {waiting} {submitted} h = record {
  keyed = h.keyed;
  queue_ready = h.queue_ready;
  busy_ready = h.busy_ready;
  earned = h.earned;
  conserved = λ k. omega (
    arith,
    h.conserved k,
    count-cons task_id k t submitted,
    count-append task_id k waiting (t ∷ []),
    count-cons task_id k t [],
    count-nil task_id k,
  );
}

pub take-parts :
    (t : Task) {reg : Registry} {completed : List ℕ} {pq pq' waiting busy : List Task}
    {reported : List ExecutionResult} {submitted : List Task}
    → SafeParts reg completed pq waiting busy reported submitted
    → Perm pq (t ∷ pq')
    → SafeParts reg completed pq' waiting (t ∷ busy) reported submitted
take-parts t {pq'} {busy} h p =
    let (met, rest) = All-perm _ (λ _. Bool-set _ _) p h.queue_ready in
    record {
      keyed = h.keyed;
      queue_ready = rest;
      busy_ready = (met, h.busy_ready);
      earned = h.earned;
      conserved = λ k. omega (
        arith,
        h.conserved k,
        count-perm task_id k p,
        count-cons task_id k t pq',
        count-cons task_id k t busy,
      );
    }

pub work-parts :
    (t : Task) (r : ExecutionResult) (before after : List Task) {reg : Registry}
    {completed completed' : List ℕ} {pq waiting busy : List Task} {reported : List ExecutionResult}
    {submitted : List Task}
    → SafeParts reg completed pq waiting busy reported submitted
    → busy ≡ before ++ t ∷ after
    → r.id ≡ t.id
    → completed' ≡ (if r.ok then mark_complete t.id completed else completed)
    → SafeParts reg completed' pq waiting (before ++ after) (r ∷ reported) submitted
work-parts t r before after {completed} {busy} {reported} h e id marked =
    let (l, m, r') = split_busy in
    record {
      keyed = h.keyed;
      queue_ready = rw marked (grown _ h.queue_ready);
      busy_ready = rw marked (All-append _ before after (grown before l) (grown after r'));
      earned = rw marked (earned-work r t.id reported completed id h.earned);
      conserved = λ k. omega (
        arith,
        h.conserved k,
        ap (count task_id k) e,
        count-append task_id k before (t ∷ after),
        count-append task_id k before after,
        count-cons task_id k t after,
        count-cons result_id k r reported,
        same_id k,
      );
    }
  where
    split_busy :
        AllSatisfied completed before
        × (deps_satisfied t completed ≡ true)
        × AllSatisfied completed after
    split_busy =
        let (l, m) =
          All-split _ before (t ∷ after) (subst (AllSatisfied completed) e h.busy_ready) in
        (l, m.0, m.1)

    grown :
        (ts : List Task)
        → AllSatisfied completed ts
        → AllSatisfied (if r.ok then mark_complete t.id completed else completed) ts
    grown ts a =
        if_ind (λ cs. AllSatisfied cs ts) r.ok (λ _. AllSatisfied-mark t.id completed ts a) (λ _. a)

    same_id : (k : ℕ) → ◌≡◌ {A = ℕ} (if r.id == k then 1 else 0) (if t.id == k then 1 else 0)
    same_id k = ap (λ (n : ℕ). if n == k then 1 else 0) id
