-- ===== src/Scheduler/Loop.antt =====
-- worker_loop of src/scheduler.cpp as the loop that one worker makes, while nothing is pushed.
pub mod Reports
use ece506scheduler.Base.{
  ℕ, zero, suc, ◌≤◌, ◌≡◌, ◌∙◌, refl, sym, ap, subst, true, false, List, [], ◌∷◌, map, none, some,
  length, length-perm, arith,
}
use mathlib.Core.Bool.{false≢true}
use mathlib.Core.List.{Perm}
use ece506scheduler.Task.{Task}
use ece506scheduler.ReadyQueue.{ReadyQueue, Popped, blocked, stopped, popped, pop_blocking}
use ece506scheduler.ReadyQueue.Pop.{Pops, pop_blocking-Pops, drain}
use ece506scheduler.Registry.{IsKeyed}
use ece506scheduler.Scheduler.Accelerators.{Accelerators, IsLawful}
use ece506scheduler.Scheduler.Impl.{Impl}
use ece506scheduler.Scheduler.Threads.{worker_pop, worker_body}
use ece506scheduler.Scheduler.Passes.{task_id, result_id}
use ece506scheduler.Scheduler.Rounds.{worker_body-Worked}

-- The elements of the first list put in front of the second, one after the other.
abbrev pub onto : List ℕ → List ℕ → List ℕ
onto [] ys = ys
onto (x ∷ xs) ys = onto xs (x ∷ ys)

module _ {A W : Type 0} (ops : Accelerators A W) where
  -- At most `n` rounds; the loop ends where pop_blocking blocks or the scheduler has stopped.
  unfoldable pub worker_loop : ℕ → Impl A W → Impl A W
  worker_loop zero s = s
  worker_loop (suc n) s = elim (worker_pop ops s) [
    | none ↦ s
    | some (t, s') ↦ worker_loop n (worker_body ops t s')
  ]

  -- What `n` rounds from `s` have come to.
  record WorksOff (n : ℕ) (s s' : Impl A W) : Type 0 where
    emptied : s'.ready.pq ≡ []
    waiting : s'.waiting ≡ s.waiting
    reported :
        map result_id s'.reported ≡ onto (map task_id (drain n s.ready)) (map result_id s.reported)

  worker_pop-blocked :
      (s : Impl A W) → s.running ≡ true → pop_blocking s.ready ≡ blocked → worker_pop ops s ≡ none
  unfolding worker_pop
  worker_pop-blocked s run e = ground (arith, run, e)

  worker_pop_taken :
      (s : Impl A W) (t : Task) (q : ReadyQueue)
      → s.running ≡ true
      → pop_blocking s.ready ≡ popped t q
      → worker_pop ops s ≡ some (t, record s { ready = q })
  unfolding worker_pop
  worker_pop_taken s t q run e = simp (run, e)

  worker_loop-blocked : (n : ℕ) (s : Impl A W) → worker_pop ops s ≡ none → worker_loop (suc n) s ≡ s
  unfolding worker_loop
  worker_loop-blocked n s e = rw (worker_loop, e) refl

  pop_blocking_idle : (q : ReadyQueue) → q.stop ≡ false → q.pq ≡ [] → pop_blocking q ≡ blocked
  unfolding pop_blocking
  pop_blocking_idle q on e = rw (pop_blocking, on, e) refl

  -- With an empty queue the loop does nothing.
  pub worker_loop_idle :
      (n : ℕ) (s : Impl A W)
      → s.running ≡ true
      → s.ready.stop ≡ false
      → s.ready.pq ≡ []
      → worker_loop n s ≡ s
  unfolding worker_loop
  worker_loop_idle zero s run on e = refl
  worker_loop_idle (suc n) s run on e =
      worker_loop-blocked n s (worker_pop-blocked s run (pop_blocking_idle s.ready on e))

  worker_loop-popped :
      (n : ℕ) (s s' : Impl A W) (t : Task)
      → worker_pop ops s ≡ some (t, s')
      → worker_loop (suc n) s ≡ worker_loop n (worker_body ops t s')
  unfolding worker_loop
  worker_loop-popped n s s' t e = rw (worker_loop, e) refl

  drain-popped :
      (n : ℕ) (q q' : ReadyQueue) (t : Task)
      → pop_blocking q ≡ popped t q'
      → drain (suc n) q ≡ t ∷ drain n q'
  unfolding drain
  drain-popped n q q' t e = rw (drain, e) refl

  pub length-nil : (ts : List Task) → length ts ≤ 0 → ts ≡ []
  length-nil [] h = refl
  length-nil (t ∷ ts) h = absurd (omega arith)

  -- The state of a scheduler whose workers take tasks.
  pub record IsLive (s : Impl A W) : Type 0 where
    pub keyed : IsKeyed s.reg
    pub running : s.running ≡ true
    pub live : s.ready.stop ≡ false

  module _ (lawful : IsLawful ops) where
    worker_body-IsLive :
        (t : Task) (q : ReadyQueue) (s : Impl A W)
        → q.stop ≡ false
        → IsLive s
        → IsLive (worker_body ops t (record s { ready = q }))
    worker_body-IsLive t q s on h =
        let w = worker_body-Worked ops lawful t (record s { ready = q }) h.keyed in
        record {
          keyed = subst IsKeyed (sym w.reg) h.keyed;
          running = w.running ∙ h.running;
          live = ap (λ (r : ReadyQueue). r.stop) w.ready ∙ on;
        }

    -- The rule for the loop. `R n s s'` says what `n` rounds from `s` may have come to; `I` is kept.
    module _ (I : Impl A W → Type 0) (R : ℕ → Impl A W → Impl A W → Type 0)
        (idle : (n : ℕ) (s : Impl A W) → I s → IsLive s → s.ready.pq ≡ [] → R n s s)
        (keep : (t : Task) (q : ReadyQueue) (s : Impl A W)
          → I s
          → IsLive s
          → Perm s.ready.pq (t ∷ q.pq)
          → I (worker_body ops t (record s { ready = q })))
        (round : (n : ℕ) (t : Task) (q : ReadyQueue) (s s' : Impl A W)
          → I s
          → IsLive s
          → pop_blocking s.ready ≡ popped t q
          → Perm s.ready.pq (t ∷ q.pq)
          → R n (worker_body ops t (record s { ready = q })) s'
          → R (suc n) s s') where
      loop_round :
          (n : ℕ) (s : Impl A W) (p : Popped)
          → pop_blocking s.ready ≡ p
          → Pops s.ready p
          → I s
          → IsLive s
          → length s.ready.pq ≤ suc n
          → ((s' : Impl A W)
              → I s'
              → IsLive s'
              → length s'.ready.pq ≤ n
              → R n s' (worker_loop n s'))
          → R (suc n) s (worker_loop (suc n) s)
      loop_round n s blocked e h i v fits rest =
          rw (worker_loop-blocked n s (worker_pop-blocked s v.running e)) (idle (suc n) s i v h.1)
      loop_round n s stopped e h i v fits rest = absurd (false≢true (sym v.live ∙ h))
      loop_round n s (popped t q) e (_, on, p, _) i v fits rest =
          let w = worker_body-Worked ops lawful t (record s { ready = q }) v.keyed in
          rw (worker_loop-popped n s _ t (worker_pop_taken s t q v.running e)) (
            round n t q s _ i v e p (
              rest _ (keep t q s i v p) (worker_body-IsLive t q s on v)
                (omega (arith, length-perm p, fits, ap (λ (q : ReadyQueue). length q.pq) w.ready))))

      pub worker_loop_ind :
          (n : ℕ) (s : Impl A W) → I s → IsLive s → length s.ready.pq ≤ n → R n s (worker_loop n s)
      unfolding worker_loop
      worker_loop_ind zero s i v fits = idle zero s i v (length-nil s.ready.pq fits)
      worker_loop_ind (suc n) s i v fits =
          loop_round n s (pop_blocking s.ready) refl (pop_blocking-Pops s.ready) i v fits
            (worker_loop_ind n)

    drain_idle : (n : ℕ) (q : ReadyQueue) → q.stop ≡ false → q.pq ≡ [] → drain n q ≡ []
    unfolding drain pop_blocking
    drain_idle zero q on e = refl
    drain_idle (suc n) q on e = rw (drain, pop_blocking, on, e) refl

    WorksOff-idle : (n : ℕ) (s : Impl A W) → Unit {0} → IsLive s → s.ready.pq ≡ [] → WorksOff n s s
    WorksOff-idle n s i v e = record {
      emptied = e;
      waiting = refl;
      reported = rw (drain_idle n s.ready v.live e) refl;
    }

    WorksOff-round :
        (n : ℕ) (t : Task) (q : ReadyQueue) (s s' : Impl A W)
        → Unit {0}
        → IsLive s
        → pop_blocking s.ready ≡ popped t q
        → Perm s.ready.pq (t ∷ q.pq)
        → WorksOff n (worker_body ops t (record s { ready = q })) s'
        → WorksOff (suc n) s s'
    WorksOff-round n t q s s' i v e p ih =
        let w = worker_body-Worked ops lawful t (record s { ready = q }) v.keyed in
        record {
          emptied = ih.emptied;
          waiting = ih.waiting ∙ w.waiting;
          reported =
              ih.reported ∙ rw (w.ready, w.reported, w.id, drain-popped n s.ready q t e) refl;
        }

    -- While nothing is pushed, with accelerators that keep their laws and a registry that files each
    -- descriptor under its name: a worker of a running scheduler whose queue is not stopped that makes as many rounds as tasks
    -- are queued, or more, empties the queue and leaves the waiting tasks, and it has reported each
    -- task that was queued once, whether it succeeded or not, in the order in which the queue hands
    -- them out.
    pub worker_loop_lem :
        (n : ℕ) (s : Impl A W)
        → IsKeyed s.reg
        → s.running ≡ true
        → s.ready.stop ≡ false
        → length s.ready.pq ≤ n
        → let s' = worker_loop n s in
          (s'.ready.pq ≡ [])
          × (s'.waiting ≡ s.waiting)
          × (map result_id s'.reported
              ≡ onto (map task_id (drain n s.ready)) (map result_id s.reported))
    worker_loop_lem n s keyed run live fits =
        let w =
          worker_loop_ind (λ _. Unit {0}) WorksOff WorksOff-idle (λ t q s i v p. tt) WorksOff-round
            n s tt (record { keyed = keyed; running = run; live = live }) fits in
        (w.emptied, w.waiting, w.reported)
