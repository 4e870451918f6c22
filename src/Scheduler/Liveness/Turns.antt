-- ===== src/Scheduler/Liveness/Turns.antt =====
-- dep_loop and worker_loop of src/scheduler.cpp in turn: a pass of the first, then rounds of the
-- second until the queue is empty.
use mathlib.Core.Bool.{false≢true}
use ece506scheduler.Base.{
  ℕ, zero, suc, ◌+◌, ◌≤◌, ◌<◌, ◌≡◌, sym, ◌∙◌, false, All, All-map, All-zip, length, count,
  count-nil, ◌⊎◌, inl, inr, arith,
}
use ece506scheduler.Task.{Task}
use ece506scheduler.Scheduler.Deps.{Completed, deps_satisfied, unmet_dependency}
use ece506scheduler.Scheduler.Accelerators.{Accelerators, IsLawful}
use ece506scheduler.Scheduler.Impl.{Impl}
use ece506scheduler.Scheduler.Threads.{dep_pass}
use ece506scheduler.Scheduler.Passes.{task_id, result_id, dep_pass-Visited}
use ece506scheduler.Scheduler.Loop.{worker_loop, IsLive}
use ece506scheduler.Scheduler.Staffed.{Duty, Has, IsSteady}
use ece506scheduler.Scheduler.Liveness.Body.{Succeeds}
use ece506scheduler.Scheduler.Liveness.Queue.{IsKnown}
use ece506scheduler.Scheduler.Liveness.Pass.{dep_pass-Passes}

-- How often `k` is the id of a task that waits or is queued.
abbrev pub outstanding : {A W : Type 0} → ℕ → Impl A W → ℕ
outstanding k s = count task_id k s.waiting + count task_id k s.ready.pq

module _ {A W : Type 0} (ops : Accelerators A W) where
  -- One turn, and `k` of them, with at most `n` rounds of the worker in each.
  unfoldable pub turn : ℕ → Impl A W → Impl A W
  turn n s = worker_loop ops n (dep_pass ops s)

  unfoldable pub turns : ℕ → ℕ → Impl A W → Impl A W
  turns zero n s = s
  turns (suc k) n s = turns k n (turn n s)

-- The dependency `d` of `t` is complete, or it is outstanding and comes before `t` in `rank`.
abbrev pub Owed : {A W : Type 0} → (ℕ → ℕ) → Impl A W → Task → ℕ → Type 0
Owed rank s t d = Completed s.completed d ⊎ ((rank d < rank t.id) × (0 < outstanding d s))

abbrev pub AllOwed : {A W : Type 0} → (ℕ → ℕ) → Impl A W → Task → Type 0
AllOwed rank s t = All (Owed rank s t) t.depends_on

module _ {A W : Type 0} (ops : Accelerators A W) (P : Duty → A → Type 0) (steady : IsSteady ops P)
    (lawful : IsLawful ops) (succeeds : Succeeds ops P) (rank : ℕ → ℕ) where
  -- A state before the turn `k`: what is outstanding has at least the rank `k`.
  pub record IsOrderly (n k : ℕ) (s : Impl A W) : Type 0 where
    pub live : IsLive ops s
    pub staffed : Has P s.accelerators
    pub known : All (IsKnown s.reg) s.waiting × All (IsKnown s.reg) s.ready.pq
    pub owed : All (AllOwed rank s) s.waiting
    pub above : (i : ℕ) → 0 < outstanding i s → k ≤ rank i
    pub fits : length s.waiting + length s.ready.pq ≤ n

  -- What turns do with the tasks.
  pub record Serves (s s' : Impl A W) : Type 0 where
    pub kept : (k : ℕ) → Completed s.completed k → Completed s'.completed k
    pub served : (k : ℕ) → 0 < outstanding k s → Completed s'.completed k ⊎ (0 < outstanding k s')
    pub counted :
        (k : ℕ)
        → count result_id k s'.reported + outstanding k s'
          ≡ count result_id k s.reported + outstanding k s

  -- The state between the pass and the rounds.
  pub record IsPassed (n k : ℕ) (s : Impl A W) : Type 0 where
    pub live : IsLive ops s
    pub staffed : Has P s.accelerators
    pub known : All (IsKnown s.reg) s.waiting × All (IsKnown s.reg) s.ready.pq
    pub owed : All (AllOwed rank s) s.waiting
    pub beyond : All (λ t. suc k ≤ rank t.id) s.waiting
    pub fits : length s.waiting + length s.ready.pq ≤ n

  -- An unmet task has a dependency below it that is outstanding.
  beyond_one :
      (k : ℕ) (s : Impl A W) (t : Task)
      → ((i : ℕ) → 0 < outstanding i s → k ≤ rank i)
      → deps_satisfied t s.completed ≡ false
      → AllOwed rank s t
      → suc k ≤ rank t.id
  beyond_one k s t above unmet owed =
      let (d, still, o) = unmet_dependency (Owed rank s t) t s.completed unmet owed in
      elim o [
        | inl yet ↦ absurd (false≢true (sym still ∙ yet))
        | inr (below, out) ↦ omega (arith, above d out, below)
      ]

  pub pass-IsPassed : (n k : ℕ) (s : Impl A W) → IsOrderly n k s → IsPassed n k (dep_pass ops s)
  pass-IsPassed n k s o =
      let v = dep_pass-Visited ops s o.live.running in
      let s1 = dep_pass ops s in
      let known = dep_pass-Passes ops P steady (IsKnown s.reg) (λ t h. h) s o.live.running in
      let owed = dep_pass-Passes ops P steady (AllOwed rank s) (λ t h. h) s o.live.running in
      let same : (i : ℕ) → outstanding i s1 ≡ outstanding i s =
        λ i. omega (arith, v.moved i, count-nil task_id i) in
      let owed_all = owed.all_waiting tt o.owed in
      let over : (t : Task) (d : ℕ) → Owed rank s t d → Owed rank s1 t d = λ t d w. elim w [
        | inl yet ↦ inl (rw v.completed yet)
        | inr (below, out) ↦ inr (below, omega (arith, same d, out))
      ] in
      record {
        live = known.live o.live;
        staffed = known.staffed o.staffed;
        known = rw v.reg (known.all_waiting tt o.known.0, known.all_queued o.known.0 o.known.1);
        owed = All-map _ _ s1.waiting (λ t. All-map _ _ t.depends_on (over t)) owed_all;
        beyond = All-zip _ _ _ s1.waiting (λ t. beyond_one k s t o.above) (v.left tt) owed_all;
        fits = omega (arith, known.same_length, o.fits);
      }
