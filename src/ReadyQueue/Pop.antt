-- ===== src/ReadyQueue/Pop.antt =====
-- What the priority queue hands out, and in which order.
use mathlib.Core.List.Perm
use mathlib.Core.List.{Perm}
use mathlib.Core.Bool.{Bool-set, false≢true}
use ece506scheduler.Base.{
  ℕ, zero, suc, ◌≤◌, ◌≡◌, refl, ◌∙◌, sym, inl, inr, Bool, true, false, List, [], ◌∷◌, Option, none,
  some, Sorted, All-perm, length-perm, All, All-map, length, Bool-cases, arith,
}
use ece506scheduler.Task.{Task}
use ece506scheduler.ReadyQueue.{
  ReadyQueue, Popped, blocked, stopped, popped, task_compare, take_top, pop_blocking,
}
use ece506scheduler.ReadyQueue.Order.{task_compare_asymm, task_compare-false_trans}

-- No task of the list goes before `t`.
abbrev pub Beats : Task → List Task → Type 0
Beats t ts = All (λ u. task_compare t u ≡ false) ts

abbrev TopOf : List Task → Option (Task × List Task) → Type 0
TopOf ts none = ts ≡ []
TopOf ts (some (t, rest)) = Perm ts (t ∷ rest) × Beats t rest

Beats-trans : (t u : Task) (ts : List Task) → task_compare t u ≡ false → Beats u ts → Beats t ts
Beats-trans t u ts h = All-map _ _ ts (λ v. task_compare-false_trans t u v h)

step-TopOf :
    (t : Task) (ts : List Task) (o : Option (Task × List Task))
    → take_top ts ≡ o
    → TopOf ts o
    → TopOf (t ∷ ts) (take_top (t ∷ ts))
unfolding take_top
step-TopOf t ts none e h = rw (e, take_top) (rw h (Perm.rfl, tt))
step-TopOf t ts (some (u, rest)) e (p, b) = elim (Bool-cases (task_compare u t)) [
  | inl after ↦
      rw (e, take_top, after)
        (
          Perm.cons t p,
          (task_compare_asymm u t after, Beats-trans t u rest (task_compare_asymm u t after) b),
        )
  | inr before ↦
      rw (e, take_top, before) (Perm.trans (Perm.cons t p) (Perm.swap u t rest), (before, b))
]

take_top-TopOf : (ts : List Task) → TopOf ts (take_top ts)
unfolding take_top
take_top-TopOf [] = refl
take_top-TopOf (t ∷ ts) = step-TopOf t ts (take_top ts) refl (take_top-TopOf ts)

-- What pop_blocking promises of each of its three outcomes.
abbrev pub Pops : ReadyQueue → Popped → Type 0
Pops q blocked = (q.stop ≡ false) × (q.pq ≡ [])
Pops q stopped = q.stop ≡ true
Pops q (popped t q') = (q.stop ≡ false) × (q'.stop ≡ false) × Perm q.pq (t ∷ q'.pq) × Beats t q'.pq

pop_cases :
    (b : Bool) (pq : List Task) (o : Option (Task × List Task))
    → take_top pq ≡ o
    → TopOf pq o
    → Pops (record { pq = pq; stop = b }) (pop_blocking (record { pq = pq; stop = b }))
unfolding pop_blocking
pop_cases true pq o e h = refl
pop_cases false [] o e h = (refl, refl)
pop_cases false (t ∷ ts) none e h = cc
pop_cases false (t ∷ ts) (some (u, rest)) e (p, b) = rw (e, pop_blocking) (refl, refl, p, b)

-- pop_blocking waits exactly on an empty queue that runs, answers nullptr exactly once stopped, and
-- otherwise takes out one task, before which no other task in the queue goes, and keeps the rest.
pub pop_blocking-Pops : (q : ReadyQueue) → Pops q (pop_blocking q)
pop_blocking-Pops q = pop_cases q.stop q.pq (take_top q.pq) refl (take_top-TopOf q.pq)

-- The tasks that a queue hands out while nothing is pushed, at most `n` of them.
unfoldable pub drain : ℕ → ReadyQueue → List Task
drain zero q = []
drain (suc n) q = elim (pop_blocking q) [
  | blocked ↦ []
  | stopped ↦ []
  | popped t q' ↦ t ∷ drain n q'
]

abbrev pub Drains : ReadyQueue → List Task → Type 0
Drains q out = Perm q.pq out × Sorted (λ t u. task_compare t u ≡ false) out

length-nil : (ts : List Task) → length ts ≤ 0 → ts ≡ []
length-nil [] h = refl
length-nil (t ∷ ts) h = absurd (omega arith)

drain_step :
    (n : ℕ) (q : ReadyQueue) (r : Popped)
    → pop_blocking q ≡ r
    → Pops q r
    → q.stop ≡ false
    → length q.pq ≤ suc n
    → ((q' : ReadyQueue) → q'.stop ≡ false → length q'.pq ≤ n → Drains q' (drain n q'))
    → Drains q (drain (suc n) q)
unfolding drain
drain_step n q blocked e h run fits rest = rw (e, drain, h.1) (Perm.rfl, tt)
drain_step n q stopped e h run fits rest = absurd (false≢true (sym run ∙ h))
drain_step n q (popped t q') e (_, run', p, b) run fits rest =
    let (same, order) = rest q' run' (omega (arith, length-perm p)) in
    rw (e, drain) (Perm.trans p (Perm.cons t same), (All-perm _ (λ u. Bool-set _ _) same b, order))

-- While the queue runs and nothing is pushed, as many pops as it has tasks, or more, hand out its tasks,
-- each exactly once, and none after one that it goes before.
pub drain-Drains :
    (n : ℕ) (q : ReadyQueue) → q.stop ≡ false → length q.pq ≤ n → Drains q (drain n q)
unfolding drain
drain-Drains zero q run fits = rw (length-nil q.pq fits) (Perm.rfl, tt)
drain-Drains (suc n) q run fits =
    drain_step n q (pop_blocking q) refl (pop_blocking-Pops q) run fits (drain-Drains n)
