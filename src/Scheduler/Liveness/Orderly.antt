-- ===== src/Scheduler/Liveness/Orderly.antt =====
-- That turns of src/scheduler.cpp's two loops keep their order and serve the tasks.
use ece506scheduler.Base.{
  ℕ, zero, suc, ◌+◌, ◌≤◌, ◌<◌, ◌≡◌, refl, sym, ◌∙◌, ap, subst, List, [], ◌∷◌, All, All-map,
  All-count, count, count-nil, count-cons_self, ◌⊎◌, inl, inr, true, arith,
}
use ece506scheduler.Task.{Task}
use ece506scheduler.Scheduler.Deps.{Completed}
use ece506scheduler.Scheduler.Accelerators.{Accelerators, IsLawful}
use ece506scheduler.Scheduler.Impl.{Impl}
use ece506scheduler.Scheduler.Threads.{dep_pass}
use ece506scheduler.Scheduler.Passes.{task_id, result_id, dep_pass-Visited}
use ece506scheduler.Scheduler.Loop.{worker_loop}
use ece506scheduler.Scheduler.Loop.Reports.{worker_loop-reports}
use ece506scheduler.Scheduler.Staffed.{Duty, IsSteady}
use ece506scheduler.Scheduler.Liveness.Body.{Succeeds}
use ece506scheduler.Scheduler.Liveness.Queue.{worker_loop-WorksThrough}
use ece506scheduler.Scheduler.Liveness.Turns.{
  outstanding, turn, turns, Owed, AllOwed, IsOrderly, Serves, IsPassed, pass-IsPassed,
}

zero_or_pos : (n : ℕ) → (n ≡ 0) ⊎ (0 < n)
zero_or_pos zero = inl refl
zero_or_pos (suc n) = inr (omega arith)

no_counts : (ts : List Task) → ((k : ℕ) → count task_id k ts ≡ 0) → ts ≡ []
no_counts [] h = refl
no_counts (t ∷ ts) h = absurd (omega (arith, h t.id, count-cons_self task_id t ts))

module _ {A W : Type 0} (ops : Accelerators A W) (P : Duty → A → Type 0) (steady : IsSteady ops P)
    (lawful : IsLawful ops) (succeeds : Succeeds ops P) (rank : ℕ → ℕ) where
  abbrev pub Orderly : ℕ → ℕ → Impl A W → Type 0
  Orderly = IsOrderly ops P steady lawful succeeds rank

  abbrev Passed : ℕ → ℕ → Impl A W → Type 0
  Passed = IsPassed ops P steady lawful succeeds rank

  abbrev pub ServesTo : Impl A W → Impl A W → Type 0
  ServesTo = Serves ops P steady lawful succeeds rank

  served_after :
      (k : ℕ) (s s' : Impl A W)
      → 0 < outstanding k s
      → ((k : ℕ) → 0 < count task_id k s.ready.pq → Completed s'.completed k)
      → s'.waiting ≡ s.waiting
      → Completed s'.completed k ⊎ (0 < outstanding k s')
  served_after k s s' h completes same = elim (zero_or_pos (count task_id k s.ready.pq)) [
    | inl e ↦ inr (omega (arith, h, e, ap (count task_id k) same))
    | inr queued ↦ inl (completes k queued)
  ]

  Owed-after :
      (t : Task) (d : ℕ) (s s' : Impl A W)
      → Owed rank s t d
      → ((k : ℕ) → Completed s.completed k → Completed s'.completed k)
      → ((k : ℕ) → 0 < count task_id k s.ready.pq → Completed s'.completed k)
      → s'.waiting ≡ s.waiting
      → Owed rank s' t d
  Owed-after t d s s' (inl yet) kept completes same = inl (kept d yet)
  Owed-after t d s s' (inr (below, out)) kept completes same =
      elim (served_after d s s' out completes same) [
        | inl yet ↦ inl yet
        | inr out' ↦ inr (below, out')
      ]

  rounds-IsOrderly :
      (n k : ℕ) (s : Impl A W) → Passed n k s → Orderly n (suc k) (worker_loop ops n s)
  rounds-IsOrderly n k s p =
      let w =
        worker_loop-WorksThrough ops P steady lawful succeeds n s
          (record { known = p.known.1; staffed = p.staffed }) p.live (omega (arith, p.fits)) in
      let s' = worker_loop ops n s in
      let none_queued : (i : ℕ) → count task_id i s'.ready.pq ≡ 0 =
        λ i. ap (count task_id i) w.emptied ∙ count-nil task_id i in
      let over : (t : Task) (d : ℕ) → Owed rank s t d → Owed rank s' t d =
        λ t d o. Owed-after t d s s' o w.kept w.completes w.waiting in
      record {
        live = w.live;
        staffed = w.staffed;
        known = rw (w.waiting, w.emptied, w.reg) (p.known.0, tt);
        owed =
            subst (All (AllOwed rank s')) (sym w.waiting)
              (All-map _ _ s.waiting (λ t. All-map _ _ t.depends_on (over t)) p.owed);
        above = λ i h.
            All-count task_id (λ j. suc k ≤ rank j) i s.waiting p.beyond
              (omega (arith, h, none_queued i, ap (count task_id i) w.waiting));
        fits = rw (w.waiting, w.emptied) (omega (arith, p.fits));
      }

  rounds-Serves : (n k : ℕ) (s : Impl A W) → Passed n k s → ServesTo s (worker_loop ops n s)
  rounds-Serves n k s p =
      let w =
        worker_loop-WorksThrough ops P steady lawful succeeds n s
          (record { known = p.known.1; staffed = p.staffed }) p.live (omega (arith, p.fits)) in
      let s' = worker_loop ops n s in
      record {
        kept = w.kept;
        served = λ i h. served_after i s s' h w.completes w.waiting;
        counted = λ i. omega (
          arith,
          worker_loop-reports ops lawful i n s p.live (omega (arith, p.fits)),
          ap (count task_id i) w.emptied,
          count-nil task_id i,
          ap (count task_id i) w.waiting,
        );
      }

  pass-Serves : (s : Impl A W) → s.running ≡ true → ServesTo s (dep_pass ops s)
  pass-Serves s on =
      let v = dep_pass-Visited ops s on in
      record {
        kept = λ k h. rw v.completed h;
        served = λ k h. inr (omega (arith, h, v.moved k, count-nil task_id k));
        counted =
            λ k. omega (arith, v.moved k, count-nil task_id k, ap (count result_id k) v.reported);
      }

  Serves-trans : (s s1 s2 : Impl A W) → ServesTo s s1 → ServesTo s1 s2 → ServesTo s s2
  Serves-trans s s1 s2 a b = record {
    kept = λ k h. b.kept k (a.kept k h);
    served = λ k h. elim (a.served k h) [ inl yet ↦ inl (b.kept k yet) | inr out ↦ b.served k out ];
    counted = λ k. b.counted k ∙ a.counted k;
  }

  turn-IsOrderly :
      (n k : ℕ) (s : Impl A W)
      → Orderly n k s
      → Orderly n (suc k) (turn ops n s) × ServesTo s (turn ops n s)
  unfolding turn
  turn-IsOrderly n k s o =
      let p = pass-IsPassed ops P steady lawful succeeds rank n k s o in
      (
        rounds-IsOrderly n k (dep_pass ops s) p,
        Serves-trans s (dep_pass ops s) _ (pass-Serves s o.live.running)
            (rounds-Serves n k (dep_pass ops s) p),
      )

  pub turns-IsOrderly :
      (j n k : ℕ) (s : Impl A W)
      → Orderly n k s
      → Orderly n (j + k) (turns ops j n s) × ServesTo s (turns ops j n s)
  unfolding turns
  turns-IsOrderly zero n k s o = (
    subst (λ i. Orderly n i s) (omega arith) o,
    record { kept = λ i h. h; served = λ i h. inr h; counted = λ i. refl },
  )
  turns-IsOrderly (suc j) n k s o =
      let (o1, a) = turn-IsOrderly n k s o in
      let (o2, b) = turns-IsOrderly j n (suc k) (turn ops n s) o1 in
      (
        subst (λ i. Orderly n i (turns ops j n (turn ops n s))) (omega arith) o2,
        Serves-trans s (turn ops n s) _ a b,
      )

  -- Where every rank is below the turn, nothing is outstanding.
  pub IsOrderly-done :
      (n k : ℕ) (s : Impl A W)
      → ((i : ℕ) → rank i < k)
      → Orderly n k s
      → (s.waiting ≡ []) × (s.ready.pq ≡ [])
  IsOrderly-done n k s bound o =
      let nothing : (i : ℕ) → outstanding i s ≡ 0 = λ i. elim (zero_or_pos (outstanding i s)) [
        | inl e ↦ e
        | inr out ↦ absurd (omega (arith, bound i, o.above i out))
      ] in
      (
        no_counts s.waiting (λ i. omega (arith, nothing i)),
        no_counts s.ready.pq (λ i. omega (arith, nothing i)),
      )
