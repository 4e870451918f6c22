-- ===== src/Scheduler/Liveness/Pass.antt =====
-- What a pass of dep_loop in src/scheduler.cpp keeps of the tasks and the accelerators.
use mathlib.Core.Bool.{false≢true}
use ece506scheduler.Base.{
  ◌+◌, ◌≡◌, sym, ◌∙◌, inl, inr, true, List, [], ◌∷◌, ◌++◌, All, All-append, length, length-append,
  ap, subst, Bool-cases, if_ind, arith,
}
use ece506scheduler.Task.{Task}
use ece506scheduler.Registry.{IsKeyed}
use ece506scheduler.Scheduler.Deps.{deps_satisfied}
use ece506scheduler.Scheduler.Accelerators.{Accelerators}
use ece506scheduler.Scheduler.Impl.{Impl, make_ready}
use ece506scheduler.Scheduler.Threads.{dep_visit, dep_pass}
use ece506scheduler.Scheduler.Frame.{make_ready-queues}
use ece506scheduler.Scheduler.Passes.{make_ready-pq, make_ready-stop}
use ece506scheduler.Scheduler.Loop.{IsLive}
use ece506scheduler.Scheduler.Staffed.{Duty, Has, IsSteady, make_ready-Has}

module _ {A W : Type 0} (ops : Accelerators A W) (P : Duty → A → Type 0) (steady : IsSteady ops P)
    (Q : Task → Type 0) (made : (t : Task) → Q t → Q (record t { ready = true })) where
  -- What a visit of `ts` leaves, where each of the tasks satisfies `Q`.
  pub record Passes (kept ts : List Task) (s s' : Impl A W) : Type 0 where
    pub live : IsLive ops s → IsLive ops s'
    pub staffed : Has P s.accelerators → Has P s'.accelerators
    pub all_waiting : All Q kept → All Q ts → All Q s'.waiting
    pub all_queued : All Q ts → All Q s.ready.pq → All Q s'.ready.pq
    pub same_length :
        length s'.waiting + length s'.ready.pq ≡ length kept + length ts + length s.ready.pq

  make_ready-IsLive : (t : Task) (s : Impl A W) → IsLive ops s → IsLive ops (make_ready ops t s)
  make_ready-IsLive t s v =
      let (_, _, _, _, _, run, g) = make_ready-queues ops t s in
      record {
        keyed = subst IsKeyed (sym g) v.keyed;
        running = run ∙ v.running;
        live = make_ready-stop ops t s ∙ v.live;
      }

  pub dep_visit-Passes :
      (ts kept : List Task) (s : Impl A W) → Passes kept ts s (dep_visit ops kept ts s)
  unfolding dep_visit
  dep_visit-Passes [] kept s = record {
    live = λ v. record { keyed = v.keyed; running = v.running; live = v.live };
    staffed = λ h. h;
    all_waiting = λ h k. h;
    all_queued = λ h k. k;
    same_length = omega arith;
  }
  dep_visit-Passes (t ∷ ts) kept s = elim (Bool-cases (deps_satisfied t s.completed)) [
    | inl met ↦
        rw (met, dep_visit)
          (let v = dep_visit-Passes ts kept (make_ready ops t s) in
            let q = make_ready-pq ops t s in
            record {
              live = λ h. v.live (make_ready-IsLive t s h);
              staffed = λ h. v.staffed (make_ready-Has ops P steady t s h);
              all_waiting = λ h k. v.all_waiting h k.1;
              all_queued = λ h k. v.all_queued h.1 (rw q (made t h.0, k));
              same_length = omega (arith, v.same_length, ap (λ (l : List Task). length l) q);
            })
    | inr unmet ↦
        rw (unmet, dep_visit)
          (let v = dep_visit-Passes ts (kept ++ t ∷ []) s in
            record {
              live = v.live;
              staffed = v.staffed;
              all_waiting = λ h k. v.all_waiting (All-append Q kept (t ∷ []) h (k.0, tt)) k.1;
              all_queued = λ h k. v.all_queued h.1 k;
              same_length = omega (arith, v.same_length, length-append kept (t ∷ []));
            })
  ]

  pub dep_pass-Passes : (s : Impl A W) → s.running ≡ true → Passes [] s.waiting s (dep_pass ops s)
  unfolding dep_pass
  dep_pass-Passes s on =
      if_ind (Passes [] s.waiting s) s.running (λ _. dep_visit-Passes s.waiting [] s)
        (λ off. absurd (false≢true (sym off ∙ on)))
