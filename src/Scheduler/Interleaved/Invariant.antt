-- ===== src/Scheduler/Interleaved/Invariant.antt =====
-- What holds in every state that the threads reach, when each access is a step of its own.
use ece506scheduler.Base.{
  ℕ, pos, negsuc, ◌≡◌, refl, sym, subst, ap, List, [], ◌∷◌, ◌++◌, Option, some, none, arith, All,
  All-append, All-split,
}
use ece506scheduler.Task.{Task, ExecutionResult, AppDescriptor}
use ece506scheduler.Scheduler.Frame.{record_ready-SameTasks, select_accelerator-SameTasks}
use ece506scheduler.Scheduler.Accelerators.{Accelerators, IsLawful}
use ece506scheduler.Scheduler.Impl.{Impl, add_accelerator}
use ece506scheduler.Scheduler.Threads.{report}
use ece506scheduler.Scheduler.Interleaved.{
  Phase, MayAdvance, Watcher, Process, advance, listed, Step, submits, advances, watches, takes,
  subscribes, registers, adds, starts, stops, Reach, here, next, asleep,
}
use ece506scheduler.Scheduler.Interleaved.Weights.{
  weight_of, held, held-nil, held-cons, held-append,
}
use ece506scheduler.Scheduler.Interleaved.Relied.{Relies, ReliesIf}
use ece506scheduler.Scheduler.Interleaved.Advance.{advance-Next}
use ece506scheduler.Scheduler.Interleaved.Watch.{Holds}
use ece506scheduler.Scheduler.Interleaved.Sound.{
  IsSound, Grows-Trusts, Grows-phases, watch-IsSound, submit-IsSound, take-IsSound, same-IsSound,
  start-IsSound, stop-IsSound,
}

module _ {A W : Type 0} (ops : Accelerators A W) where
  module _ (lawful : IsLawful ops) where
    ReliesIf-listed :
        (cs : List ℕ) (rs : List ExecutionResult) (o : Option Phase)
        → ReliesIf cs rs o
        → All (Relies cs rs) (listed ops o)
    ReliesIf-listed cs rs none h = tt
    ReliesIf-listed cs rs (some p) h = (h, tt)

    held-listed : (k : ℕ) (o : Option Phase) → held k (listed ops o) ≡ weight_of k o
    held-listed k none = held-nil k
    held-listed k (some p) = omega (arith, held-cons k p [], held-nil k)

    run-waiting :
        (i : ℕ) (t : Task) (app : AppDescriptor) (s : Impl A W)
        → (advance ops (Phase.running i t app) s).1.waiting ≡ s.waiting
    unfolding advance
    run-waiting i t app s = ground arith

    Holds-asleep : (w : Watcher) (ts : List Task) → w ≡ asleep → Holds w ts
    Holds-asleep w ts e = subst (λ v. Holds v ts) (sym e) tt

    -- Only the thread that has mu_wait_ changes waiting_.
    advance-Holds :
        (p : Phase) (w : Watcher) (s : Impl A W)
        → MayAdvance ops p w
        → Holds w s.waiting
        → Holds w (advance ops p s).1.waiting
    unfolding advance report
    advance-Holds (Phase.entering t) w s may h = h
    advance-Holds (Phase.pushing t) w s may h = h
    advance-Holds (Phase.holding t) w s may h = Holds-asleep w _ may
    advance-Holds (Phase.raising t) w s may h =
        rw (record_ready-SameTasks ops t (pos 1) s).waiting h
    advance-Holds (Phase.lowering t) w s may h =
        rw (record_ready-SameTasks ops t (negsuc 0) s).waiting h
    advance-Holds (Phase.looking t) w s may h = h
    advance-Holds (Phase.choosing t app) w s may h =
        rw (select_accelerator-SameTasks ops t app s).waiting h
    advance-Holds (Phase.running i t app) w s may h =
        subst (Holds w) (sym (run-waiting i t app s)) h
    advance-Holds (Phase.reporting t r) w s may h = h
    advance-Holds (Phase.marking t) w s may h = h

    advance-IsSound :
        (c : Process A W) (before : List Phase) (p : Phase) (after : List Phase)
        → c.phases ≡ before ++ p ∷ after
        → MayAdvance ops p c.watcher
        → IsSound c
        → IsSound (record c {
          impl = (advance ops p c.impl).1;
          phases = before ++ (listed ops (advance ops p c.impl).0 ++ after);
        })
    advance-IsSound c before p after e may h =
        let (o, s') = advance ops p c.impl in
        let (l, m) = All-split _ before (p ∷ after) (subst (All _) e h.relied) in
        let a = advance-Next ops lawful p c.impl m.0 in
        record {
          queue = a.queue h.queue;
          earned = a.earned h.earned;
          relied = All-append _ before _ (Grows-phases c.impl s' before a.grows l) (
              All-append _ (listed ops o) after (ReliesIf-listed _ _ o a.relied)
                (Grows-phases c.impl s' after a.grows m.1));
          trusted = Grows-Trusts c.impl s' c.watcher a.grows h.trusted;
          exclusive = advance-Holds p c.watcher c.impl may h.exclusive;
          conserved = λ k. omega (
            arith,
            h.conserved k,
            a.moved k,
            ap (held k) e,
            held-append k before (p ∷ after),
            held-cons k p after,
            held-append k before (listed ops o ++ after),
            held-append k (listed ops o) after,
            held-listed k o,
          );
        }

    -- Every step keeps what the threads rely on.
    pub Step-IsSound : {c d : Process A W} → Step ops c d → IsSound c → IsSound d
    unfolding add_accelerator
    Step-IsSound {c} (submits t e) h = rw e (submit-IsSound ops t c h)
    Step-IsSound {c} (advances before p after b may e) h =
        rw e (advance-IsSound c before p after b may h)
    Step-IsSound {c} (watches e) h = rw e (watch-IsSound ops c h)
    Step-IsSound {c} (takes t s w e) h = rw e (take-IsSound ops c t s w h)
    Step-IsSound {c} (subscribes id e) h = rw e (same-IsSound ops c _ refl refl refl refl h)
    Step-IsSound {c} (registers app e) h = rw e (same-IsSound ops c _ refl refl refl refl h)
    Step-IsSound {c} (adds a e) h = rw e (same-IsSound ops c _ refl refl refl refl h)
    Step-IsSound {c} (starts e) h = rw e (start-IsSound ops c h)
    Step-IsSound {c} (stops e) h = rw e (stop-IsSound ops c h)

    pub Reach-IsSound : {c d : Process A W} → Reach ops c d → IsSound c → IsSound d
    Reach-IsSound here h = h
    Reach-IsSound (next r s) h = Step-IsSound s (Reach-IsSound r h)
