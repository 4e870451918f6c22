-- ===== src/Scheduler/Interleaved/Advance.antt =====
-- What a step of a thread does to the tasks and to what the threads rely on.
use ece506scheduler.Base.{
  ℕ, pos, negsuc, ◌==◌, ◌≡◌, refl, ap, true, List, [], ◌∷◌, ◌++◌, Option, none, some, All-map,
  arith, count-nil, count-cons, count-append, if_ind, if◌then◌else◌, Bool-cases, inl, inr,
  get_elem?, set, text,
}
use ece506scheduler.Task.{Task, ExecutionResult, AppDescriptor}
use ece506scheduler.Scheduler.Deps.{mark_complete, deps_satisfied, deps_satisfied_mark}
use ece506scheduler.Registry.{find_app}
use ece506scheduler.Scheduler.Accelerators.{Accelerators, IsLawful}
use ece506scheduler.Scheduler.Impl.{Impl, select_accelerator}
use ece506scheduler.Scheduler.Threads.{failure, report}
use ece506scheduler.Scheduler.Passes.{task_id, result_id}
use ece506scheduler.Scheduler.Safety.{succeeded}
use ece506scheduler.Scheduler.Frame.{record_ready-SameTasks, select_accelerator-SameTasks}
use ece506scheduler.Scheduler.Interleaved.{
  Phase, entering, pushing, holding, raising, lowering, looking, choosing, running, reporting,
  marking, advance,
}
use ece506scheduler.Scheduler.Interleaved.Weights.{weight, weight_of}
use ece506scheduler.Scheduler.Interleaved.Relied.{
  Relies, ReliesIf, Advanced, same-Advanced, same_state, push-Advanced,
}

abbrev Next : {A W : Type 0} → Phase → Impl A W → Option Phase × Impl A W → Type 0
Next p s (o, s') = Advanced (λ k. weight k p) s (λ k. weight_of k o) (λ cs rs. ReliesIf cs rs o) s'

module _ {A W : Type 0} (ops : Accelerators A W) (lawful : IsLawful ops) where
  looking-Next :
      (t : Task) (s : Impl A W)
      → deps_satisfied t s.completed ≡ true
      → Next (looking t) s (advance ops (looking t) s)
  unfolding advance
  looking-Next t s h = go (find_app t.app s.reg)
    where
      go :
          (o : Option AppDescriptor)
          → Next (looking t) s (
            some (elim o [
              | none ↦ reporting t (failure t (text "Unknown app: " ++ t.app))
              | some app ↦ choosing t app
            ]),
            s,
          )
      go none = same-Advanced _ _ s s _ (same_state s) (h, refl) (λ k. refl)
      go (some app) = same-Advanced _ _ s s _ (same_state s) h (λ k. refl)

  choosing-Next :
      (t : Task) (app : AppDescriptor) (s : Impl A W)
      → deps_satisfied t s.completed ≡ true
      → Next (choosing t app) s (advance ops (choosing t app) s)
  unfolding advance
  choosing-Next t app s h = go (select_accelerator ops t app s).0
    where
      go :
          (o : Option ℕ)
          → Next (choosing t app) s (
            some (elim o [
              | none ↦ reporting t (failure t (text "No accelerator available"))
              | some i ↦ running i t app
            ]),
            (select_accelerator ops t app s).1,
          )
      go none =
          same-Advanced _ _ s _ _ (select_accelerator-SameTasks ops t app s) (h, refl) (λ k. refl)
      go (some i) = same-Advanced _ _ s _ _ (select_accelerator-SameTasks ops t app s) h (λ k. refl)

  running-Next :
      (i : ℕ) (t : Task) (app : AppDescriptor) (s : Impl A W)
      → deps_satisfied t s.completed ≡ true
      → Next (running i t app) s (advance ops (running i t app) s)
  unfolding advance
  running-Next i t app s h = go (get_elem? s.accelerators i)
    where
      go :
          (o : Option A)
          → Next (running i t app) s (elim o [
            | none ↦ (some (running i t app), s)
            | some a ↦
                let (r, a', w') = ops.run t app a s.world in
                (
                  some (reporting t r),
                  record s { accelerators = set s.accelerators i a'; world = w' },
                )
          ])
      go none = same-Advanced _ _ s s _ (same_state s) h (λ k. refl)
      go (some a) =
          same-Advanced _ _ s _ _
            (record {
              reg = refl;
              ready = refl;
              completed = refl;
              waiting = refl;
              reported = refl;
              bus = refl;
              running = refl;
            })
            (h, lawful.run_id t app a s.world) (λ k. refl)

  succeeded-grows :
      (d : ℕ) (r : ExecutionResult) (rs : List ExecutionResult)
      → succeeded d rs ≡ true
      → succeeded d (r ∷ rs) ≡ true
  unfolding succeeded
  succeeded-grows d r rs h = ground arith

  report-Advanced :
      (t : Task) (r : ExecutionResult) (o : Option Phase) (s : Impl A W)
      → r.id ≡ t.id
      → ((k : ℕ) → weight_of k o ≡ 0)
      → ReliesIf s.completed (r ∷ s.reported) o
      → Next (reporting t r) s (o, report ops r s)
  unfolding report
  report-Advanced t r o s e light h = record {
    grows = record { deps = λ u m. m; reports = λ d m. succeeded-grows d r s.reported m };
    queue = λ q. q;
    earned = λ c. All-map _ _ s.completed (λ d m. succeeded-grows d r s.reported m) c;
    relied = h;
    moved = λ k. omega (
      arith,
      light k,
      count-cons result_id k r s.reported,
      ap {B = ℕ} (λ (n : ℕ). if n == k then 1 else 0) e,
    );
  }

  reporting-Next :
      (t : Task) (r : ExecutionResult) (s : Impl A W)
      → r.id ≡ t.id
      → Next (reporting t r) s (advance ops (reporting t r) s)
  unfolding advance succeeded
  reporting-Next t r s e =
      if_ind (λ o. Next (reporting t r) s (o, report ops r s)) r.ok
        (λ ok. report-Advanced t r (some (marking t)) s e (λ k. refl) (ground arith))
        (λ _. report-Advanced t r none s e (λ k. refl) tt)

  marking-Next :
      (t : Task) (s : Impl A W)
      → succeeded t.id s.reported ≡ true
      → Next (marking t) s (advance ops (marking t) s)
  unfolding advance mark_complete
  marking-Next t s h = record {
    grows = record { deps = λ u m. deps_satisfied_mark u t.id s.completed m; reports = λ d m. m };
    queue = λ q. All-map _ _ s.ready.pq (λ u m. deps_satisfied_mark u t.id s.completed m) q;
    earned = λ c. (h, c);
    relied = tt;
    moved = λ k. refl;
  }

  -- Every step of a thread.
  pub advance-Next :
      (p : Phase) (s : Impl A W) → Relies s.completed s.reported p → Next p s (advance ops p s)
  unfolding advance
  advance-Next (entering t) s h = elim (Bool-cases (deps_satisfied t s.completed)) [
    | inl met ↦ rw met (same-Advanced _ _ s s _ (same_state s) met (λ k. refl))
    | inr unmet ↦ rw unmet (same-Advanced _ _ s s _ (same_state s) tt (λ k. refl))
  ]
  advance-Next (pushing t) s h = push-Advanced t _ _ s _ h tt (λ k. omega arith)
  advance-Next (holding t) s h = record {
    grows = record { deps = λ u m. m; reports = λ d m. m };
    queue = λ q. q;
    earned = λ e. e;
    relied = tt;
    moved = λ k. omega (
      arith,
      count-append task_id k s.waiting (t ∷ []),
      count-cons task_id k t [],
      count-nil task_id k,
    );
  }
  advance-Next (raising t) s h =
      same-Advanced _ _ s _ _ (record_ready-SameTasks ops t (pos 1) s) tt (λ k. refl)
  advance-Next (lowering t) s h =
      same-Advanced _ _ s _ _ (record_ready-SameTasks ops t (negsuc 0) s) h (λ k. refl)
  advance-Next (looking t) s h = looking-Next t s h
  advance-Next (choosing t app) s h = choosing-Next t app s h
  advance-Next (running i t app) s h = running-Next i t app s h
  advance-Next (reporting t r) s h = reporting-Next t r s h.1
  advance-Next (marking t) s h = marking-Next t s h
