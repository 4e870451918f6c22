-- ===== src/Scheduler/Rounds.antt =====
-- What one round of worker_loop in src/scheduler.cpp does with the task that it took.
use ece506scheduler.Base.{
  if_ind, ℕ, negsuc, ◌≡◌, refl, sym, subst, ◌∙◌, false, ◌∷◌, ◌++◌, Option, none, some, text, ap,
  get_elem?, set, if◌then◌else◌,
}
use ece506scheduler.Task.{Task, ExecutionResult, AppDescriptor}
use ece506scheduler.Dash.CompletionBus.{fulfill}
use ece506scheduler.Registry.{find_app, IsKeyed}
use ece506scheduler.Scheduler.Deps.{mark_complete}
use ece506scheduler.Scheduler.Accelerators.{Accelerators, IsLawful}
use ece506scheduler.Scheduler.Impl.{Impl, record_ready, select_accelerator}
use ece506scheduler.Scheduler.Threads.{worker_body, run_on, report, report_and_mark, failure}
use ece506scheduler.Scheduler.Select.{select_accelerator-stands}
use ece506scheduler.Scheduler.Frame.{
  SameTasks, record_ready-SameTasks, select_accelerator-SameTasks,
}

-- What a round of worker_loop makes of a state, once it has the task `t`.
pub record Worked {A W : Type 0} (t : Task) (s s' : Impl A W) : Type 0 where
  pub result : ExecutionResult
  pub id : result.id ≡ t.id
  pub reported : s'.reported ≡ result ∷ s.reported
  pub bus : s'.bus ≡ fulfill t.id result.ok s.bus
  pub completed : s'.completed ≡ (if result.ok then mark_complete t.id s.completed else s.completed)
  pub ready : s'.ready ≡ s.ready
  pub reg : s'.reg ≡ s.reg
  pub waiting : s'.waiting ≡ s.waiting
  pub running : s'.running ≡ s.running

module _ {A W : Type 0} (ops : Accelerators A W) where
  report-Worked :
      (t : Task) (r : ExecutionResult) (s : Impl A W)
      → r.id ≡ t.id
      → r.ok ≡ false
      → Worked t s (report ops r s)
  unfolding report
  report-Worked t r s e failed = record {
    result = r;
    id = e;
    reported = refl;
    bus = rw e;
    completed = rw failed;
    ready = refl;
    reg = refl;
    waiting = refl;
    running = refl;
  }

  report_and_mark-Worked :
      (t : Task) (r : ExecutionResult) (s : Impl A W)
      → r.id ≡ t.id
      → Worked t s (report_and_mark ops t r s)
  unfolding report_and_mark report
  report_and_mark-Worked t r s e =
      if_ind (Worked t s) r.ok
        (λ ok. record {
          result = r;
          id = e;
          reported = refl;
          bus = rw e;
          completed = rw ok;
          ready = refl;
          reg = refl;
          waiting = refl;
          running = refl;
        })
        (λ failed. record {
          result = r;
          id = e;
          reported = refl;
          bus = rw e;
          completed = rw failed;
          ready = refl;
          reg = refl;
          waiting = refl;
          running = refl;
        })

  Worked-SameTasks :
      (t : Task) (s s' s'' : Impl A W) → SameTasks s s' → Worked t s' s'' → Worked t s s''
  Worked-SameTasks t s s' s'' f w = record {
    result = w.result;
    id = w.id;
    reported = w.reported ∙ ap (λ l. w.result ∷ l) f.reported;
    bus = w.bus ∙ ap (fulfill t.id w.result.ok) f.bus;
    completed = w.completed ∙ ap (λ l. if w.result.ok then mark_complete t.id l else l) f.completed;
    ready = w.ready ∙ f.ready;
    reg = w.reg ∙ f.reg;
    waiting = w.waiting ∙ f.waiting;
    running = w.running ∙ f.running;
  }

  module _ (lawful : IsLawful ops) where
    run_on-Worked :
        (i : ℕ) (t : Task) (app : AppDescriptor) (s : Impl A W) (a : A)
        → get_elem? s.accelerators i ≡ some a
        → Worked t s (run_on ops i t app s)
    unfolding run_on
    run_on-Worked i t app s a e =
        rw (e, run_on)
          (let (r, a', w') = ops.run t app a s.world in
            let s' = record s { accelerators = set s.accelerators i a'; world = w' } in
            Worked-SameTasks t s s' _
              (record {
                reg = refl;
                ready = refl;
                completed = refl;
                waiting = refl;
                reported = refl;
                bus = refl;
                running = refl;
              })
              (report_and_mark-Worked t r s' (lawful.run_id t app a s.world)))

    select-Worked :
        (t : Task) (app : AppDescriptor) (s : Impl A W) (o : Option ℕ)
        → app.app ≡ t.app
        → (select_accelerator ops t app s).0 ≡ o
        → Worked t s (
            let s' = (select_accelerator ops t app s).1 in
            elim o [
              | none ↦ report ops (failure t (text "No accelerator available")) s'
              | some i ↦ run_on ops i t app s'
            ])
    select-Worked t app s none named e =
        Worked-SameTasks t s _ _ (select_accelerator-SameTasks ops t app s)
          (report-Worked t (failure t (text "No accelerator available")) _ refl refl)
    select-Worked t app s (some i) named e =
        let (a, stands) = select_accelerator-stands ops lawful t app s i named e in
        Worked-SameTasks t s _ _ (select_accelerator-SameTasks ops t app s)
          (run_on-Worked i t app _ a stands)

    counted-Worked :
        (t : Task) (s : Impl A W) (o : Option AppDescriptor)
        → IsKeyed s.reg
        → find_app t.app s.reg ≡ o
        → Worked t s (elim o [
          | none ↦ report ops (failure t (text "Unknown app: " ++ t.app)) s
          | some app ↦
              let (chosen, s') = select_accelerator ops t app s in
              elim chosen [
                | none ↦ report ops (failure t (text "No accelerator available")) s'
                | some i ↦ run_on ops i t app s'
              ]
        ])
    counted-Worked t s none keyed e = report-Worked t _ s refl refl
    counted-Worked t s (some app) keyed e = select-Worked t app s _ (keyed t.app app e) refl

    pub worker_body-Worked :
        (t : Task) (s : Impl A W) → IsKeyed s.reg → Worked t s (worker_body ops t s)
    unfolding worker_body
    worker_body-Worked t s keyed =
        let f = record_ready-SameTasks ops t (negsuc 0) s in
        Worked-SameTasks t s _ _ f (
          counted-Worked t (record_ready ops t (negsuc 0) s) _ (subst IsKeyed (sym f.reg) keyed)
            refl)
