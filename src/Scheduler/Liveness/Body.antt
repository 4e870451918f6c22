-- ===== src/Scheduler/Liveness/Body.antt =====
-- A round of worker_loop in src/scheduler.cpp where an accelerator is there and each run succeeds.
use ece506scheduler.Base.{ℕ, negsuc, ◌≡◌, refl, ◌∙◌, ap, subst, true, List, All, some, get_elem?}
use ece506scheduler.Task.{Task, ExecutionResult, AppDescriptor}
use ece506scheduler.Registry.{IsKeyed, find_app}
use ece506scheduler.Scheduler.Deps.{mark_complete}
use ece506scheduler.Scheduler.Accelerators.{Accelerators, IsLawful}
use ece506scheduler.Scheduler.Impl.{Impl, record_ready, select_accelerator}
use ece506scheduler.Scheduler.Threads.{worker_body, run_on, report, report_and_mark}
use ece506scheduler.Scheduler.Select.{select_accelerator-stands}
use ece506scheduler.Scheduler.Staffed.{
  Duty, each, All-get_elem?, Has, IsSteady, set-Has, record_ready-Has, select_accelerator-Has,
  select_accelerator-finds,
}
use ece506scheduler.Scheduler.Frame.{record_ready-SameTasks, select_accelerator-SameTasks}

-- A report of success.
abbrev pub IsOk : ExecutionResult → Type 0
IsOk r = r.ok ≡ true

-- Each run on an accelerator with the duty of each ends in success.
abbrev pub Succeeds : {A W : Type 0} → Accelerators A W → (Duty → A → Type 0) → Type 0
Succeeds {A} {W} ops P =
    (t : Task) (d : AppDescriptor) (a : A) (w : W) → P each a → (ops.run t d a w).0.ok ≡ true

module _ {A W : Type 0} (ops : Accelerators A W) (P : Duty → A → Type 0) (steady : IsSteady ops P)
    (lawful : IsLawful ops) (succeeds : Succeeds ops P) where
  -- What a round leaves of a task that it finishes.
  abbrev pub Finishes : Task → Impl A W → Impl A W → Type 0
  Finishes t s s' =
      (s'.completed ≡ mark_complete t.id s.completed)
      × Has P s'.accelerators
      × (All IsOk s.reported → All IsOk s'.reported)

  run_on-Finishes :
      (i : ℕ) (t : Task) (app : AppDescriptor) (s : Impl A W) (a : A)
      → get_elem? s.accelerators i ≡ some a
      → Has P s.accelerators
      → Finishes t s (run_on ops i t app s)
  unfolding run_on report_and_mark report
  run_on-Finishes i t app s a e h =
      rw (e, run_on, succeeds t app a s.world (All-get_elem? (P each) s.accelerators i a e h.1))
        (
          refl,
          set-Has P s.accelerators i a _ e (steady.after_run t app a s.world) h,
          λ all. (refl, all),
        )

  -- A task whose app is registered is marked complete by the round that takes it.
  pub worker_body-Finishes :
      (t : Task) (app : AppDescriptor) (s : Impl A W)
      → IsKeyed s.reg
      → find_app t.app s.reg ≡ some app
      → Has P s.accelerators
      → Finishes t s (worker_body ops t s)
  unfolding worker_body
  worker_body-Finishes t app s keyed found h =
      let f = record_ready-SameTasks ops t (negsuc 0) s in
      let s1 = record_ready ops t (negsuc 0) s in
      let found1 : find_app t.app s1.reg ≡ some app = rw f.reg found in
      let h1 = record_ready-Has ops P steady t (negsuc 0) s h in
      let g = select_accelerator-SameTasks ops t app s1 in
      let named = keyed t.app app found in
      let (i, chosen) = select_accelerator-finds ops P steady lawful t app s1 named h1 in
      let (a, stands) = select_accelerator-stands ops lawful t app s1 i named chosen in
      let (c, k, all) =
        run_on-Finishes i t app (select_accelerator ops t app s1).1 a stands
          (select_accelerator-Has ops P steady t app s1 h1) in
      let after = run_on ops i t app (select_accelerator ops t app s1).1 in
      rw (found1, worker_body, chosen)
        (
          c ∙ ap (mark_complete t.id) (g.completed ∙ f.completed),
          k,
          subst (λ (l : List ExecutionResult). All IsOk l → All IsOk after.reported)
              (g.reported ∙ f.reported) all,
        )
