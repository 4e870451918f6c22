-- ===== src/Scheduler/Interleaved/Watch.antt =====
-- What a step of the dependency watcher does to the tasks.
use ece506scheduler.Base.{
  ℕ, pos, ◌+◌, ◌≡◌, refl, ◌∙◌, ap, true, List, [], ◌∷◌, ◌++◌, arith, count, count-nil, count-cons,
  count-append, if_ind, Bool-cases, inl, inr,
}
use ece506scheduler.Task.{Task}
use ece506scheduler.Scheduler.Deps.{deps_satisfied}
use ece506scheduler.Scheduler.Accelerators.{Accelerators}
use ece506scheduler.Scheduler.Impl.{Impl}
use ece506scheduler.Scheduler.Passes.{task_id}
use ece506scheduler.Scheduler.Frame.{record_ready-SameTasks}
use ece506scheduler.Scheduler.Interleaved.{Watcher, asleep, visiting, releasing, counting, watch}
use ece506scheduler.Scheduler.Interleaved.Weights.{watched}
use ece506scheduler.Scheduler.Interleaved.Relied.{Advanced, same-Advanced, push-Advanced}

-- The task that the watcher is about to push has its dependencies complete.
abbrev pub Trusts : List ℕ → Watcher → Type 0
Trusts completed (releasing kept t todo) = deps_satisfied t completed ≡ true
Trusts completed _ = Unit

-- While the watcher holds mu_wait_, nothing of waiting_ stands elsewhere.
abbrev pub Holds : Watcher → List Task → Type 0
Holds asleep waiting = Unit
Holds _ waiting = waiting ≡ []

abbrev pub Watched : {A W : Type 0} → Watcher → Impl A W → Watcher × Impl A W → Type 0
Watched w s (w', s') =
    Advanced (λ k. watched k w) s (λ k. watched k w') (λ cs rs. Trusts cs w') s'
    × Holds w' s'.waiting

module _ {A W : Type 0} where
  -- A step that changes waiting_ alone.
  waiting-Advanced :
      (w w' : Watcher) (s : Impl A W) (ts : List Task)
      → Trusts s.completed w'
      → ((k : ℕ) → count task_id k ts + watched k w' ≡ count task_id k s.waiting + watched k w)
      → Advanced
          (λ k. watched k w)
          s
          (λ k. watched k w')
          (λ cs rs. Trusts cs w')
          (record s { waiting = ts })
  waiting-Advanced w w' s ts h same = record {
    grows = record { deps = λ u m. m; reports = λ d m. m };
    queue = λ q. q;
    earned = λ e. e;
    relied = h;
    moved = λ k. omega (arith, same k);
  }

module _ {A W : Type 0} (ops : Accelerators A W) where
  visit-Watched :
      (kept : List Task) (t : Task) (todo : List Task) (s : Impl A W)
      → s.waiting ≡ []
      → Watched (visiting kept (t ∷ todo)) s (watch ops (visiting kept (t ∷ todo)) s)
  unfolding watch
  visit-Watched kept t todo s e = elim (Bool-cases (deps_satisfied t s.completed)) [
    | inl met ↦ rw met (
      waiting-Advanced (visiting kept (t ∷ todo)) (releasing kept t todo) s s.waiting met
          (λ k. omega (arith, count-cons task_id k t todo)),
      e,
    )
    | inr unmet ↦ rw unmet (
      waiting-Advanced (visiting kept (t ∷ todo)) (visiting (kept ++ t ∷ []) todo) s s.waiting tt
          (λ k. omega (
            arith,
            count-append task_id k kept (t ∷ []),
            count-cons task_id k t [],
            count-cons task_id k t todo,
            count-nil task_id k,
          )),
      e,
    )
  ]

  asleep-Watched : (s : Impl A W) → Watched asleep s (watch ops asleep s)
  unfolding watch
  asleep-Watched s =
      if_ind (Watched asleep s) s.running
        (λ _. (
          waiting-Advanced asleep (visiting [] s.waiting) s [] tt
              (λ k. omega (arith, count-nil task_id k)),
          refl,
        ))
        (λ _. (waiting-Advanced asleep asleep s s.waiting tt (λ k. refl), tt))

  -- Every step of the watcher.
  pub watch-Watched :
      (w : Watcher) (s : Impl A W)
      → Trusts s.completed w
      → Holds w s.waiting
      → Watched w s (watch ops w s)
  unfolding watch
  watch-Watched asleep s h e = asleep-Watched s
  watch-Watched (visiting kept []) s h e = (
    waiting-Advanced (visiting kept []) asleep s kept tt
        (λ k. omega (arith, count-nil task_id k, ap (count task_id k) e)),
    tt,
  )
  watch-Watched (visiting kept (t ∷ todo)) s h e = visit-Watched kept t todo s e
  watch-Watched (releasing kept t todo) s h e = (push-Advanced t _ _ s _ h tt (λ k. omega arith), e)
  watch-Watched (counting kept t todo) s h e =
      let f = record_ready-SameTasks ops t (pos 1) s in
      (same-Advanced _ _ s _ _ f tt (λ k. refl), f.waiting ∙ e)
