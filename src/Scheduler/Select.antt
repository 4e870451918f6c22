-- ===== src/Scheduler/Select.antt =====
-- Which accelerator select_accelerator of src/scheduler.cpp answers.
mod Candidates
mod Slots
use mathlib.Core.List.{Memᴰ}
use mathlib.Core.Bool.{false≢true}
use ece506scheduler.Base.{
  All-Memᴰ, subst, ℕ, zero, suc, ◌+◌, ◌<◌, ◌≡◌, refl, sym, ◌∙◌, ap, ◌⊎◌, inl, inr, Bool, true,
  false, not, ◌&&◌, List, [], ◌∷◌, Option, none, some, Text, text_eq, text_eq_iff, arith, All,
  All-map, length, length-set, get_elem?, set, get_elem?-set_self, lt-get_elem?, get_elem?-lt,
  Bool-cases, Option-cases, if_ind, is_empty, if◌then◌else◌, ◌==◌,
}
use ece506scheduler.Task.{Task, AppDescriptor, cpu, kind_rank}
use ece506scheduler.Scheduler.Accelerators.{Accelerators, IsLawful}
use ece506scheduler.Scheduler.Impl.{
  Impl, fallback, candidates, load_at, try_slot, try_slots, select_accelerator,
}
use Candidates.{candidates-Memᴰ, UsableAt, candidates-Usable, candidates_complete}
use Slots.{try_slots-NoneHold, Holds, FoundIn-length, FoundIn, try_slots-FoundIn}

module _ {A W : Type 0} (ops : Accelerators A W) where
  open ops use {is_available, is_reconfigurable}

  -- What select_accelerator promises of its answer. With none, no accelerator that it may use is
  -- available. The chosen one is available, and is a slot that now holds the app, or one that is not
  -- reconfigurable, or a reconfigurable one where no other kind is available.
  abbrev pub Selects : Task → Impl A W → Option ℕ × Impl A W → Type 0
  Selects t s (none, s') =
      All (λ a. is_available a s.world ≡ true → is_reconfigurable a ≡ true) s.accelerators
      × ((s.use_cpu ≡ true) ⊎ All (λ a. is_available a s.world ≡ false) s.accelerators)
  Selects t s (some i, s') =
      (a : A) × (get_elem? s.accelerators i ≡ some a)
      × (is_available a s.world ≡ true)
      × ((is_reconfigurable a ≡ false)
          ⊎ ((s.use_cpu ≡ false)
              × (is_reconfigurable a ≡ true)
              × (Holds ops t.app s'.accelerators i
                  ⊎ All (λ b. is_available b s.world ≡ true → is_reconfigurable b ≡ true)
                      s.accelerators)))

  module _ (s : Impl A W) where
    usable_at :
        (kind : Bool) (i : ℕ)
        → UsableAt ops kind s.world 0 s.accelerators i
        → (a : A) × (get_elem? s.accelerators i ≡ some a)
          × (is_available a s.world ≡ true)
          × (is_reconfigurable a ≡ kind)
    usable_at kind i u = (
      u.object,
      subst (λ j. get_elem? s.accelerators j ≡ some u.object) (omega (arith, u.position)) u.stands,
      u.available,
      u.kind_lem,
    )

    unavailable :
        (l : List A)
        → All (λ a. is_available a s.world ≡ true → is_reconfigurable a ≡ true) l
        → All (λ a. is_available a s.world ≡ true → is_reconfigurable a ≡ false) l
        → All (λ a. is_available a s.world ≡ false) l
    unavailable [] h k = tt
    unavailable (a ∷ l) h k = (
      elim (Bool-cases (is_available a s.world)) [
        | inl on ↦ absurd (false≢true (sym (k.0 on) ∙ h.0 on))
        | inr off ↦ off
      ],
      unavailable l h.1 k.1,
    )

    fallback-Selects :
        (t : Task) (s' : Impl A W) (b : Bool) (cpus slots : List ℕ)
        → s.use_cpu ≡ b
        → candidates ops 0 s.world s.accelerators ≡ (cpus, slots)
        → Selects t s (fallback b cpus slots, s')
    fallback-Selects t s' b (i ∷ cpus) slots e f =
        let u = (candidates-Usable ops 0 s.world s.accelerators).0 in
        let (a, stands, on, kind) =
          usable_at false i
            (subst (λ c. All (UsableAt ops false s.world 0 s.accelerators) c.0) f u).0 in
        (a, stands, on, inl kind)
    fallback-Selects t s' true [] slots e f =
        ((candidates_complete ops 0 s.world s.accelerators).0 (ap (λ c. c.0) f), inl e)
    fallback-Selects t s' false [] [] e f =
        let (c, r) = candidates_complete ops 0 s.world s.accelerators in
        let all_slots = c (ap (λ p. p.0) f) in
        (all_slots, inr (unavailable s.accelerators all_slots (r (ap (λ p. p.1) f))))
    fallback-Selects t s' false [] (j ∷ slots) e f =
        let u = (candidates-Usable ops 0 s.world s.accelerators).1 in
        let (a, stands, on, kind) =
          usable_at true j
            (subst (λ c. All (UsableAt ops true s.world 0 s.accelerators) c.1) f u).0 in
        let c = (candidates_complete ops 0 s.world s.accelerators).0 in
        (a, stands, on, inr (e, kind, inr (c (ap (λ p. p.0) f))))

    -- The answer, from what the loop over the slots returned.
    abbrev answer : Option ℕ × List A × W → Option ℕ × Impl A W
    answer (found, accs, w) =
        let (cpus, slots) = candidates ops 0 s.world s.accelerators in
        (
          elim found [ some i ↦ some i | none ↦ fallback s.use_cpu cpus slots ],
          record s { accelerators = accs; world = w },
        )

    found-Selects :
        (t : Task) (r : Option ℕ × List A × W)
        → s.use_cpu ≡ false
        → FoundIn ops t.app s.accelerators (candidates ops 0 s.world s.accelerators).1 r
        → Selects t s (answer r)
    found-Selects t (none, accs, w) e f = fallback-Selects t _ s.use_cpu _ _ refl refl
    found-Selects t (some i, accs, w) e (same, m, held) =
        let u = (candidates-Usable ops 0 s.world s.accelerators).1 in
        let (a, stands, on, kind) = usable_at true i (All-Memᴰ _ _ m u) in
        (a, stands, on, inr (e, kind, inl held))

    -- What the loop over the slots leaves, or the state as it was where the loop is not reached.
    abbrev looped : Task → AppDescriptor → Bool → Bool → Option ℕ × List A × W
    looped t app b c =
        if not b && not c
        then try_slots ops t.app app (candidates ops 0 s.world s.accelerators).1 s.accelerators
            s.world
        else (none, s.accelerators, s.world)

    module _ (lawful : IsLawful ops) (t : Task) (app : AppDescriptor)
        (named : app.app ≡ t.app) where
      loop-FoundIn :
          FoundIn ops t.app s.accelerators
            (candidates ops 0 s.world s.accelerators).1
            (looped t app false false)
      loop-FoundIn =
          let slots = (candidates ops 0 s.world s.accelerators).1 in
          subst
            (λ n.
              FoundIn ops n s.accelerators slots (try_slots ops n app slots s.accelerators s.world))
            named (try_slots-FoundIn ops lawful app slots s.accelerators s.world)

      branch-Selects : (b c : Bool) → s.use_cpu ≡ b → Selects t s (answer (looped t app b c))
      branch-Selects true c e = fallback-Selects t _ s.use_cpu _ _ refl refl
      branch-Selects false true e = fallback-Selects t _ s.use_cpu _ _ refl refl
      branch-Selects false false e = found-Selects t (looped t app false false) e loop-FoundIn

      branch-length :
          (b c : Bool) → length (answer (looped t app b c)).1.accelerators ≡ length s.accelerators
      branch-length true c = refl
      branch-length false true = refl
      branch-length false false = FoundIn-length ops t.app s.accelerators _ _ loop-FoundIn

  -- select_accelerator keeps that promise for every state, where the descriptor is that of the
  -- task's app and the accelerators keep their laws.
  pub select_accelerator-Selects :
      (lawful : IsLawful ops) (t : Task) (app : AppDescriptor) (s : Impl A W)
      → app.app ≡ t.app
      → Selects t s (select_accelerator ops t app s)
  unfolding select_accelerator
  select_accelerator-Selects lawful t app s named =
      branch-Selects s lawful t app named s.use_cpu (kind_rank t.required == kind_rank cpu) refl

  -- What select_accelerator promises of the loop over the slots: a scheduler that uses CPUs, or a task
  -- that asks for one, leaves the state as it is; else, where an available slot has the app already,
  -- the answer is a slot that has it.
  abbrev pub Prefers : Task → Impl A W → Option ℕ × Impl A W → Type 0
  Prefers t s (answer, s') =
      ((s.use_cpu ≡ true) ⊎ ((kind_rank t.required == kind_rank cpu) ≡ true) → s' ≡ s)
      × (s.use_cpu ≡ false
          → (kind_rank t.required == kind_rank cpu) ≡ false
          → (j : ℕ) (a : A) → get_elem? s.accelerators j ≡ some a
          → is_available a s.world ≡ true
          → is_reconfigurable a ≡ true
          → ops.slot_app a ≡ some t.app
          → (i : ℕ) × (answer ≡ some i) × Holds ops t.app s'.accelerators i)

  idle-same :
      (t : Task) (app : AppDescriptor) (s : Impl A W)
      → (s.use_cpu ≡ true) ⊎ ((kind_rank t.required == kind_rank cpu) ≡ true)
      → (select_accelerator ops t app s).1 ≡ s
  unfolding select_accelerator
  idle-same t app s (inl e) = rw (select_accelerator, e) refl
  idle-same t app s (inr e) =
      if_ind (λ (r : Option ℕ × List A × W). record s { accelerators = r.1; world = r.2 } ≡ s)
        (not s.use_cpu && not (kind_rank t.required == kind_rank cpu))
        (λ on. absurd (ground (arith, e))) (λ _. refl)

  held-found :
      (lawful : IsLawful ops) (t : Task) (app : AppDescriptor) (s : Impl A W) (j : ℕ) (a : A)
      → app.app ≡ t.app
      → get_elem? s.accelerators j ≡ some a
      → is_available a s.world ≡ true
      → is_reconfigurable a ≡ true
      → ops.slot_app a ≡ some t.app
      → (r : Option ℕ × List A × W) → r ≡ looped s t app false false
      → FoundIn ops t.app s.accelerators (candidates ops 0 s.world s.accelerators).1 r
      → (i : ℕ) × ((answer s r).0 ≡ some i) × Holds ops t.app r.1 i
  held-found lawful t app s j a named e on slot f (none, accs, w) loop found = absurd (
      try_slots-NoneHold ops t.app app (candidates ops 0 s.world s.accelerators).1 s.accelerators
        s.world (ap (λ r. r.0) (sym loop)) j
        (subst (λ k. Memᴰ k (candidates ops 0 s.world s.accelerators).1) (omega arith)
          (candidates-Memᴰ ops 0 j s.world s.accelerators a e on slot))
        (a, e, f))
  held-found lawful t app s j a named e on slot f (some i, accs, w) loop found = (i, refl, found.2)

  -- select_accelerator keeps both promises for every state, where the descriptor is that of the
  -- task's app and the accelerators keep their laws.
  pub select_accelerator-Prefers :
      (lawful : IsLawful ops) (t : Task) (app : AppDescriptor) (s : Impl A W)
      → app.app ≡ t.app
      → Selects t s (select_accelerator ops t app s) × Prefers t s (select_accelerator ops t app s)
  unfolding select_accelerator
  select_accelerator-Prefers lawful t app s named = (
    select_accelerator-Selects lawful t app s named,
    (
      idle-same t app s,
      λ plain other j a e on slot f.
          rw (select_accelerator, plain, other)
            (held-found lawful t app s j a named e on slot f (looped s t app false false) refl
              (loop-FoundIn s lawful t app named)),
    ),
  )

  -- It replaces accelerators, and neither adds nor drops one.
  pub length-select_accelerator :
      (lawful : IsLawful ops) (t : Task) (app : AppDescriptor) (s : Impl A W)
      → app.app ≡ t.app
      → length (select_accelerator ops t app s).1.accelerators ≡ length s.accelerators
  unfolding select_accelerator
  length-select_accelerator lawful t app s named =
      branch-length s lawful t app named s.use_cpu (kind_rank t.required == kind_rank cpu)

  -- So the answer is the position of an accelerator that the state still has.
  pub select_accelerator-stands :
      (lawful : IsLawful ops) (t : Task) (app : AppDescriptor) (s : Impl A W) (i : ℕ)
      → app.app ≡ t.app
      → (select_accelerator ops t app s).0 ≡ some i
      → (a : A) × (get_elem? (select_accelerator ops t app s).1.accelerators i ≡ some a)
  select_accelerator-stands lawful t app s i named e =
      let (a, stands, _, _) =
        subst (λ o. Selects t s (o, (select_accelerator ops t app s).1)) e
          (select_accelerator-Selects lawful t app s named) in
      get_elem?-lt _ i (
        omega (
          arith,
          lt-get_elem? s.accelerators i a stands,
          length-select_accelerator lawful t app s named,
        ))
