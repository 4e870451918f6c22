-- ===== src/Scheduler/Staffed.antt =====
-- That the scheduler keeps an accelerator of a kind among its own, in src/scheduler.cpp.
use mathlib.Core.Bool.{false≢true}
use mathlib.Core.Option.{none-ne-some, some-injective}
use ece506scheduler.Base.{
  ℕ, zero, suc, ℤ, pos, ◌≡◌, refl, sym, ◌∙◌, subst, ◌⊎◌, inl, inr, Bool, true, false, not, ◌&&◌,
  ◌||◌, ◌==◌, eqb_ℤ, is_empty, List, [], ◌∷◌, Option, none, some, Text, text_eq, get_elem?, set,
  if_ind, All, Option-cases, Bool-cases,
}
use ece506scheduler.Task.{Task, AppDescriptor, cpu, kind_rank}
use ece506scheduler.ReadyQueue.{push}
use ece506scheduler.Registry.{find_app}
use ece506scheduler.Scheduler.Accelerators.{Accelerators, IsLawful}
use ece506scheduler.Scheduler.Select.{Selects, select_accelerator-Selects}
use ece506scheduler.Scheduler.Impl.{
  Impl, update_count, candidates, load_at, try_slot, try_slots, select_accelerator, preload_slots,
  load_first, maybe_preload, record_ready, make_ready,
}

-- What is asked of one accelerator of a scheduler, and what is asked of each.
pub data Duty : Type 0 where
  one each : Duty

-- One of the accelerators satisfies `P`.
abbrev HasOne : {A : Type 0} → (A → Type 0) → List A → Type 0
HasOne P [] = ⊥
HasOne P (a ∷ accs) = P a ⊎ HasOne P accs

abbrev pub Has : {A : Type 0} → (Duty → A → Type 0) → List A → Type 0
Has P accs = HasOne (P one) accs × All (P each) accs

-- An accelerator with the first duty is there for any task: it is always available, and no slot. Both
-- duties stay with an accelerator that is used.
pub record IsSteady {A W : Type 0} (ops : Accelerators A W) (P : Duty → A → Type 0) : Type 0 where
  pub available : (a : A) (w : W) → P one a → ops.is_available a w ≡ true
  pub fixed : (a : A) → P one a → ops.is_reconfigurable a ≡ false
  pub after_load :
      (d : AppDescriptor) (a : A) (w : W) (duty : Duty)
      → P duty a
      → P duty (ops.ensure_app_loaded d a w).1
  pub after_run :
      (t : Task) (d : AppDescriptor) (a : A) (w : W) (duty : Duty)
      → P duty a
      → P duty (ops.run t d a w).1

set-HasOne :
    {A : Type 0} (P : A → Type 0) (accs : List A) (i : ℕ) (a a' : A)
    → get_elem? accs i ≡ some a
    → (P a → P a')
    → HasOne P accs
    → HasOne P (set accs i a')
set-HasOne P [] i a a' e k h = h
set-HasOne P (x ∷ accs) zero a a' e k (inl p) = inl (k (subst P (some-injective _ _ e) p))
set-HasOne P (x ∷ accs) zero a a' e k (inr h) = inr h
set-HasOne P (x ∷ accs) (suc i) a a' e k (inl p) = inl p
set-HasOne P (x ∷ accs) (suc i) a a' e k (inr h) = inr (set-HasOne P accs i a a' e k h)

set-All :
    {A : Type 0} (P : A → Type 0) (accs : List A) (i : ℕ) (a a' : A)
    → get_elem? accs i ≡ some a
    → (P a → P a')
    → All P accs
    → All P (set accs i a')
set-All P [] i a a' e k h = h
set-All P (x ∷ accs) zero a a' e k (p, h) = (k (subst P (some-injective _ _ e) p), h)
set-All P (x ∷ accs) (suc i) a a' e k (p, h) = (p, set-All P accs i a a' e k h)

pub All-get_elem? :
    {A : Type 0} (P : A → Type 0) (accs : List A) (i : ℕ) (a : A)
    → get_elem? accs i ≡ some a
    → All P accs
    → P a
All-get_elem? P [] i a e h = absurd (none-ne-some a e)
All-get_elem? P (x ∷ accs) zero a e (p, h) = subst P (some-injective _ _ e) p
All-get_elem? P (x ∷ accs) (suc i) a e (p, h) = All-get_elem? P accs i a e h

pub set-Has :
    {A : Type 0} (P : Duty → A → Type 0) (accs : List A) (i : ℕ) (a a' : A)
    → get_elem? accs i ≡ some a
    → ((duty : Duty) → P duty a → P duty a')
    → Has P accs
    → Has P (set accs i a')
set-Has P accs i a a' e k (h, all) =
    (set-HasOne (P one) accs i a a' e (k one) h, set-All (P each) accs i a a' e (k each) all)

module _ {A W : Type 0} (ops : Accelerators A W) (P : Duty → A → Type 0)
    (steady : IsSteady ops P) where
  load_at-Has :
      (app : AppDescriptor) (i : ℕ) (a : A) (accs : List A) (w : W)
      → get_elem? accs i ≡ some a
      → Has P accs
      → Has P (load_at ops app i a accs w).1
  unfolding load_at
  load_at-Has app i a accs w e = set-Has P accs i a _ e (steady.after_load app a w)

  try_slot-Has :
      (name : Text) (app : AppDescriptor) (i : ℕ) (accs : List A) (w : W)
      → Has P accs
      → Has P (try_slot ops name app i accs w).1
  unfolding try_slot
  try_slot-Has name app i accs w h = elim (Option-cases (get_elem? accs i)) [
    | inl e ↦ rw (e, try_slot) h
    | inr (a, e) ↦ elim (Option-cases (ops.slot_app a)) [
      | inl f ↦ rw (e, try_slot, f) h
      | inr (current, f) ↦ elim (Bool-cases (text_eq current name)) [
        | inl same ↦ rw (e, try_slot, f, same) h
        | inr other ↦ rw (e, try_slot, f, other) (load_at-Has app i a accs w e h)
      ]
    ]
  ]

  try_slots-Has :
      (name : Text) (app : AppDescriptor) (is : List ℕ) (accs : List A) (w : W)
      → Has P accs
      → Has P (try_slots ops name app is accs w).1
  unfolding try_slots
  try_slots-Has name app [] accs w h = h
  try_slots-Has name app (i ∷ is) accs w h =
      let k = try_slot-Has name app i accs w h in
      let (_, accs', w') = try_slot ops name app i accs w in
      elim (Bool-cases (try_slot ops name app i accs w).0) [
        | inl hit ↦ rw (hit, try_slots) k
        | inr miss ↦ rw (miss, try_slots) (try_slots-Has name app is accs' w' k)
      ]

  -- What load_first tries first, from the accelerator at position `i`.
  abbrev tried : AppDescriptor → ℕ → List A → W → Option A → Bool × List A × W
  tried app i accs w none = (false, accs, w)
  tried app i accs w (some a) = load_at ops app i a accs w

  tried-Has :
      (app : AppDescriptor) (i : ℕ) (accs : List A) (w : W) (o : Option A)
      → get_elem? accs i ≡ o
      → Has P accs
      → Has P (tried app i accs w o).1
  tried-Has app i accs w none e h = h
  tried-Has app i accs w (some a) e h = load_at-Has app i a accs w e h

  load_first-Has :
      (app : AppDescriptor) (is : List ℕ) (accs : List A) (w : W)
      → Has P accs
      → Has P (load_first ops app is accs w).0
  unfolding load_first
  load_first-Has app [] accs w h = h
  load_first-Has app (i ∷ is) accs w h =
      let k = tried-Has app i accs w (get_elem? accs i) refl h in
      let (_, accs', w') = tried app i accs w (get_elem? accs i) in
      elim (Bool-cases (tried app i accs w (get_elem? accs i)).0) [
        | inl ok ↦ rw (ok, load_first) k
        | inr failed ↦ rw (failed, load_first) (load_first-Has app is accs' w' k)
      ]

  maybe_preload-Has :
      (app : Text) (s : Impl A W)
      → Has P s.accelerators
      → Has P (maybe_preload ops app s).accelerators
  unfolding maybe_preload
  maybe_preload-Has app s h =
      if_ind (λ (s' : Impl A W). Has P s'.accelerators)
        (s.use_cpu || s.overlay_preload_threshold == 0) (λ _. h)
        (λ _. elim (Option-cases (find_app app s.reg)) [
          | inl e ↦ rw (e, maybe_preload) h
          | inr (desc, e) ↦ elim (Option-cases (preload_slots ops app 0 s.world s.accelerators)) [
            | inl f ↦ rw (e, f, maybe_preload) h
            | inr (slots, f) ↦
                rw (e, f, maybe_preload) (load_first-Has desc slots s.accelerators s.world h)
          ]
        ])

  pub record_ready-Has :
      (t : Task) (delta : ℤ) (s : Impl A W)
      → Has P s.accelerators
      → Has P (record_ready ops t delta s).accelerators
  unfolding record_ready
  record_ready-Has t delta s h =
      let (counts, high) =
        update_count s.overlay_preload_threshold t.app delta s.ready_app_counts in
      let s' = record s { ready_app_counts = counts } in
      if_ind (λ (s'' : Impl A W). Has P s''.accelerators) (eqb_ℤ delta (pos 0)) (λ _. h)
        (λ _.
          if_ind (λ (s'' : Impl A W). Has P s''.accelerators) (high && not (is_empty t.app))
            (λ _. maybe_preload-Has t.app s' h) (λ _. h))

  pub make_ready-Has :
      (t : Task) (s : Impl A W) → Has P s.accelerators → Has P (make_ready ops t s).accelerators
  unfolding make_ready
  make_ready-Has t s h =
      record_ready-Has (record t { ready = true }) (pos 1)
        (record s { ready = push (record t { ready = true }) s.ready }) h

  pub select_accelerator-Has :
      (t : Task) (app : AppDescriptor) (s : Impl A W)
      → Has P s.accelerators
      → Has P (select_accelerator ops t app s).1.accelerators
  unfolding select_accelerator
  select_accelerator-Has t app s h =
      let slots = (candidates ops 0 s.world s.accelerators).1 in
      if_ind (λ (r : Option ℕ × List A × W). Has P r.1)
        (not s.use_cpu && not (kind_rank t.required == kind_rank cpu))
        (λ _. try_slots-Has t.app app slots s.accelerators s.world h) (λ _. h)

  -- No list with such an accelerator has reconfigurable ones only among the available.
  not-All_slots :
      (accs : List A) (w : W)
      → HasOne (P one) accs
      → All (λ a. ops.is_available a w ≡ true → ops.is_reconfigurable a ≡ true) accs
      → ⊥
  not-All_slots [] w h all = h
  not-All_slots (a ∷ accs) w (inl p) all =
      false≢true (sym (steady.fixed a p) ∙ all.0 (steady.available a w p))
  not-All_slots (a ∷ accs) w (inr h) all = not-All_slots accs w h all.1

  -- With such an accelerator the choice never fails.
  pub select_accelerator-finds :
      (lawful : IsLawful ops) (t : Task) (app : AppDescriptor) (s : Impl A W)
      → app.app ≡ t.app
      → Has P s.accelerators
      → (i : ℕ) × ((select_accelerator ops t app s).0 ≡ some i)
  select_accelerator-finds lawful t app s named h =
      elim (Option-cases (select_accelerator ops t app s).0) [
        | inl e ↦
            let sel =
              subst (λ o. Selects ops t s (o, (select_accelerator ops t app s).1)) e
                (select_accelerator-Selects ops lawful t app s named) in
            absurd (not-All_slots s.accelerators s.world h.0 sel.0)
        | inr found ↦ found
      ]
