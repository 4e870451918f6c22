-- ===== src/Scheduler/Select/Slots.antt =====
-- The loop of select_accelerator over the slots, in src/scheduler.cpp.
use mathlib.Core.List.{Memᴰ}
use mathlib.Core.Bool.{false≢true}
use mathlib.Core.Option.{none-ne-some}
use ece506scheduler.Base.{
  ℕ, ◌≡◌, refl, ◌∙◌, ap, inl, inr, true, List, [], ◌∷◌, Option, none, some, Text, text_eq,
  text_eq_iff, length, length-set, get_elem?, get_elem?-set_self, lt-get_elem?, Bool-cases,
  Option-cases, arith, subst, sym, ◌⊎◌, false, ◌==◌, get_elem?-set_other,
}
use ece506scheduler.Task.{AppDescriptor}
use ece506scheduler.Scheduler.Accelerators.{Accelerators, IsLawful}
use ece506scheduler.Scheduler.Impl.{load_at, try_slot, try_slots}

module _ {A W : Type 0} (ops : Accelerators A W) where
  open ops use {slot_app, ensure_app_loaded}

  -- What a loop over slots leaves: it moves no accelerator, and the one that it returns is a slot
  -- which holds the app.
  abbrev pub Holds : Text → List A → ℕ → Type 0
  Holds name accs i = (a : A) × (get_elem? accs i ≡ some a) × (slot_app a ≡ some name)

  abbrev pub FoundIn : Text → List A → List ℕ → Option ℕ × List A × W → Type 0
  FoundIn name accs is (none, accs', w') = length accs' ≡ length accs
  FoundIn name accs is (some i, accs', w') =
      (length accs' ≡ length accs) × Memᴰ i is × Holds name accs' i

  FoundIn-next :
      (name : Text) (accs accs' : List A) (i : ℕ) (is : List ℕ) (r : Option ℕ × List A × W)
      → length accs' ≡ length accs
      → FoundIn name accs' is r
      → FoundIn name accs (i ∷ is) r
  FoundIn-next name accs accs' i is (none, l, w) e f = f ∙ e
  FoundIn-next name accs accs' i is (some j, l, w) e (f, m, h) = (f ∙ e, Memᴰ.tail m, h)

  module _ (lawful : IsLawful ops) (app : AppDescriptor) where
    load_at-Holds :
        (i : ℕ) (a : A) (accs : List A) (w : W) (current : Text)
        → get_elem? accs i ≡ some a
        → slot_app a ≡ some current
        → (load_at ops app i a accs w).0 ≡ true
        → Holds app.app (load_at ops app i a accs w).1 i
    unfolding load_at
    load_at-Holds i a accs w current e h ok = (
      (ensure_app_loaded app a w).1,
      get_elem?-set_self accs i _ (lt-get_elem? accs i a e),
      lawful.loads app a w current h ok,
    )

    load_at-length :
        (i : ℕ) (a : A) (accs : List A) (w : W)
        → length (load_at ops app i a accs w).1 ≡ length accs
    unfolding load_at
    load_at-length i a accs w = length-set accs i _

    try_slot-Holds :
        (i : ℕ) (accs : List A) (w : W)
        → (length (try_slot ops app.app app i accs w).1 ≡ length accs)
          × ((try_slot ops app.app app i accs w).0 ≡ true
              → Holds app.app (try_slot ops app.app app i accs w).1 i)
    unfolding try_slot
    try_slot-Holds i accs w = elim (Option-cases (get_elem? accs i)) [
      | inl e ↦ rw (e, try_slot) (refl, λ h. cc)
      | inr (a, e) ↦ elim (Option-cases (slot_app a)) [
        | inl f ↦ rw (e, try_slot, f) (refl, λ h. cc)
        | inr (current, f) ↦ elim (Bool-cases (text_eq current app.app)) [
          | inl same ↦
              rw (e, try_slot, f, same)
                (refl, λ h. (a, e, f ∙ ap some ((text_eq_iff current app.app).0 same)))
          | inr other ↦
              rw (e, try_slot, f, other)
                (load_at-length i a accs w, load_at-Holds i a accs w current e f)
        ]
      ]
    ]

    pub try_slots-FoundIn :
        (is : List ℕ) (accs : List A) (w : W)
        → FoundIn app.app accs is (try_slots ops app.app app is accs w)
    unfolding try_slots
    try_slots-FoundIn [] accs w = refl
    try_slots-FoundIn (i ∷ is) accs w =
        let (same, holds) = try_slot-Holds i accs w in
        let (_, accs', w') = try_slot ops app.app app i accs w in
        elim (Bool-cases (try_slot ops app.app app i accs w).0) [
          | inl hit ↦ rw (hit, try_slots, FoundIn) (same, Memᴰ.head refl, holds hit)
          | inr miss ↦
              rw (miss, try_slots, FoundIn)
                (FoundIn-next app.app accs accs' i is _ same (try_slots-FoundIn is accs' w'))
        ]

  other_tail : (i j : ℕ) (is : List ℕ) → (j == i) ≡ false → Memᴰ j (i ∷ is) → Memᴰ j is
  other_tail i j is ne (Memᴰ.head e) = absurd (ground (arith, e))
  other_tail i j is ne (Memᴰ.tail m) = m

  -- No accelerator at one of the positions is a slot with the app.
  abbrev pub NoneHold : Text → List A → List ℕ → Type 0
  NoneHold name accs is = (j : ℕ) → Memᴰ j is → Holds name accs j → ⊥

  try_slot-held :
      (name : Text) (app : AppDescriptor) (i : ℕ) (accs : List A) (w : W)
      → Holds name accs i
      → (try_slot ops name app i accs w).0 ≡ true
  unfolding try_slot
  try_slot-held name app i accs w (a, e, f) =
      let same = (text_eq_iff name name).1 refl in rw (e, try_slot, f, same) refl

  -- A try of a slot leaves the others as they are.
  try_slot-other :
      (name : Text) (app : AppDescriptor) (i j : ℕ) (accs : List A) (w : W)
      → (j == i) ≡ false
      → get_elem? (try_slot ops name app i accs w).1 j ≡ get_elem? accs j
  unfolding try_slot load_at
  try_slot-other name app i j accs w ne = elim (Option-cases (get_elem? accs i)) [
    | inl e ↦ rw (e, try_slot) refl
    | inr (a, e) ↦ elim (Option-cases (slot_app a)) [
      | inl f ↦ rw (e, try_slot, f) refl
      | inr (current, f) ↦ elim (Bool-cases (text_eq current name)) [
        | inl same ↦ rw (e, try_slot, f, same) refl
        | inr other ↦ rw (e, try_slot, f, other) (get_elem?-set_other accs i j _ ne)
      ]
    ]
  ]

  position-cases :
      (i j : ℕ) (is : List ℕ) → Memᴰ j (i ∷ is) → (j ≡ i) ⊎ (((j == i) ≡ false) × Memᴰ j is)
  position-cases i j is m = elim (Bool-cases (j == i)) [
    | inl e ↦ inl (ground arith)
    | inr ne ↦ inr (ne, other_tail i j is ne m)
  ]

  -- Where the loop finds nothing, none of its slots held the app.
  pub try_slots-NoneHold :
      (name : Text) (app : AppDescriptor) (is : List ℕ) (accs : List A) (w : W)
      → (try_slots ops name app is accs w).0 ≡ none
      → NoneHold name accs is
  unfolding try_slots
  try_slots-NoneHold name app [] accs w h j m k = elim m [ ]
  try_slots-NoneHold name app (i ∷ is) accs w h j m held =
      let (_, accs', w') = try_slot ops name app i accs w in
      elim (Bool-cases (try_slot ops name app i accs w).0) [
        | inl hit ↦
            let found : (try_slots ops name app (i ∷ is) accs w).0 ≡ some i =
              rw (hit, try_slots) refl in
            absurd (none-ne-some i (sym h ∙ found))
        | inr miss ↦
            let later : (try_slots ops name app is accs' w').0 ≡ none =
              sym (rw (miss, try_slots) refl) ∙ h in
            elim (position-cases i j is m) [
              | inl same ↦
                  let hit = try_slot-held name app i accs w (subst (Holds name accs) same held) in
                  absurd (false≢true (sym miss ∙ hit))
              | inr (ne, behind) ↦
                  let (a, e, f) = held in
                  try_slots-NoneHold name app is accs' w' later j behind
                    (a, try_slot-other name app i j accs w ne ∙ e, f)
            ]
      ]

  pub FoundIn-length :
      (name : Text) (accs : List A) (is : List ℕ) (r : Option ℕ × List A × W)
      → FoundIn name accs is r
      → length r.1 ≡ length accs
  FoundIn-length name accs is (none, l, w) f = f
  FoundIn-length name accs is (some j, l, w) f = f.0
