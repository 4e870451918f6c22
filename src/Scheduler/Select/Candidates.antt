-- ===== src/Scheduler/Select/Candidates.antt =====
-- The candidates that select_accelerator of src/scheduler.cpp collects.
use mathlib.Core.List.{Memᴰ}
use mathlib.Core.Option.{none-ne-some, some-injective}
use ece506scheduler.Base.{
  zero, subst, if_ind, not, ℕ, suc, ◌+◌, ◌≡◌, refl, inl, inr, Bool, true, false, List, [], ◌∷◌,
  some, arith, All, All-map, get_elem?, Bool-cases,
}
use ece506scheduler.Scheduler.Accelerators.{Accelerators}
use ece506scheduler.Scheduler.Impl.{candidates}

module _ {A W : Type 0} (ops : Accelerators A W) where
  open ops use {is_available, is_reconfigurable}

  -- At position `j` of a list that begins at position `i` stands an available accelerator, which is
  -- reconfigurable or not as `kind` says.
  pub record UsableAt (kind : Bool) (w : W) (i : ℕ) (l : List A) (j : ℕ) : Type 0 where
    pub offset : ℕ
    pub position : j ≡ i + offset
    pub object : A
    pub stands : get_elem? l offset ≡ some object
    pub available : is_available object w ≡ true
    pub kind_lem : is_reconfigurable object ≡ kind

  UsableAt-cons :
      (kind : Bool) (w : W) (i : ℕ) (l : List A) (a : A) (j : ℕ)
      → UsableAt kind w (suc i) l j
      → UsableAt kind w i (a ∷ l) j
  UsableAt-cons kind w i l a j u = record {
    offset = suc u.offset;
    position = omega (arith, u.position);
    object = u.object;
    stands = u.stands;
    available = u.available;
    kind_lem = u.kind_lem;
  }

  UsableAt-head :
      (kind : Bool) (w : W) (i : ℕ) (l : List A) (a : A)
      → is_available a w ≡ true
      → is_reconfigurable a ≡ kind
      → UsableAt kind w i (a ∷ l) i
  UsableAt-head kind w i l a h k = record {
    offset = 0;
    position = omega arith;
    object = a;
    stands = refl;
    available = h;
    kind_lem = k;
  }

  pub candidates-Usable :
      (i : ℕ) (w : W) (l : List A)
      → All (UsableAt false w i l) (candidates ops i w l).0
        × All (UsableAt true w i l) (candidates ops i w l).1
  unfolding candidates
  candidates-Usable i w [] = (tt, tt)
  candidates-Usable i w (a ∷ l) =
      let (c, r) = candidates-Usable (suc i) w l in
      let c' = All-map _ (UsableAt false w i (a ∷ l)) _ (UsableAt-cons false w i l a) c in
      let r' = All-map _ (UsableAt true w i (a ∷ l)) _ (UsableAt-cons true w i l a) r in
      elim (Bool-cases (is_available a w)) [
        | inr off ↦ rw off (c', r')
        | inl on ↦ elim (Bool-cases (is_reconfigurable a)) [
          | inl slot ↦ rw (on, slot) (c', (UsableAt-head true w i l a on slot, r'))
          | inr plain ↦ rw (on, plain) ((UsableAt-head false w i l a on plain, c'), r')
        ]
      ]

  -- Where the loop finds no candidate of a kind, no available accelerator is of that kind.
  pub candidates_complete :
      (i : ℕ) (w : W) (l : List A)
      → ((candidates ops i w l).0 ≡ []
          → All (λ a. is_available a w ≡ true → is_reconfigurable a ≡ true) l)
        × ((candidates ops i w l).1 ≡ []
            → All (λ a. is_available a w ≡ true → is_reconfigurable a ≡ false) l)
  unfolding candidates
  candidates_complete i w [] = (λ _. tt, λ _. tt)
  candidates_complete i w (a ∷ l) =
      let (c, r) = candidates_complete (suc i) w l in
      elim (Bool-cases (is_available a w)) [
        | inr off ↦ rw off (λ e. (λ h. cc, c e), λ e. (λ h. cc, r e))
        | inl on ↦ elim (Bool-cases (is_reconfigurable a)) [
          | inl slot ↦ rw (on, slot) (λ e. (λ _. refl, c e), λ e. cc)
          | inr plain ↦ rw (on, plain) (λ e. cc, λ e. (λ _. refl, r e))
        ]
      ]

  -- Each available slot is among the second kind of candidates.
  pub candidates-Memᴰ :
      (i k : ℕ) (w : W) (l : List A) (a : A)
      → get_elem? l k ≡ some a
      → is_available a w ≡ true
      → is_reconfigurable a ≡ true
      → Memᴰ (i + k) (candidates ops i w l).1
  unfolding candidates
  candidates-Memᴰ i k w [] a e on slot = absurd (none-ne-some a e)
  candidates-Memᴰ i zero w (x ∷ l) a e on slot =
      let same = some-injective _ _ e in rw (same, candidates, on, slot) (Memᴰ.head (omega arith))
  candidates-Memᴰ i (suc k) w (x ∷ l) a e on slot =
      let m : Memᴰ (i + suc k) (candidates ops (suc i) w l).1 =
        subst (λ j. Memᴰ j (candidates ops (suc i) w l).1) (omega arith)
          (candidates-Memᴰ (suc i) k w l a e on slot) in
      if_ind (λ (c : List ℕ × List ℕ). Memᴰ (i + suc k) c.1) (not (is_available x w)) (λ _. m)
        (λ _.
          if_ind (λ (c : List ℕ × List ℕ). Memᴰ (i + suc k) c.1) (is_reconfigurable x)
            (λ _. Memᴰ.tail m) (λ _. m))
