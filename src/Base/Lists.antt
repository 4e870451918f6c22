-- ===== src/Base/Lists.antt =====
-- Lists measured by native numbers, under the library's names, and predicates on their elements.
use Prim.Native.Nat.{ℕ, zero, suc, ◌+◌, ◌<◌}
use mathlib.Core.Path.{sym, refl, ap, subst, ◌∙◌, ◌≡◌}
use mathlib.Core.Bool.{Bool, true, false}
use mathlib.Core.HLevel.{×_prop}
use mathlib.Core.Logic.{∥∥₁_elim}
use native.Mathlib.Nat.{ℕ_set}
use mathlib.Core.List.{Memᴰ, Perm, Permᴰ, List, [], ◌∷◌, ◌++◌}
use mathlib.Core.Option.{Option, none, some}
use native.Mathlib.Omega.{arith}
use package.ece506scheduler.Base.Tests.{◌==◌, if◌then◌else◌, Bool-cases, ==_iff}
use mathlib.Core.Logic.{inl, inr}

module _ {ℓ} {A : Type ℓ} where
  abbrev pub length : List A → ℕ
  length [] = 0
  length (x ∷ xs) = suc (length xs)

  abbrev pub drop : ℕ → List A → List A
  drop zero xs = xs
  drop (suc n) [] = []
  drop (suc n) (x ∷ xs) = drop n xs

  abbrev pub get_elem? : List A → ℕ → Option A
  get_elem? [] i = none
  get_elem? (x ∷ xs) zero = some x
  get_elem? (x ∷ xs) (suc i) = get_elem? xs i

  -- A write out of bounds changes nothing.
  abbrev pub set : List A → ℕ → A → List A
  set [] i v = []
  set (x ∷ xs) zero v = v ∷ xs
  set (x ∷ xs) (suc i) v = x ∷ set xs i v

  abbrev pub is_empty : List A → Bool
  is_empty [] = true
  is_empty (x ∷ xs) = false

  abbrev pub All {κ} : (A → Type κ) → List A → Type κ
  All P [] = Unit
  All P (x ∷ xs) = P x × All P xs

  -- Each element stands in the relation to all that follow it.
  abbrev pub Sorted {κ} : (A → A → Type κ) → List A → Type κ
  Sorted R [] = Unit
  Sorted R (x ∷ xs) = All (R x) xs × Sorted R xs

  pub length-append : (xs ys : List A) → length (xs ++ ys) ≡ length xs + length ys
  length-append [] ys = omega arith
  length-append (x ∷ xs) ys = omega (arith, length-append xs ys)

  pub All-append {κ} : (P : A → Type κ) (xs ys : List A) → All P xs → All P ys → All P (xs ++ ys)
  All-append P [] ys hx hy = hy
  All-append P (x ∷ xs) ys hx hy = (hx.0, All-append P xs ys hx.1 hy)

  pub All-split {κ} : (P : A → Type κ) (xs ys : List A) → All P (xs ++ ys) → All P xs × All P ys
  All-split P [] ys h = (tt, h)
  All-split P (x ∷ xs) ys h = let (l, r) = All-split P xs ys h.1 in ((h.0, l), r)

  pub All-map {κ μ} :
      (P : A → Type κ) (Q : A → Type μ) (xs : List A) → ((x : A) → P x → Q x) → All P xs → All Q xs
  All-map P Q [] f h = tt
  All-map P Q (x ∷ xs) f h = (f x h.0, All-map P Q xs f h.1)

module _ {ℓ κ} {A : Type ℓ} (P : A → Type κ) where
  All-permᴰ : {xs ys : List A} → Permᴰ xs ys → All P xs → All P ys
  All-permᴰ Permᴰ.nil h = tt
  All-permᴰ (Permᴰ.cons e p) h = (subst P e h.0, All-permᴰ p h.1)
  All-permᴰ (Permᴰ.swap e f) h = (subst P f h.1.0, (subst P e h.0, h.1.1))
  All-permᴰ (Permᴰ.trans p q) h = All-permᴰ q (All-permᴰ p h)

  All-prop : ((x : A) → IsProp (P x)) → (xs : List A) → IsProp (All P xs)
  All-prop f [] = hlevel
  All-prop f (x ∷ xs) = ×_prop (f x) (All-prop f xs)

  -- A statement about every element does not see their order.
  pub All-perm : ((x : A) → IsProp (P x)) → {xs ys : List A} → Perm xs ys → All P xs → All P ys
  All-perm f {ys} p h = ∥∥₁_elim p (All-prop f ys) (λ d. All-permᴰ d h)

length-permᴰ {ℓ} : {A : Type ℓ} {xs ys : List A} → Permᴰ xs ys → length xs ≡ length ys
length-permᴰ Permᴰ.nil = refl
length-permᴰ (Permᴰ.cons e p) = ap suc (length-permᴰ p)
length-permᴰ (Permᴰ.swap e f) = refl
length-permᴰ (Permᴰ.trans p q) = length-permᴰ p ∙ length-permᴰ q

pub length-perm {ℓ} : {A : Type ℓ} {xs ys : List A} → Perm xs ys → length xs ≡ length ys
length-perm p = ∥∥₁_elim p (ℕ_set _ _) length-permᴰ

module _ {ℓ} {A : Type ℓ} (key : A → ℕ) where
  -- How many elements have the key `k`.
  unfoldable pub count : ℕ → List A → ℕ
  count k [] = 0
  count k (x ∷ xs) = (if key x == k then 1 else 0) + count k xs

  pub count-nil : (k : ℕ) → count k [] ≡ 0
  unfolding count
  count-nil k = refl

  pub count-cons :
      (k : ℕ) (x : A) (xs : List A) → count k (x ∷ xs) ≡ (if key x == k then 1 else 0) + count k xs
  unfolding count
  count-cons k x xs = refl

  pub count-cons_self : (x : A) (xs : List A) → 0 < count (key x) (x ∷ xs)
  unfolding count
  count-cons_self x xs = ground arith

  pub count-append : (k : ℕ) (xs ys : List A) → count k (xs ++ ys) ≡ count k xs + count k ys
  unfolding count
  count-append k [] ys = omega arith
  count-append k (x ∷ xs) ys = omega (arith, count-append k xs ys)

  count-permᴰ : (k : ℕ) {xs ys : List A} → Permᴰ xs ys → count k xs ≡ count k ys
  unfolding count
  count-permᴰ k Permᴰ.nil = refl
  count-permᴰ k (Permᴰ.cons e p) = ground (arith, count-permᴰ k p)
  count-permᴰ k (Permᴰ.swap e f) = ground arith
  count-permᴰ k (Permᴰ.trans p q) = count-permᴰ k p ∙ count-permᴰ k q

  pub count-perm : (k : ℕ) {xs ys : List A} → Perm xs ys → count k xs ≡ count k ys
  count-perm k p = ∥∥₁_elim p (ℕ_set _ _) (λ d. count-permᴰ k d)

module _ {ℓ} {A : Type ℓ} where
  pub length-set : (xs : List A) (i : ℕ) (v : A) → length (set xs i v) ≡ length xs
  length-set [] i v = refl
  length-set (x ∷ xs) zero v = refl
  length-set (x ∷ xs) (suc i) v = ap suc (length-set xs i v)

  pub get_elem?-set_self :
      (xs : List A) (i : ℕ) (v : A) → i < length xs → get_elem? (set xs i v) i ≡ some v
  get_elem?-set_self [] i v h = elim h [ ]
  get_elem?-set_self (x ∷ xs) zero v h = refl
  get_elem?-set_self (x ∷ xs) (suc i) v h = get_elem?-set_self xs i v (omega arith)

  pub get_elem?-set_other :
      (xs : List A) (i j : ℕ) (v : A) → (j == i) ≡ false → get_elem? (set xs i v) j ≡ get_elem? xs j
  get_elem?-set_other [] i j v ne = refl
  get_elem?-set_other (x ∷ xs) zero zero v ne = absurd (cc)
  get_elem?-set_other (x ∷ xs) zero (suc j) v ne = refl
  get_elem?-set_other (x ∷ xs) (suc i) zero v ne = refl
  get_elem?-set_other (x ∷ xs) (suc i) (suc j) v ne =
      get_elem?-set_other xs i j v (ground (arith, ne))

  pub get_elem?-lt : (xs : List A) (i : ℕ) → i < length xs → (a : A) × (get_elem? xs i ≡ some a)
  get_elem?-lt [] i h = elim h [ ]
  get_elem?-lt (x ∷ xs) zero h = (x, refl)
  get_elem?-lt (x ∷ xs) (suc i) h = get_elem?-lt xs i (omega arith)

  pub lt-get_elem? : (xs : List A) (i : ℕ) (a : A) → get_elem? xs i ≡ some a → i < length xs
  lt-get_elem? [] i a h = cc
  lt-get_elem? (x ∷ xs) zero a h = omega arith
  lt-get_elem? (x ∷ xs) (suc i) a h = omega (arith, lt-get_elem? xs i a h)

pub All-Memᴰ {ℓ κ} :
    {A : Type ℓ} (P : A → Type κ) {a : A} (xs : List A) → Memᴰ a xs → All P xs → P a
All-Memᴰ P [] m h = elim m [ ]
All-Memᴰ P (x ∷ xs) (Memᴰ.head e) h = subst P (sym e) h.0
All-Memᴰ P (x ∷ xs) (Memᴰ.tail m) h = All-Memᴰ P xs m h.1

pub All-zip {ℓ κ μ ν} :
    {A : Type ℓ} (P : A → Type κ) (Q : A → Type μ) (R : A → Type ν) (xs : List A)
    → ((x : A) → P x → Q x → R x)
    → All P xs
    → All Q xs
    → All R xs
All-zip P Q R [] f h k = tt
All-zip P Q R (x ∷ xs) f h k = (f x h.0 k.0, All-zip P Q R xs f h.1 k.1)

-- A predicate of the keys of all elements holds of each key that one of them has.
pub All-count :
    {A : Type 0} (key : A → ℕ) (P : ℕ → Type 0) (k : ℕ) (xs : List A)
    → All (λ x. P (key x)) xs
    → 0 < count key k xs
    → P k
unfolding count
All-count key P k [] h c = absurd (omega arith)
All-count key P k (x ∷ xs) h c = elim (Bool-cases (key x == k)) [
  | inl same ↦ subst P ((==_iff (key x) k).0 same) h.0
  | inr other ↦ All-count key P k xs h.1 (ground (arith, c, other))
]
