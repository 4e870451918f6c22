-- ===== src/Base/Dict.antt =====
-- std::unordered_map as an association list, over any type of keys with a Boolean equality.
use mathlib.Core.Path.{◌≡◌}
use mathlib.Core.Logic.{◌↔◌}
use mathlib.Core.Bool.{Bool, true}
use mathlib.Core.List.{List, [], ◌∷◌}
use mathlib.Core.Option.{Option, none, some}
use Prim.Native.Nat.{ℕ}
use native.Mathlib.Omega.{arith}
use package.ece506scheduler.Base.Tests.{◌==◌, ==_iff, if◌then◌else◌}
use package.ece506scheduler.Base.Strings.{Text, text_eq, text_eq_iff}

pub record Eq {ℓ} (K : Type ℓ) : Type ℓ where
  pub beq : K → K → Bool
  pub beq_iff : (a b : K) → (beq a b ≡ true) ↔ (a ≡ b)

abbrev nat_beq : ℕ → ℕ → Bool
nat_beq a b = a == b

instance abbrev pub nat_eq : Eq ℕ
nat_eq = record { beq = nat_beq; beq_iff = ==_iff }

instance abbrev pub text_key : Eq Text
text_key = record { beq = text_eq; beq_iff = text_eq_iff }

module _ {ℓ κ} {K : Type ℓ} {V : Type κ} ⦃e : Eq K⦄ where
  -- m.find(k)
  unfoldable pub lookup : K → List (K × V) → Option V
  lookup k [] = none
  lookup k ((j, v) ∷ m) = if e.beq j k then some v else lookup k m

  -- m.erase(k)
  unfoldable pub erase : K → List (K × V) → List (K × V)
  erase k [] = []
  erase k ((j, v) ∷ m) = let rest = erase k m in if e.beq j k then rest else (j, v) ∷ rest

  -- m[k] = v
  unfoldable pub assign : K → V → List (K × V) → List (K × V)
  unfolding erase
  assign k v m = (k, v) ∷ erase k m

  -- m.emplace(k, v), which leaves an entry that is there.
  unfoldable pub emplace : K → V → List (K × V) → List (K × V)
  unfolding lookup
  emplace k v m = elim (lookup k m) [ none ↦ (k, v) ∷ m | some w ↦ m ]

  pub lookup-erase :
      (k j : K) (m : List (K × V)) → lookup j (erase k m) ≡ (if e.beq k j then none else lookup j m)
  unfolding lookup erase
  lookup-erase k j [] = ground arith
  lookup-erase k j ((i, v) ∷ m) =
      ground (arith, e.beq_iff k j, e.beq_iff i k, e.beq_iff i j, lookup-erase k j m)

  pub lookup-assign :
      (k j : K) (v : V) (m : List (K × V))
      → lookup j (assign k v m) ≡ (if e.beq k j then some v else lookup j m)
  unfolding assign lookup
  lookup-assign k j v m = ground (arith, lookup-erase k j m)

  pub lookup-emplace_new :
      (k : K) (v : V) (m : List (K × V)) → lookup k m ≡ none → lookup k (emplace k v m) ≡ some v
  unfolding lookup emplace
  lookup-emplace_new k v m h = rw (h, emplace) (ground (arith, e.beq_iff k k))
