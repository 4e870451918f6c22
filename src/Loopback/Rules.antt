-- ===== src/Loopback/Rules.antt =====
-- The loops over the arguments of the tools in apps/: the tests of an argument in their order, with
-- what each does to the variables.
use mathlib.Core.List.{Memᴰ}
use ece506scheduler.Base.{
  OnSome, if_ind, subst, arith, ℕ, ◌≡◌, refl, Bool, true, false, ◌||◌, List, [], ◌∷◌, Option, none,
  some, Text, text, text_eq, if◌then◌else◌, All, ◌⊎◌, inl, inr,
}
use ece506scheduler.Runner.Options.{value_of}

-- `arg == name`, or a prefix, with `none` where the value ends the program.
pub data ArgRule (C : Type 0) : Type 0 where
  switch : (name : Text) → (C → C) → ArgRule C
  checked : (prefix : Text) → (Text → C → Option C) → ArgRule C

-- The exit code of an early return, or the variables after the loop.
pub data Scanned (C : Type 0) : Type 0 where
  exits : ℕ → Scanned C
  collected : C → Scanned C

-- Whether a rule fits an argument, and then what it makes of the variables.
unfoldable pub match_rule : {C : Type 0} → ArgRule C → Text → C → Option (Option C)
match_rule (switch name set_it) arg c = if text_eq arg name then some (some (set_it c)) else none
match_rule (checked prefix collect) arg c = elim (value_of prefix arg) [
  | none ↦ none
  | some v ↦ some (collect v c)
]

unfoldable pub match_rules : {C : Type 0} → List (ArgRule C) → Text → C → Option C
match_rules [] arg c = none
match_rules (rule ∷ rest) arg c = elim (match_rule rule arg c) [
  | some outcome ↦ outcome
  | none ↦ match_rules rest arg c
]

unfoldable pub scan_args : {C : Type 0} → List (ArgRule C) → List Text → C → Scanned C
scan_args rules [] c = collected c
scan_args rules (arg ∷ args) c =
    let later : Scanned _ = elim (match_rules rules arg c) [
      | none ↦ exits 1
      | some c' ↦ scan_args rules args c'
    ] in
    if text_eq arg (text "--help") || text_eq arg (text "-h") then exits 0 else later

-- Unless its name is `excluded`, the rule keeps what holds of the variables.
abbrev pub Keeps : {C : Type 0} → Text → (C → Type 0) → ArgRule C → Type 0
Keeps excluded P (switch name set_it) = (name ≡ excluded) ⊎ ((c : _) → P c → P (set_it c))
Keeps excluded P (checked prefix collect) = (v : Text) (c : _) → P c → OnSome P (collect v c)

OnSome-some :
    {A C : Type 0} (P : C → Type 0) (o : Option A) (f : A → C)
    → ((a : A) → P (f a))
    → OnSome P (elim o [ none ↦ none | some a ↦ some (f a) ])
OnSome-some P none f h = tt
OnSome-some P (some a) f h = h a

-- The argument asks for the usage.
abbrev pub is_help : Text → Bool
is_help arg = text_eq arg (text "--help") || text_eq arg (text "-h")

-- The loop ends the program with 1, or with 0 for an argument that asks for the usage, or what holds
-- of the variables still does.
abbrev pub Outcome : {C : Type 0} → (C → Type 0) → List Text → Scanned C → Type 0
Outcome P args (exits code) =
    (code ≡ 1) ⊎ ((code ≡ 0) × ((arg : Text) × Memᴰ arg args × (is_help arg ≡ true)))
Outcome P args (collected c) = P c

module _ {C : Type 0} (P : C → Type 0) (excluded : Text) where
  match_rule-Keeps :
      (rule : ArgRule C) (arg : Text) (c : C)
      → Keeps excluded P rule
      → text_eq arg excluded ≡ false
      → P c
      → OnSome (OnSome P) (match_rule rule arg c)
  unfolding match_rule
  match_rule-Keeps (switch name set_it) arg c (inl same) ne h =
      if_ind (OnSome (OnSome P)) (text_eq arg name)
        (λ eq.
          let e : text_eq arg excluded ≡ true = subst (λ n. text_eq arg n ≡ true) same eq in
          absurd (ground (arith, e, ne)))
        (λ _. tt)
  match_rule-Keeps (switch name set_it) arg c (inr keep) ne h =
      if_ind (OnSome (OnSome P)) (text_eq arg name) (λ _. keep c h) (λ _. tt)
  match_rule-Keeps (checked prefix collect) arg c keep ne h =
      OnSome-some (OnSome P) (value_of prefix arg) (λ v. collect v c) (λ v. keep v c h)

  fitting-keeps :
      (outcome : Option (Option C)) (later : Option C)
      → OnSome (OnSome P) outcome
      → OnSome P later
      → OnSome P (elim outcome [ some o ↦ o | none ↦ later ])
  fitting-keeps none later h h' = h'
  fitting-keeps (some o) later h h' = h

  match_rules-Keeps :
      (rules : List (ArgRule C)) (arg : Text) (c : C)
      → All (Keeps excluded P) rules
      → text_eq arg excluded ≡ false
      → P c
      → OnSome P (match_rules rules arg c)
  unfolding match_rules
  match_rules-Keeps [] arg c ks ne h = tt
  match_rules-Keeps (rule ∷ rest) arg c (k, ks) ne h =
      fitting-keeps (match_rule rule arg c) (match_rules rest arg c)
        (match_rule-Keeps rule arg c k ne h) (match_rules-Keeps rest arg c ks ne h)

  Outcome-later :
      (arg : Text) (args : List Text) (p : Scanned C) → Outcome P args p → Outcome P (arg ∷ args) p
  Outcome-later arg args (exits code) (inl e) = inl e
  Outcome-later arg args (exits code) (inr (e, (a, m, h))) = inr (e, (a, Memᴰ.tail m, h))
  Outcome-later arg args (collected c) h = h

  tried-Outcome :
      (arg : Text) (args : List Text) (o : Option C) (parse : C → Scanned C)
      → OnSome P o
      → ((c : C) → P c → Outcome P args (parse c))
      → Outcome P (arg ∷ args) (elim o [ none ↦ exits 1 | some c ↦ parse c ])
  tried-Outcome arg args none parse kept h = inl refl
  tried-Outcome arg args (some c) parse kept h = Outcome-later arg args (parse c) (h c kept)

  pub scan_args-Outcome :
      (rules : List (ArgRule C)) (args : List Text) (c : C)
      → All (Keeps excluded P) rules
      → All (λ arg. text_eq arg excluded ≡ false) args
      → P c
      → Outcome P args (scan_args rules args c)
  unfolding scan_args
  scan_args-Outcome rules [] c ks plain h = h
  scan_args-Outcome rules (arg ∷ args) c ks (ne, plain) h =
      if_ind (Outcome P (arg ∷ args)) (is_help arg)
        (λ asks. inr (refl, (arg, Memᴰ.head refl, asks)))
        (λ _.
          tried-Outcome arg args (match_rules rules arg c) (scan_args rules args)
            (match_rules-Keeps rules arg c ks ne h)
            (λ c' h'. scan_args-Outcome rules args c' ks plain h'))
