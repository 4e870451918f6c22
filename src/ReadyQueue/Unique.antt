-- ===== src/ReadyQueue/Unique.antt =====
-- The queue of src/scheduler.cpp as a bag: nothing of the heap but its elements is seen.
use mathlib.Core.HLevel.{Π_prop}
use mathlib.Core.Bool.{Bool-set}
use mathlib.Core.List.Perm
use mathlib.Core.List.{Perm}
use ece506scheduler.Base.{
  ℕ, ◌≤◌, ◌==◌, ◌≡◌, refl, sym, ◌∙◌, ap, subst, false, List, [], ◌∷◌, arith, All, All-map, All-perm,
  Sorted, count, count-cons, count-perm, length,
}
use ece506scheduler.Task.{Task}
use ece506scheduler.ReadyQueue.{ReadyQueue, task_compare}
use ece506scheduler.ReadyQueue.Order.{task_compare_irrefl, task_compare_tie}
use ece506scheduler.ReadyQueue.Pop.{drain, drain-Drains}

abbrev id_of : Task → ℕ
id_of t = t.id

-- No two tasks of the list have the same id.
abbrev pub HasDistinctIds : List Task → Type 0
HasDistinctIds ts = (k : ℕ) → count id_of k ts ≤ 1

Task-set : IsSet Task
Task-set = hlevel

count-zero : (k : ℕ) (ts : List Task) → count id_of k ts ≤ 0 → All (λ t. (t.id == k) ≡ false) ts
count-zero k [] h = tt
count-zero k (t ∷ ts) h = (
  ground (arith, count-cons id_of k t ts, h),
  count-zero k ts (ground (arith, count-cons id_of k t ts, h)),
)

-- The one task with its id.
abbrev Only : Task → Task → Type 0
Only x z = z.id ≡ x.id → z ≡ x

Only-prop : (x z : Task) → IsProp (Only x z)
Only-prop x z = Π_prop (λ _. Task-set z x)

distinct-Only : (x : Task) (xs : List Task) → HasDistinctIds (x ∷ xs) → All (Only x) (x ∷ xs)
distinct-Only x xs h = (
  λ _. refl,
  All-map _ _ xs (λ z ne e. absurd (ground (arith, ne, e)))
      (count-zero x.id xs (ground (arith, h x.id, count-cons id_of x.id x xs))),
)

rest-HasDistinctIds : (x : Task) (xs : List Task) → HasDistinctIds (x ∷ xs) → HasDistinctIds xs
rest-HasDistinctIds x xs h k = omega (arith, h k, count-cons id_of k x xs)

abbrev InOrder : List Task → Type 0
InOrder = Sorted (λ t u. task_compare t u ≡ false)

-- The first of a list goes before no other: so of two orders of the same tasks.
first-eq :
    (x y : Task) (xs ys : List Task)
    → Perm (x ∷ xs) (y ∷ ys)
    → HasDistinctIds (x ∷ xs)
    → InOrder (x ∷ xs)
    → InOrder (y ∷ ys)
    → y ≡ x
first-eq x y xs ys p d sx sy =
    let x_y : task_compare x y ≡ false =
      (All-perm (λ z. task_compare x z ≡ false) (λ _. Bool-set _ _) p
        (task_compare_irrefl x, sx.0)).0 in
    let y_x : task_compare y x ≡ false =
      (All-perm (λ z. task_compare y z ≡ false) (λ _. Bool-set _ _) (Perm.symm p)
        (task_compare_irrefl y, sy.0)).0 in
    let (_, _, same) = task_compare_tie y x y_x x_y in
    (All-perm (Only x) (Only-prop x) p (distinct-Only x xs d)).0 same

ordered_unique :
    (xs ys : List Task) → Perm xs ys → HasDistinctIds xs → InOrder xs → InOrder ys → xs ≡ ys
ordered_unique [] ys p d sx sy = Perm.nil-eq p
ordered_unique (x ∷ xs) [] p d sx sy = Perm.eq-nil p
ordered_unique (x ∷ xs) (y ∷ ys) p d sx sy =
    let e = first-eq x y xs ys p d sx sy in
    let q : Perm xs ys = Perm.cons_inv (subst (λ z. Perm (x ∷ xs) (z ∷ ys)) e p) in
    ap (λ zs. x ∷ zs) (ordered_unique xs ys q (rest-HasDistinctIds x xs d) sx.1 sy.1)
    ∙ ap (λ z. z ∷ ys) (sym e)

-- Two running queues with the same tasks, no two of which have the same id, in whatever order the
-- tasks were pushed: as many pops as there are tasks, or more, hand out the same tasks in the same
-- order.
pub drain_unique :
    (n m : ℕ) (q q' : ReadyQueue)
    → q.stop ≡ false
    → q'.stop ≡ false
    → Perm q.pq q'.pq
    → HasDistinctIds q.pq
    → length q.pq ≤ n
    → length q'.pq ≤ m
    → drain n q ≡ drain m q'
drain_unique n m q q' run run' p d fits fits' =
    let (pn, sn) = drain-Drains n q run fits in
    let (pm, sm) = drain-Drains m q' run' fits' in
    ordered_unique (drain n q) (drain m q') (Perm.trans (Perm.symm pn) (Perm.trans p pm))
      (λ k. omega (arith, d k, count-perm id_of k pn)) sn sm
