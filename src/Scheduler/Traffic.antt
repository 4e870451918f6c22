-- ===== src/Scheduler/Traffic.antt =====
-- The queue and the demand count of one app in src/scheduler.cpp, where threads interleave: a push
-- and its +1, like a pop and its -1, hold different mutexes and are steps of their own.
use ece506scheduler.Base.{
  ℕ, zero, suc, ℤ, pos, negsuc, ◌+◌, ◌-◌, ◌+ℤ◌, max_ℤ, ◌≤◌, ◌≡◌, refl, ◌∙◌, List, [], Text,
  text_eq_refl, arith,
}
use ece506scheduler.Scheduler.Impl.{update_count}
use ece506scheduler.Scheduler.Counts.{demand, demand-nil, demand-update_count}

-- The app's tasks in the queue, the pushes and the pops that are not counted yet, the map, and how
-- many pushes and pops there have been.
pub record Traffic : Type 0 where
  pub queued : ℕ
  pub raising : ℕ
  pub lowering : ℕ
  pub counts : List (Text × ℤ)
  pub pushed : ℕ
  pub popped : ℕ

abbrev pub quiet : Traffic
quiet = record { queued = 0; raising = 0; lowering = 0; counts = []; pushed = 0; popped = 0 }

module _ (threshold : ℕ) (app : Text) where
  abbrev pub counted : ℤ → List (Text × ℤ) → List (Text × ℤ)
  counted delta m = (update_count threshold app delta m).0

  pub data Move (c d : Traffic) : Type 0 where
    pushes :
        d ≡ record c { queued = suc c.queued; raising = suc c.raising; pushed = suc c.pushed }
        → Move c d
    raises :
        (n : ℕ)
        → c.raising ≡ suc n
        → d ≡ record c { raising = n; counts = counted (pos 1) c.counts }
        → Move c d
    pops :
        (n : ℕ)
        → c.queued ≡ suc n
        → d ≡ record c { queued = n; lowering = suc c.lowering; popped = suc c.popped }
        → Move c d
    lowers :
        (n : ℕ)
        → c.lowering ≡ suc n
        → d ≡ record c { lowering = n; counts = counted (negsuc 0) c.counts }
        → Move c d

  pub data Moves (c : Traffic) : Traffic → Type 0 where
    here : Moves c c
    next : {d e : Traffic} → Moves c d → Move d e → Moves c e

  demand-counted :
      (delta : ℤ) (m : List (Text × ℤ))
      → demand app (counted delta m) ≡ max_ℤ (pos 0) (demand app m +ℤ delta)
  demand-counted delta m = demand-update_count threshold app app delta m ∙ rw (text_eq_refl app)

  demand-raised :
      (m : List (Text × ℤ)) (n : ℕ)
      → demand app m ≡ pos n
      → demand app (counted (pos 1) m) ≡ pos (suc n)
  unfolding ◌+ℤ◌
  demand-raised m n e = demand-counted (pos 1) m ∙ rw e (ground arith)

  demand-lowered :
      (m : List (Text × ℤ)) (n : ℕ)
      → demand app m ≡ pos n
      → demand app (counted (negsuc 0) m) ≡ pos (n - 1)
  unfolding ◌+ℤ◌
  demand-lowered m n e = demand-counted (negsuc 0) m ∙ rw e (ground arith)

  -- The count, and that with the pushes not counted yet it keeps up with the queue.
  pub record KeepsUp (c : Traffic) : Type 0 where
    pub count : ℕ
    pub counted_lem : demand app c.counts ≡ pos count
    pub ahead : c.queued + c.lowering ≤ count + c.raising

  Move-KeepsUp : {c d : Traffic} → Move c d → KeepsUp c → KeepsUp d
  Move-KeepsUp {c} (pushes e) k =
      rw e (record { count = k.count; counted_lem = k.counted_lem; ahead = omega (arith, k.ahead) })
  Move-KeepsUp {c} (raises n p e) k = rw e (record {
    count = suc k.count;
    counted_lem = demand-raised c.counts k.count k.counted_lem;
    ahead = omega (arith, k.ahead, p);
  })
  Move-KeepsUp {c} (pops n p e) k =
      rw e
        (record { count = k.count; counted_lem = k.counted_lem; ahead = omega (arith, k.ahead, p) })
  Move-KeepsUp {c} (lowers n p e) k = rw e (record {
    count = k.count - 1;
    counted_lem = demand-lowered c.counts k.count k.counted_lem;
    ahead = omega (arith, k.ahead, p);
  })

  -- In every interleaving the count, with the pushes that are not counted yet, is at least the
  -- number of queued tasks with the pops that are not counted yet.
  pub Moves-KeepsUp : {c : Traffic} → Moves quiet c → KeepsUp c
  Moves-KeepsUp here = record { count = 0; counted_lem = demand-nil app; ahead = omega arith }
  Moves-KeepsUp (next r m) = Move-KeepsUp m (Moves-KeepsUp r)

  abbrev at : ℕ → ℕ → ℕ → List (Text × ℤ) → ℕ → ℕ → Traffic
  at queued raising lowering counts pushed popped = record {
    queued = queued;
    raising = raising;
    lowering = lowering;
    counts = counts;
    pushed = pushed;
    popped = popped;
  }

  pushed_by : (k : ℕ) → Moves quiet (at k k 0 [] k 0)
  pushed_by zero = here
  pushed_by (suc k) = next (pushed_by k) (pushes refl)

  popped_by : (j m k : ℕ) → m + j ≡ k → Moves quiet (at m k j [] k j)
  popped_by zero m k e = let same : m ≡ k = omega arith in rw same (pushed_by k)
  popped_by (suc j) m k e = next (popped_by j (suc m) k (omega arith)) (pops m refl refl)

  -- A state that `k` pushes and `k` pops reach, with no task in the queue and the count `n`.
  abbrev Reached : ℕ → ℕ → ℕ → ℕ → Type 0
  Reached k raising lowering n =
      (m : List (Text × ℤ)) × Moves quiet (at 0 raising lowering m k k) × (demand app m ≡ pos n)

  lowered_by : (d j k : ℕ) → j + d ≡ k → Reached k k j 0
  lowered_by zero j k e =
      let same : j ≡ k = omega arith in rw same ([], popped_by k 0 k (omega arith), demand-nil app)
  lowered_by (suc d) j k e =
      let (m, r, n) = lowered_by d (suc j) k (omega arith) in
      (counted (negsuc 0) m, next r (lowers j refl refl), demand-lowered m 0 n)

  raised_by : (d j k : ℕ) → j + d ≡ k → Reached k j 0 d
  raised_by zero j k e = let same : j ≡ k = omega arith in rw same (lowered_by k 0 k (omega arith))
  raised_by (suc d) j k e =
      let (m, r, n) = raised_by d (suc j) k (omega arith) in
      (counted (pos 1) m, next r (raises j refl refl), demand-raised m d n)

  -- But it can run ahead for good: for every k some interleaving of k pushes and k pops, each
  -- counted, ends with no task in the queue, nothing left to count, and the count k.
  pub count-drifts :
      (k : ℕ)
      → (m : List (Text × ℤ)) × Moves quiet
          (record { queued = 0; raising = 0; lowering = 0; counts = m; pushed = k; popped = k })
        × (demand app m ≡ pos k)
  count-drifts k = raised_by k 0 k (omega arith)
