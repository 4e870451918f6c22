-- ===== src/Apps/Peak.antt =====
-- What apps/radar_correlator.cpp computes from its transforms.
use ece506scheduler.Base.{
  ℕ, zero, suc, ◌+◌, ◌*◌, ◌/◌, ◌%◌, ◌==◌, ◌<◌, ◌≡◌, refl, Bool, true, false, List, if_ind, arith,
  ◌⊎◌, inl, inr, subst, sym, Bool-cases,
}
use ece506scheduler.Apps.Inputs.{resized}
use ece506scheduler.Apps.Radar.{strongest}
use ece506scheduler.Apps.Correlator.{Arithmetic, chirp, cross, peak}

-- `greater` orders floats, none of which is below `lowest`: there is no NaN.
pub record IsOrder {F : Type 0} (greater : F → F → Bool) (lowest : F) : Type 0 where
  pub asym : (x y : F) → greater x y ≡ true → greater y x ≡ false
  pub trans : (x y z : F) → greater x y ≡ false → greater y z ≡ false → greater x z ≡ false
  pub least : (x : F) → greater lowest x ≡ false

module _ {F : Type 0} (greater : F → F → Bool) (lowest : F) (order : IsOrder greater lowest)
    (corr : ℕ → F) where
  -- Of the first `count` real parts none is greater than the one at `i`, or than `x`.
  abbrev NoneGreater : ℕ → F → Type 0
  NoneGreater count x = (j : ℕ) → j < count → greater (corr (2 * j)) x ≡ false

  below_suc : (j n : ℕ) → j < suc n → (j ≡ n) ⊎ (j < n)
  below_suc j n h = ground arith

  -- The maximum so far bounds the real parts so far; it is the one at the index, or still `lowest`.
  Bounds : ℕ → F × ℕ → Type 0
  Bounds n (max_corr, max_index) =
      NoneGreater n max_corr
      × (((max_corr ≡ corr (2 * max_index)) × (max_index < n))
          ⊎ ((max_corr ≡ lowest) × (max_index ≡ 0)))

  greater-next :
      (n : ℕ) (x y : F)
      → NoneGreater n x
      → greater (corr (2 * n)) y ≡ false
      → greater x y ≡ false
      → NoneGreater (suc n) y
  greater-next n x y h here less j below = elim (below_suc j n below) [
    | inl same ↦ rw same here
    | inr before ↦ order.trans _ x y (h j before) less
  ]

  irrefl : (x : F) → greater x x ≡ false
  irrefl x = elim (Bool-cases (greater x x)) [ inl on ↦ order.asym x x on | inr off ↦ off ]

  strongest-Bounds : (n : ℕ) → Bounds n (strongest greater lowest corr n)
  unfolding strongest Bounds
  strongest-Bounds zero = (λ j below. elim below [ ], inr (refl, refl))
  strongest-Bounds (suc n) =
      let (h, k) = strongest-Bounds n in
      let (max_corr, max_index) = strongest greater lowest corr n in
      if_ind (Bounds (suc n)) (greater (corr (2 * n)) max_corr)
        (λ more. (
          greater-next n max_corr (corr (2 * n)) h (irrefl _) (order.asym _ _ more),
          inl (refl, omega arith),
        ))
        (λ less. (
          greater-next n max_corr max_corr h less (irrefl max_corr),
          elim k [ inl (same, below) ↦ inl (same, omega arith) | inr none_yet ↦ inr none_yet ],
        ))

  -- The index is in range where the range is not empty, and nothing is greater than what is there.
  pub strongest-greatest :
      (n : ℕ)
      → 0 < n
      → let i = (strongest greater lowest corr n).1 in
        (i < n) × ((j : ℕ) → j < n → greater (corr (2 * j)) (corr (2 * i)) ≡ false)
  unfolding Bounds
  strongest-greatest n some_parts =
      let (h, k) = strongest-Bounds n in
      let (max_corr, max_index) = strongest greater lowest corr n in
      elim k [
        | inl (same, below) ↦
            (below, λ j before. subst (λ x. greater (corr (2 * j)) x ≡ false) same (h j before))
        | inr (still, first) ↦ (
          omega (arith, first),
          λ j before. order.trans _ max_corr _ (h j before) (
              subst (λ x. greater x (corr (2 * max_index)) ≡ false) (sym still)
                (order.least (corr (2 * max_index)))),
        )
      ]

-- The place `i` of the lag in terms of the inputs: with the sine and the cosine of the phase at each
-- time as the first signal, and the received numbers as the second, both filled up with zeros, `freq`
-- is the product of their transforms, the second one conjugated, as real and imaginary parts; and of
-- the real parts of its inverse transform none is greater than that at `i`.
pub record Correlates {D F : Type 0} (num : Arithmetic D F) (times received : List D) (i : ℕ)
    : Type 0 where
  pub first : ℕ → F
  pub second : ℕ → F
  pub freq : ℕ → F
  pub sines : (k : ℕ) → first (2 * k) ≡ num.sin_phase (resized num.zero_double times k)
  pub cosines : (k : ℕ) → first (2 * k + 1) ≡ num.cos_phase (resized num.zero_double times k)
  pub samples : (k : ℕ) → second k ≡ num.to_float (resized num.zero_double received k)
  pub re :
      (k : ℕ)
      → let x1 = num.transformed 0 false first in
        let x2 = num.transformed 1 false second in
        freq (2 * k)
        ≡ num.plus
            (num.times (x1 (2 * k)) (x2 (2 * k)))
            (num.times (x1 (2 * k + 1)) (x2 (2 * k + 1)))
  pub im :
      (k : ℕ)
      → let x1 = num.transformed 0 false first in
        let x2 = num.transformed 1 false second in
        freq (2 * k + 1)
        ≡ num.minus
            (num.times (x1 (2 * k + 1)) (x2 (2 * k)))
            (num.times (x1 (2 * k)) (x2 (2 * k + 1)))
  pub range : i < 65_536
  pub greatest :
      (j : ℕ)
      → j < 65_536
      → let corr = num.transformed 2 true freq in num.greater (corr (2 * j)) (corr (2 * i)) ≡ false

halves : (k : ℕ) → (2 * k / 2 ≡ k) × ((2 * k + 1) / 2 ≡ k)
halves k = (omega arith, omega arith)

parities : (k : ℕ) → ((2 * k % 2 == 0) ≡ true) × (((2 * k + 1) % 2 == 0) ≡ false)
parities k = (ground arith, ground arith)

module _ {D F : Type 0} (num : Arithmetic D F) where
  chirp-parts :
      (time : ℕ → D) (k : ℕ)
      → (chirp num time (2 * k) ≡ num.sin_phase (time k))
        × (chirp num time (2 * k + 1) ≡ num.cos_phase (time k))
  unfolding chirp
  chirp-parts time k =
      let (even, odd) = parities k in
      let (half, half') = halves k in (rw (even, half) refl, rw (odd, half') refl)

  cross-parts :
      (x1 x2 : ℕ → F) (k : ℕ)
      → (cross num x1 x2 (2 * k)
          ≡ num.plus
              (num.times (x1 (2 * k)) (x2 (2 * k)))
              (num.times (x1 (2 * k + 1)) (x2 (2 * k + 1))))
        × (cross num x1 x2 (2 * k + 1)
            ≡ num.minus
                (num.times (x1 (2 * k + 1)) (x2 (2 * k)))
                (num.times (x1 (2 * k)) (x2 (2 * k + 1))))
  unfolding cross
  cross-parts x1 x2 k =
      let (even, odd) = parities k in
      let (half, half') = halves k in (rw (even, half) refl, rw (odd, half') refl)

  pub peak-Correlates :
      (times received : List D)
      → IsOrder num.greater num.lowest
      → Correlates num times received (peak num times received)
  unfolding peak
  peak-Correlates times received order =
      let time = resized num.zero_double times in
      let first = chirp num time in
      let second : ℕ → F = λ k. num.to_float (resized num.zero_double received k) in
      let freq = cross num (num.transformed 0 false first) (num.transformed 1 false second) in
      let (range, greatest) =
        strongest-greatest num.greater num.lowest order (num.transformed 2 true freq) 65_536
          (omega arith) in
      record {
        first = first;
        second = second;
        freq = freq;
        sines = λ k. (chirp-parts time k).0;
        cosines = λ k. (chirp-parts time k).1;
        samples = λ k. refl;
        re =
            λ k. (cross-parts (num.transformed 0 false first) (num.transformed 1 false second) k).0;
        im =
            λ k. (cross-parts (num.transformed 0 false first) (num.transformed 1 false second) k).1;
        range = range;
        greatest = greatest;
      }
