-- ===== src/Sar/Rows.antt =====
-- What apps/SAR/SAR.cpp makes of the rows behind the first.
use ece506scheduler.Base.{
  OnSome, OnSome-then, OnSome-path, ℕ, zero, suc, ◌+◌, ◌*◌, ◌<◌, ◌≤◌, ◌≡◌, ◌∙◌, refl, ◌==◌, Bool,
  true, false, not, some, if_ind, arith, ◌⊎◌, inl, inr,
}
use ece506scheduler.Sar.Image.{
  Signals, Runs, software, hardware, mocked, left_by, store_sums, store_converted, copy_block,
  Buffers, run_plan, process_row, process_rows, empty_buffers,
}

store_sums-le :
    {F : Type 0} (n : ℕ) (sums out : ℕ → F) (i : ℕ) → n ≤ i → store_sums n sums out i ≡ out i
unfolding store_sums
store_sums-le zero sums out i h = refl
store_sums-le (suc k) sums out i h =
    let ne : (i == k) ≡ false = ground arith in
    rw ne (store_sums-le k sums out i (omega (arith, h)))

lt-or-ge : (i n : ℕ) → (i < n) ⊎ (n ≤ i)
lt-or-ge i n = ground arith

module _ {F : Type 0} (sig : Signals F) where
  left_by-le :
      (by : Runs) (input output : ℕ → F) (len : ℕ) (inverse : Bool) (i : ℕ)
      → len * 2 ≤ i
      → left_by sig by len inverse input output i ≡ output i
  unfolding left_by store_converted
  left_by-le software input output len inverse i h = store_sums-le len _ output i (omega (arith, h))
  left_by-le hardware input output len inverse i h = store_sums-le (len * 2) _ output i h
  left_by-le mocked input output len inverse i h = refl

  -- A transform stores nothing behind the first 2 * len floats.
  run_plan-le :
      (call : ℕ) (input output : ℕ → F) (len : ℕ) (inverse : Bool) (i : ℕ)
      → len * 2 ≤ i
      → (run_plan sig call input output len inverse).1 i ≡ output i
  unfolding run_plan
  run_plan-le call input output len inverse i h =
      left_by-le (sig.runs call) input output len inverse i h

  -- The rows from the second to before `count` are the input's.
  abbrev IsRaw : (nfast : ℕ) (s0_flat : ℕ → F) (count : ℕ) → Buffers F → Type 0
  IsRaw nfast s0_flat count b =
      (i : ℕ) → nfast * 2 ≤ i → i < count * nfast * 2 → b.corr i ≡ s0_flat i

  copy_block-inside :
      (offset count : ℕ) (from to : ℕ → F) (i : ℕ)
      → offset ≤ i
      → i < offset + count
      → copy_block offset count from to i ≡ from i
  unfolding copy_block
  copy_block-inside offset count from to i low high = ground (arith, low, high)

  copy_block-below :
      (offset count : ℕ) (from to : ℕ → F) (i : ℕ)
      → i < offset
      → copy_block offset count from to i ≡ to i
  unfolding copy_block
  copy_block-below offset count from to i low = ground (arith, low)

  row-IsRaw :
      (nfast : ℕ) (g s0_flat : ℕ → F) (slow : ℕ) (b : Buffers F)
      → IsRaw nfast s0_flat slow b
      → OnSome (IsRaw nfast s0_flat (suc slow)) (process_row sig nfast g s0_flat slow b)
  unfolding process_row run_plan
  row-IsRaw nfast g s0_flat slow b h =
      let offset = slow * nfast * 2 in
      let temp = copy_block offset (nfast * 2) s0_flat b.temp in
      if_ind (OnSome (IsRaw nfast s0_flat (suc slow))) (not (sig.answers b.calls)) (λ _. tt)
        (λ _.
          if_ind (OnSome (IsRaw nfast s0_flat (suc slow))) (not (sig.answers (b.calls + 1)))
            (λ _. tt)
            (λ _ i above below. elim (lt-or-ge i offset) [
              | inl low ↦ copy_block-below offset (nfast * 2) _ b.corr i low ∙ h i above low
              | inr high ↦
                  let inside : i < offset + nfast * 2 = grind (arith, below) in
                  copy_block-inside offset (nfast * 2) _ b.corr i high inside
                  ∙ run_plan-le (b.calls + 1) _ temp nfast true i above
                  ∙ copy_block-inside offset (nfast * 2) s0_flat b.temp i high inside
            ]))

  rows-IsRaw :
      (nfast : ℕ) (g s0_flat : ℕ → F) (count : ℕ)
      → OnSome
          (IsRaw nfast s0_flat count)
          (process_rows sig nfast g s0_flat count (empty_buffers sig))
  unfolding process_rows
  rows-IsRaw nfast g s0_flat zero = λ i above below. absurd (omega (arith, below))
  rows-IsRaw nfast g s0_flat (suc slow) =
      OnSome-then _ _ (process_rows sig nfast g s0_flat slow (empty_buffers sig)) _
        (row-IsRaw nfast g s0_flat slow) (rows-IsRaw nfast g s0_flat slow)

-- Where the loop over the rows ends well, for rows of any length and any number of them, whether the
-- transforms ran on the hardware or not: behind the first row, what it leaves to be written to the
-- file is the input, which no transform has reached.
pub process_rows-raw :
    {F : Type 0} (sig : Signals F) (nfast : ℕ) (g s0_flat : ℕ → F) (nslow : ℕ) (b : Buffers F)
    (i : ℕ)
    → process_rows sig nfast g s0_flat nslow (empty_buffers sig) ≡ some b
    → nfast * 2 ≤ i
    → i < nslow * nfast * 2
    → b.corr i ≡ s0_flat i
process_rows-raw sig nfast g s0_flat nslow b i e =
    OnSome-path (IsRaw sig nfast s0_flat nslow) _ b e (rows-IsRaw sig nfast g s0_flat nslow) i
