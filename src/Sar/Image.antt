-- ===== src/Sar/Image.antt =====
-- app_run of apps/SAR/SAR.cpp from its buffers on, and which samples the FFT functions of
-- src/accelerators.cpp store. The arithmetic on floats, the read file and the answers of
-- dash::fft_execute are parameters.
use ece506scheduler.Base.{
  ℕ, zero, suc, ◌+◌, ◌-◌, ◌*◌, ◌/◌, ◌%◌, ltb, leb, ◌&&◌, ◌==◌, Bool, true, false, not, Option, none,
  some, if◌then◌else◌,
}

pub record Complex (F : Type 0) : Type 0 where
  pub re : F
  pub im : F

-- What runs an FFT task: run_fft_operation, FftHwRunner::execute, or a mocked slot, which sleeps and
-- stores nothing.
pub data Runs : Type 0 where
  software hardware mocked : Runs

-- `summed` and `converted` are the samples of run_fft_operation and of FftHwRunner::execute, for a
-- direction and an input; of call number k of fft_execute, `runs k` says which code ran it, and
-- `answers k` what it answered.
pub record Signals (F : Type 0) : Type 0 where
  pub zero_sample : F
  pub times : F → F → F
  pub plus : F → F → F
  pub minus : F → F → F
  pub summed : ℕ → Bool → (ℕ → F) → ℕ → F
  pub converted : ℕ → Bool → (ℕ → F) → ℕ → F
  pub runs : ℕ → Runs
  pub answers : ℕ → Bool

-- The loop of run_fft_operation over `k < n`, which stores one float for each sample.
unfoldable pub store_sums : {F : Type 0} → ℕ → (ℕ → F) → (ℕ → F) → ℕ → F
store_sums zero sums out = out
store_sums (suc k) sums out = λ i. if i == k then sums k else store_sums k sums out i

-- The loop of execute over `i < sample_count * 2`.
unfoldable pub store_converted : {F : Type 0} → ℕ → (ℕ → F) → (ℕ → F) → ℕ → F
store_converted n samples out = store_sums (n * 2) samples out

-- std::copy_n(from + offset, count, to + offset)
unfoldable pub copy_block : {F : Type 0} → (offset count : ℕ) → (ℕ → F) → (ℕ → F) → ℕ → F
copy_block offset count from to i = if leb offset i && ltb i (offset + count) then from i else to i

-- The swap of two elements.
abbrev swapped : {A : Type 0} → ℕ → ℕ → (ℕ → A) → ℕ → A
swapped i j xs k = if k == i then xs j else if k == j then xs i else xs k

-- The loop over `i < count` of fftshift.
unfoldable pub swap_halves : {A : Type 0} → (half count : ℕ) → (ℕ → A) → ℕ → A
swap_halves half zero xs = xs
swap_halves half (suc i) xs = swapped i (i + half) (swap_halves half i xs)

-- fftshift; std::rotate moves the element at half + 1 to the front.
unfoldable pub fftshift : {A : Type 0} → ℕ → (ℕ → A) → ℕ → A
fftshift len xs =
    let half = len / 2 in
    if len % 2 == 0 then swap_halves half half xs else λ k.
    if ltb k len then xs ((k + half + 1) % len) else xs k

-- The vectors of the loop, and the number of calls of fft_execute so far.
pub record Buffers (F : Type 0) : Type 0 where
  pub temp : ℕ → F
  pub fft_tmp : ℕ → F
  pub corr : ℕ → F
  pub calls : ℕ

module _ {F : Type 0} (sig : Signals F) where
  -- What the code that ran a call leaves in the output.
  unfoldable pub left_by : Runs → ℕ → Bool → (ℕ → F) → (ℕ → F) → ℕ → F
  left_by software len inverse input output = store_sums len (sig.summed len inverse input) output
  left_by hardware len inverse input output =
      store_converted len (sig.converted len inverse input) output
  left_by mocked len inverse input output = output

  -- run_fft, for a plan of `len` samples on the whole vectors: the answer and the output.
  unfoldable pub run_plan :
      (call : ℕ) (input output : ℕ → F) (len : ℕ) (inverse : Bool) → Bool × (ℕ → F)
  run_plan call input output len inverse =
      (sig.answers call, left_by (sig.runs call) len inverse input output)

  -- chunk, read from fft_tmp.
  abbrev read_chunk : ℕ → (ℕ → F) → ℕ → Complex F
  read_chunk offset from i = record { re = from (offset + 2 * i); im = from (offset + 2 * i + 1) }

  -- The products with g, by the parity of the place in the row.
  unfoldable pub multiplied : (ℕ → F) → (ℕ → Complex F) → ℕ → F
  multiplied g chunk j =
      let i = j / 2 in
      let re = (chunk i).re in
      let im = (chunk i).im in
      if j % 2 == 0
      then sig.minus (sig.times re (g (2 * i))) (sig.times im (g (2 * i + 1)))
      else sig.plus (sig.times im (g (2 * i))) (sig.times re (g (2 * i + 1)))

  -- The loop that stores the products at the row's place.
  abbrev store_row : (offset count : ℕ) → (ℕ → F) → (ℕ → F) → ℕ → F
  store_row offset count row out = copy_block offset count (λ i. row (i - offset)) out

  -- The body of the loop over the rows; `none`: app_run returns 1 here.
  unfoldable pub process_row :
      (nfast : ℕ) (g s0_flat : ℕ → F) (slow : ℕ) → Buffers F → Option (Buffers F)
  process_row nfast g s0_flat slow b =
      let offset = slow * nfast * 2 in
      let temp = copy_block offset (nfast * 2) s0_flat b.temp in
      let (ok, fft_tmp) = run_plan b.calls temp b.fft_tmp nfast false in
      let chunk = fftshift nfast (read_chunk offset fft_tmp) in
      let products = store_row offset (nfast * 2) (multiplied g chunk) fft_tmp in
      let (ok', temp') = run_plan (b.calls + 1) products temp nfast true in
      if not ok
      then none
      else if not ok'
      then none
      else some (record {
        temp = temp';
        fft_tmp = products;
        corr = copy_block offset (nfast * 2) temp' b.corr;
        calls = b.calls + 2;
      })

  -- The loop over `slow < count`.
  unfoldable pub process_rows :
      (nfast : ℕ) (g s0_flat : ℕ → F) (count : ℕ) → Buffers F → Option (Buffers F)
  process_rows nfast g s0_flat zero b = some b
  process_rows nfast g s0_flat (suc slow) b = elim (process_rows nfast g s0_flat slow b) [
    | none ↦ none
    | some b' ↦ process_row nfast g s0_flat slow b'
  ]

  abbrev pub empty_buffers : Buffers F
  empty_buffers = record {
    temp = λ i. sig.zero_sample;
    fft_tmp = λ i. sig.zero_sample;
    corr = λ i. sig.zero_sample;
    calls = 0;
  }

  -- corr as app_run writes it to the file, of 256 rows of 512 samples.
  unfoldable pub focused : (g s0_flat : ℕ → F) → Option (Buffers F)
  focused g s0_flat = process_rows 512 g s0_flat 256 empty_buffers
