-- ===== src/Hardware/Bounds.antt =====
-- Which bytes the FFT functions of src/accelerators.cpp touch.
use ece506scheduler.Base.{
  ℕ, ◌+◌, ◌*◌, ◌/◌, ◌^◌, ◌≤◌, ◌<◌, ◌≡◌, subst, ℤ, pos, negsuc, true, Option, none, some, arith,
}
use ece506scheduler.Hardware.FftRunner.{
  FftContext, sample_count, plan_transfer, length_of, fft_length,
}

-- The value of a 32-bit int.
abbrev pub IsInt32 : ℤ → Type 0
IsInt32 (pos k) = k < 2 ^ 31
IsInt32 (negsuc k) = k < 2 ^ 31

abbrev Bounded : ℕ → FftContext → Option (ℕ × ℕ) → Type 0
Bounded size ctx none = Unit {0}
Bounded size ctx (some (count, bytes)) =
    (0 < count)
    × (bytes ≡ 4 * count)
    × (bytes ≤ size / 2)
    × (size / 2 + bytes ≤ size)
    × (8 * count ≤ ctx.out_bytes)

plan-Bounded :
    (size : ℕ) (ctx : FftContext)
    → size < 2 ^ 64
    → ctx.in_bytes < 2 ^ 64
    → IsInt32 ctx.n
    → Bounded size ctx (plan_transfer size ctx)
unfolding plan_transfer sample_count
plan-Bounded size ctx s i n = ground arith

some-Bounded :
    (size : ℕ) (ctx : FftContext) (o : Option (ℕ × ℕ)) (count bytes : ℕ)
    → o ≡ some (count, bytes)
    → Bounded size ctx o
    → (0 < count)
      × (bytes ≡ 4 * count)
      × (bytes ≤ size / 2)
      × (size / 2 + bytes ≤ size)
      × (8 * count ≤ ctx.out_bytes)
some-Bounded size ctx o count bytes e h = subst (Bounded size ctx) e h

-- Where execute launches a transfer, for a plan of any `int` length and a size_t of 64 bits: it is of
-- four bytes for each of at least one sample, the input half and the output half of the shared buffer
-- have room for it, and the caller's output buffer has room for eight bytes a sample.
pub plan_transfer_lem :
    (size : ℕ) (ctx : FftContext) (count bytes : ℕ)
    → size < 2 ^ 64
    → ctx.in_bytes < 2 ^ 64
    → IsInt32 ctx.n
    → plan_transfer size ctx ≡ some (count, bytes)
    → (0 < count)
      × (bytes ≡ 4 * count)
      × (bytes ≤ size / 2)
      × (size / 2 + bytes ≤ size)
      × (8 * count ≤ ctx.out_bytes)
plan_transfer_lem size ctx count bytes s i n e =
    some-Bounded size ctx (plan_transfer size ctx) count bytes e (plan-Bounded size ctx s i n)

-- A plan of n samples, 0 < n < 2^31, with both buffers, an output of at least 8 n bytes, a half of the
-- shared buffer of at least 4 n and an input of at least 4 n and fewer than 8 n bytes: run_fft_operation
-- takes the context as n samples, and execute plans a transfer of n samples.
pub plan_transfer-takes_short :
    (size n : ℕ) (ctx : FftContext)
    → ctx.n ≡ pos n
    → 0 < n
    → n < 2 ^ 31
    → ctx.in_data ≡ true
    → ctx.out_data ≡ true
    → 4 * n ≤ size / 2
    → 8 * n ≤ ctx.out_bytes
    → 4 * n ≤ ctx.in_bytes
    → ctx.in_bytes < 8 * n
    → (fft_length ctx ≡ length_of n) × (plan_transfer size ctx ≡ some (n, 4 * n))
unfolding fft_length plan_transfer sample_count
plan_transfer-takes_short size n ctx e some_n small i o fits room enough short = ground arith
