-- ===== src/Hardware/Attempt.antt =====
-- The FFT branch of FpgaSlotAccelerator::run in src/accelerators.cpp with the shared hardware runner:
-- the attempt on the hardware, and the fallback to the processor.
use mathlib.Core.Bool.{false≢true}
use ece506scheduler.Base.{
  ◌≡◌, refl, sym, ◌∙◌, ℕ, Bool, true, false, ◌&&◌, Option, none, some, Text, text, ◌++◌,
  Option-cases, inl, inr, if◌then◌else◌, arith,
}
use ece506scheduler.Hardware.Regs.{Regs}
use ece506scheduler.Hardware.Dma.{Platform}
use ece506scheduler.Hardware.Udmabuf.{Sysfs}
use ece506scheduler.Hardware.FftRunner.{
  FftHwRunner, FftContext, acquire_fft_runner, launch, execute_fft, length_of, fft_length,
  run_fft_operation, Length, refused,
}

-- The runner that acquire_fft_runner keeps, and the registers.
pub record Shared : Type 0 where
  pub runner : Option FftHwRunner
  pub regs : Regs

-- `ok` and `message` of run.
pub record Answer : Type 0 where
  pub ok : Bool
  pub message : Text

-- execute on the runner, if it is available: whether it ran.
unfoldable pub try_runner : FftContext → FftHwRunner → Regs → Bool × FftContext × FftHwRunner × Regs
try_runner ctx f r = if f.ready then execute_fft ctx f r else (false, ctx, f, r)

-- What the branch does once the attempt is over.
unfoldable pub after_attempt : Bool → FftContext → Answer × FftContext
after_attempt ran_hw ctx =
    if ran_hw
    then (record { ok = ran_hw && ctx.ok; message = ctx.message }, ctx)
    else let (ok, ctx') = run_fft_operation ctx in
      (record { ok = ok; message = ctx'.message ++ text " (cpu fallback)" }, ctx')

unfoldable pub run_fft_branch :
    Sysfs → Platform → Option Text → FftContext → Shared → Answer × FftContext × Shared
run_fft_branch sys p env ctx s =
    let (runner, r) = acquire_fft_runner sys p env s.runner s.regs in
    elim runner [
      | none ↦
          let (answer, ctx') = after_attempt false ctx in
          (answer, ctx', record { runner = none; regs = r })
      | some f ↦
          let (ran_hw, ctx1, f', r') = try_runner ctx f r in
          let (answer, ctx') = after_attempt ran_hw ctx1 in
          (answer, ctx', record { runner = some f'; regs = r' })
    ]

-- What the plan and the buffers of a context say, which nothing of this changes.
abbrev SameRequest : FftContext → FftContext → Type 0
SameRequest ctx ctx' =
    (ctx'.n ≡ ctx.n)
    × (ctx'.in_data ≡ ctx.in_data)
    × (ctx'.in_bytes ≡ ctx.in_bytes)
    × (ctx'.out_data ≡ ctx.out_data)
    × (ctx'.out_bytes ≡ ctx.out_bytes)

-- An attempt leaves the request, and where it ran the context says that it is well.
abbrev Attempted : FftContext → Bool × FftContext × FftHwRunner × Regs → Type 0
Attempted ctx (ran_hw, ctx', f, r) = SameRequest ctx ctx' × (ran_hw ≡ true → ctx'.ok ≡ true)

try_runner-Attempted :
    (ctx : FftContext) (f : FftHwRunner) (r : Regs) → Attempted ctx (try_runner ctx f r)
unfolding try_runner execute_fft launch
try_runner-Attempted ctx f r = ground arith

fft_length-same : (ctx ctx' : FftContext) → SameRequest ctx ctx' → fft_length ctx' ≡ fft_length ctx
unfolding fft_length
fft_length-same ctx ctx' (n, i, ib, o, ob) = rw (n, i, ib, o, ob) refl

-- An answer on `ctx`: it says what the context says, a length that fits is answered with success, and
-- a failure is that of the processor's checks.
abbrev Settled : Length → Answer → FftContext → Type 0
Settled l answer ctx' =
    (ctx'.ok ≡ answer.ok)
    × ((n : ℕ) → l ≡ length_of n → answer.ok ≡ true)
    × (answer.ok ≡ false
        → (why : Text) × (l ≡ refused why) × (answer.message ≡ why ++ text " (cpu fallback)"))

fallback-Settled :
    (ctx : FftContext) (l : Length)
    → fft_length ctx ≡ l
    → Settled l (after_attempt false ctx).0 (after_attempt false ctx).1
unfolding after_attempt run_fft_operation
fallback-Settled ctx (refused why) e =
    rw (e, run_fft_operation) (refl, λ n h. cc, λ h. (why, refl, refl))
fallback-Settled ctx (length_of n) e = rw (e, run_fft_operation) (refl, λ m h. refl, λ h. cc)

after_attempt-Settled :
    (ran_hw : Bool) (ctx : FftContext) (l : Length)
    → (ran_hw ≡ true → ctx.ok ≡ true)
    → fft_length ctx ≡ l
    → Settled l (after_attempt ran_hw ctx).0 (after_attempt ran_hw ctx).1
unfolding after_attempt
after_attempt-Settled true ctx l ok e =
    (refl, λ n h. ok refl, λ h. absurd (false≢true (sym h ∙ ok refl)))
after_attempt-Settled false ctx l ok e = fallback-Settled ctx l e

-- Whatever the hardware answers, time-outs, bus errors and a missing device included: the context's
-- flag is the answer, a context whose length run_fft_operation takes is answered with success, and
-- where the answer is a failure run_fft_operation refuses the context, with the message given.
pub run_fft_branch_lem :
    (sys : Sysfs) (p : Platform) (env : Option Text) (ctx : FftContext) (s : Shared)
    → let (answer, ctx', s') = run_fft_branch sys p env ctx s in
      (ctx'.ok ≡ answer.ok)
      × ((n : ℕ) → fft_length ctx ≡ length_of n → answer.ok ≡ true)
      × (answer.ok ≡ false
          → (why : Text) × (fft_length ctx ≡ refused why)
            × (answer.message ≡ why ++ text " (cpu fallback)"))
unfolding run_fft_branch
run_fft_branch_lem sys p env ctx s =
    let r = (acquire_fft_runner sys p env s.runner s.regs).1 in
    elim (Option-cases (acquire_fft_runner sys p env s.runner s.regs).0) [
      | inl e ↦ rw (e, run_fft_branch) (after_attempt-Settled false ctx _ (λ h. cc) refl)
      | inr (f, e) ↦
          let (same, ok) = try_runner-Attempted ctx f r in
          rw (e, run_fft_branch)
            (after_attempt-Settled (try_runner ctx f r).0 (try_runner ctx f r).1 (fft_length ctx) ok
              (fft_length-same ctx _ same))
    ]
