-- ===== src/Examples/Accelerated.antt =====
-- The FFT core, its DMA and the ZIP operation of src/accelerators.cpp at concrete inputs.
use ece506scheduler.Base.{
  ◌+◌, ◌*◌, ◌/◌, ◌<◌, ◌≤◌, ◌≡◌, refl, pos, negsuc, true, false, [], ◌∷◌, some, none, ℕ, Text, text,
  ◌++◌, arith, if◌then◌else◌, ltb, length, if_ind, ap, sym, ◌-◌, ◌%◌, ◌^◌, ℤ, List,
}
use ece506scheduler.Hardware.Regs.{Regs, write_reg, read_reg, pause_us}
use ece506scheduler.Hardware.Dma.{
  Controller, Platform, write_all, poll_idle, wait_for_idle, final_status, to_memory_done,
  from_memory_done, run_transfer, transfer,
}
use ece506scheduler.Hardware.Programs.{writes, transfer-writes, transfer_failed}
use ece506scheduler.Hardware.FftRunner.{
  FftContext, new_controller, sample_count, plan_transfer, length_of, fft_length, new_runner,
  refused,
}
use ece506scheduler.Hardware.Bounds.{plan_transfer_lem, plan_transfer-takes_short}
use ece506scheduler.Hardware.Udmabuf.{Sysfs}
use ece506scheduler.Hardware.Attempt.{Shared, run_fft_branch, run_fft_branch_lem}
use ece506scheduler.Hardware.Zip.{
  Zlib, ZipContext, call_zlib, finish_zip, run_zip_operation, IsLossless, zip_roundtrip,
}

-- Registers that read as idle, and registers that read as an error.
abbrev idle : Regs
idle = record { use_device = true; faults = λ n. false; values = λ n. 2; count = 0; trace = [] }

abbrev broken : Regs
broken = record { use_device = true; faults = λ n. false; values = λ n. 16; count = 0; trace = [] }

abbrev controller : Controller
controller = record new_controller { ready = true }

dma : Unit {0}
unfolding write_reg read_reg pause_us write_all poll_idle wait_for_idle final_status to_memory_done
    from_memory_done run_transfer transfer
dma = tt

idle-succeeds : (transfer 4096 8192 64 controller idle).0 ≡ true
unfolding dma
idle-succeeds = refl

broken-fails : (transfer 4096 8192 64 controller broken).0 ≡ false
unfolding dma
broken-fails = refl

transfer-writes_example :
    writes (transfer 4096 8192 64 controller idle).2.trace
    ≡ (40, 64 % 2 ^ 32)
      ∷ (28, 4096 / 2 ^ 32 % 2 ^ 32)
      ∷ (24, 4096 % 2 ^ 32)
      ∷ (0, 2 ^ 0 + 2 ^ 4 + 2 ^ 6)
      ∷ (88, 64 % 2 ^ 32)
      ∷ (76, 8192 / 2 ^ 32 % 2 ^ 32)
      ∷ (72, 8192 % 2 ^ 32)
      ∷ (48, 2 ^ 0 + 2 ^ 4 + 2 ^ 6)
      ∷ (4, 2 ^ 32 - 1)
      ∷ (52, 2 ^ 32 - 1)
      ∷ writes idle.trace
transfer-writes_example =
    transfer-writes 4096 8192 64 controller idle refl (omega arith) idle-succeeds

transfer_failed_example :
    transfer 4096 8192 64 (transfer 4096 8192 64 controller broken).1 idle
    ≡ (false, (transfer 4096 8192 64 controller broken).1, idle)
transfer_failed_example =
    transfer_failed 4096 8192 64 4096 8192 64 controller broken idle broken-fails

-- 16 samples, with room for 16 floats in the input and for 32 in the output.
abbrev context : FftContext
context = record {
  n = pos 16;
  in_data = true;
  in_bytes = 64;
  out_data = true;
  out_bytes = 128;
  ok = false;
  message = [];
}

context-planned : plan_transfer 524_288 context ≡ some (16, 64)
unfolding plan_transfer sample_count
context-planned = refl

context-length : fft_length context ≡ length_of 16
unfolding fft_length
context-length = refl

plan_transfer_lem_example :
    (0 < 16)
    × (64 ≡ 4 * 16)
    × (64 ≤ 524_288 / 2)
    × (524_288 / 2 + 64 ≤ 524_288)
    × (8 * 16 ≤ context.out_bytes)
plan_transfer_lem_example =
    plan_transfer_lem 524_288 context 16 64 (omega arith) (omega arith) (omega arith)
      context-planned

-- A runner whose hardware reports errors, shared by the slots.
abbrev worn : Shared
worn = record {
  runner = some (record new_runner { dma = controller; ready = true });
  regs = broken;
}

abbrev no_files : Sysfs
no_files = record { word = λ path. none; opens = λ path. false; maps = λ path. false }

abbrev no_devices : Platform
no_devices = record { custom_dev = none; opens = λ path. false; maps = false }

run_fft_branch_lem_example :
    let (answer, ctx', s') = run_fft_branch no_files no_devices none context worn in
    (ctx'.ok ≡ answer.ok)
    × ((n : ℕ) → fft_length context ≡ length_of n → answer.ok ≡ true)
    × (answer.ok ≡ false
        → (why : Text) × (fft_length context ≡ refused why)
          × (answer.message ≡ why ++ text " (cpu fallback)"))
run_fft_branch_lem_example = run_fft_branch_lem no_files no_devices none context worn

plan_transfer-takes_short_example :
    (fft_length context ≡ length_of 16) × (plan_transfer 524_288 context ≡ some (16, 4 * 16))
plan_transfer-takes_short_example =
    plan_transfer-takes_short 524_288 16 context refl (omega arith) (omega arith) refl refl
      (omega arith) (omega arith) (omega arith) (omega arith)

-- A zlib that stores its input as it is.
abbrev stored : ℕ → List ℕ → ℤ × ℕ × List ℕ
stored room src = if ltb room (length src) then (negsuc 4, 0, []) else (pos 0, length src, src)

abbrev plain_zlib : Zlib
plain_zlib = record { compress2 = λ room src level. stored room src; uncompress = stored }

stored-bytes :
    (room len : ℕ) (src bytes : List ℕ) → stored room src ≡ (pos 0, len, bytes) → bytes ≡ src
stored-bytes room len src bytes =
    if_ind (λ (r : ℤ × ℕ × List ℕ). r ≡ (pos 0, len, bytes) → bytes ≡ src) (ltb room (length src))
      (λ _ e. cc) (λ _ e. ap (λ r. r.2) (sym e))

plain-IsLossless : IsLossless plain_zlib
plain-IsLossless room room' level len src bytes small e enough =
    rw (stored-bytes room len src bytes e) (
      if_ind (λ (r : ℤ × ℕ × List ℕ). r ≡ (pos 0, length src, src)) (ltb room' (length src))
        (λ short. absurd (ground (arith, enough))) (λ _. refl))

-- Two bytes to compress, and the two bytes to decompress.
abbrev zip_context : ZipContext
zip_context = record {
  level = pos 12;
  compress = true;
  input = some (7 ∷ 7 ∷ []);
  room = some 4;
  out_actual = true;
  actual = 5;
  output = [];
  ok = false;
  message = [];
}

abbrev unzip_context : ZipContext
unzip_context = record zip_context { compress = false; room = some 3 }

zipped : Unit {0}
unfolding run_zip_operation call_zlib finish_zip
zipped = tt

zip-succeeds : (run_zip_operation plain_zlib zip_context).0 ≡ true
unfolding zipped
zip-succeeds = refl

zip-written : unzip_context.input ≡ some (run_zip_operation plain_zlib zip_context).1.output
unfolding zipped
zip-written = refl

zip_roundtrip_example :
    let (ok, back) = run_zip_operation plain_zlib unzip_context in
    (ok ≡ true)
    × (back.ok ≡ true)
    × (back.output ≡ 7 ∷ 7 ∷ [])
    × (unzip_context.out_actual ≡ true → back.actual ≡ 2)
zip_roundtrip_example =
    zip_roundtrip plain_zlib plain-IsLossless zip_context unzip_context (7 ∷ 7 ∷ []) 4 3 refl refl
      refl zip-succeeds zip-written refl refl (omega arith)
