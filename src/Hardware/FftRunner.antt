-- ===== src/Hardware/FftRunner.antt =====
-- FftHwRunner and acquire_fft_runner of src/accelerators.cpp. The samples, their conversion between
-- floats and 16-bit numbers, and the trace lines are not modelled; the base address of the DMA's
-- registers only says what Platform maps.
use ece506scheduler.Base.{
  ℕ, suc, ◌+◌, ◌-◌, ◌*◌, ◌/◌, ◌%◌, ◌^◌, ◌==◌, ℤ, pos, negsuc, ltb, Bool, true, false, not, ◌||◌, [],
  ◌++◌, Option, none, some, Text, text, to_string, if◌then◌else◌,
}
use ece506scheduler.Hardware.Regs.{Regs}
use ece506scheduler.Hardware.Dma.{Controller, Platform, init, transfer}
use ece506scheduler.Hardware.Udmabuf.{Sysfs, UdmabufRegion, new_region, init_region}

pub record FftHwRunner : Type 0 where
  pub buffer : UdmabufRegion
  pub dma : Controller
  pub input_offset : ℕ
  pub output_offset : ℕ
  pub ready : Bool

-- The controller that initialize makes.
abbrev pub new_controller : Controller
new_controller = record {
  use_device = false;
  device_path = [];
  device_open = false;
  mem_open = false;
  mapped = false;
  ready = false;
}

abbrev pub new_runner : FftHwRunner
new_runner = record {
  buffer = new_region;
  dma = new_controller;
  input_offset = 0;
  output_offset = 0;
  ready = false;
}

-- initialize, with the value of SCHEDRT_UDMABUF.
unfoldable pub initialize :
    Sysfs → Platform → Option Text → FftHwRunner → Regs → Bool × FftHwRunner × Regs
initialize sys p env f r =
    let udmabuf_name : Text = elim env [ none ↦ text "udmabuf0" | some name ↦ name ] in
    let (found, buffer) = init_region sys udmabuf_name (2 ^ 19) f.buffer in
    let f1 = record f { buffer = buffer } in
    if not found
    then (false, f1, r)
    else let (ok, dma, r') = init p new_controller r in
      if not ok then (false, record f1 { dma = dma }, r') else (
        true,
        record f1 { dma = dma; input_offset = 0; output_offset = buffer.size / 2; ready = true },
        r',
      )

-- The static pointer of acquire_fft_runner: it tries again as long as there is no runner.
unfoldable pub acquire_fft_runner :
    Sysfs → Platform → Option Text → Option FftHwRunner → Regs → Option FftHwRunner × Regs
acquire_fft_runner sys p env (some f) r = (some f, r)
acquire_fft_runner sys p env none r =
    let (ok, f, r') = initialize sys p env new_runner r in (if ok then some f else none, r')

-- The parts of FftContext that decide: the plan's length, whether the two pointers are set, and the
-- sizes in bytes; and the parts that are answered.
pub record FftContext : Type 0 where
  pub n : ℤ
  pub in_data : Bool
  pub in_bytes : ℕ
  pub out_data : Bool
  pub out_bytes : ℕ
  pub ok : Bool
  pub message : Text

-- An int as a size_t, which has 64 bits in this model, as on a 64-bit ARM.
abbrev pub to_size : ℤ → ℕ
to_size (pos k) = k
to_size (negsuc k) = 2 ^ 64 - suc k

abbrev pub is_zero : ℤ → Bool
is_zero (pos k) = k == 0
is_zero (negsuc k) = false

unfoldable pub sample_count : FftContext → ℕ
sample_count ctx = if is_zero ctx.n then ctx.in_bytes / 8 else to_size ctx.n

-- The checks of execute: the number of samples and the bytes to transfer, if it goes on.
unfoldable pub plan_transfer : ℕ → FftContext → Option (ℕ × ℕ)
plan_transfer size ctx =
    let count = sample_count ctx in
    let bytes = count * 4 % 2 ^ 64 in
    if not ctx.in_data || not ctx.out_data
    then none
    else if count == 0
    then none
    else if ltb (size / 2) bytes
    then none
    else if ltb ctx.out_bytes (count * 8 % 2 ^ 64)
    then none
    else some (count, bytes)

unfoldable pub launch :
    ℕ → ℕ → FftContext → FftHwRunner → Regs → Bool × FftContext × FftHwRunner × Regs
launch count bytes ctx f r =
    let src = (f.buffer.phys + f.input_offset) % 2 ^ 64 in
    let dst = (f.buffer.phys + f.output_offset) % 2 ^ 64 in
    let (ok, dma, r') = transfer src dst bytes f.dma r in
    let f' = record f { dma = dma } in
    if not ok
    then (false, record ctx { ok = false; message = text "fft: hw DMA failure" }, f', r')
    else (true, record ctx { ok = true; message = text "fft: hw n=" ++ to_string count }, f', r')

unfoldable pub execute_fft :
    FftContext → FftHwRunner → Regs → Bool × FftContext × FftHwRunner × Regs
execute_fft ctx f r =
    if not f.ready then (false, ctx, f, r) else elim (plan_transfer f.buffer.size ctx) [
      | none ↦ (false, ctx, f, r)
      | some (count, bytes) ↦ launch count bytes ctx f r
    ]

-- The checks of run_fft_operation: the length of the transform, or the message of a refusal.
pub data Length : Type 0 where
  refused : Text → Length
  length_of : ℕ → Length

unfoldable pub fft_length : FftContext → Length
fft_length ctx =
    let max_in = ctx.in_bytes / 4 in
    let max_out = ctx.out_bytes / 4 in
    let n =
      if is_zero ctx.n then (if ltb max_out max_in then max_out else max_in) else to_size ctx.n in
    if not ctx.in_data || not ctx.out_data
    then refused (text "fft: missing buffers")
    else if n == 0 || ltb max_in n || ltb max_out n
    then refused (text "fft: buffer sizes insufficient")
    else length_of n

-- run_fft_operation's answer and context; the sums of floats are not modelled.
unfoldable pub run_fft_operation : FftContext → Bool × FftContext
run_fft_operation ctx = elim (fft_length ctx) [
  | refused why ↦ (false, record ctx { ok = false; message = why })
  | length_of n ↦ (true, record ctx { ok = true; message = text "fft: computed n=" ++ to_string n })
]
