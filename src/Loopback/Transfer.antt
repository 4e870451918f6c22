-- ===== src/Loopback/Transfer.antt =====
-- run_dma_loopback of apps/fpga_static_probe.cpp, which is the body of run_test of
-- apps/axi_dma_test.cpp. What the DMA core leaves in the buffer, after the accesses to its registers,
-- is a parameter.
use ece506scheduler.Base.{
  ℕ, zero, suc, ◌+◌, ◌*◌, ◌/◌, ◌%◌, ◌^◌, ◌==◌, ltb, Bool, true, false, not, ◌||◌, List, [], ◌∷◌,
  ◌++◌, Option, none, some, Text, text, if◌then◌else◌,
}
use ece506scheduler.Hardware.Regs.{Access, wrote, read, Regs, pause_us, bit, error_bits}
use ece506scheduler.Hardware.Dma.{program, mm2s_dmasr, s2mm_dmasr}
use ece506scheduler.Hardware.Udmabuf.{Sysfs, read_value}

-- A byte for every offset into the buffer.
abbrev pub Memory : Type 0
Memory = ℕ → ℕ

-- The loop over `i < count`, for in[i] = i & 0xFF.
unfoldable pub fill_pattern : ℕ → Memory → Memory
fill_pattern zero mem = mem
fill_pattern (suc i) mem = λ k. if k == i then i % 256 else fill_pattern i mem k

-- std::memset(buf + base, 0, count)
unfoldable pub clear_bytes : ℕ → ℕ → Memory → Memory
clear_bytes base zero mem = mem
clear_bytes base (suc i) mem = λ k. if k == base + i then 0 else clear_bytes base i mem k

-- The loop over `i < count` that counts where in[i] and out[i] differ.
unfoldable pub mismatches : ℕ → ℕ → Memory → ℕ
mismatches half zero mem = 0
mismatches half (suc i) mem = (if mem i == mem (half + i) then 0 else 1) + mismatches half i mem

-- DmaDevice::write and read, by pwrite and pread: they raise no signal. Where pread fails, the value
-- is what it left in the variable.
unfoldable pub device_write : ℕ → ℕ → Regs → Regs
device_write offset value r = record r { count = suc r.count; trace = wrote offset value ∷ r.trace }

unfoldable pub device_read : ℕ → Regs → ℕ × Regs
device_read offset r =
    (r.values r.count % 2 ^ 32, record r { count = suc r.count; trace = read offset ∷ r.trace })

unfoldable pub device_writes : List (ℕ × ℕ) → Regs → Regs
device_writes [] r = r
device_writes ((offset, value) ∷ rest) r = device_writes rest (device_write offset value r)

-- The loop of wait_for_idle with the polls left. A timeout reads the status once more for its message.
unfoldable pub poll_channel : ℕ → ℕ → Regs → Bool × Regs
poll_channel zero status_reg r = (false, (device_read status_reg r).1)
poll_channel (suc polls) status_reg r =
    let (status, r') = device_read status_reg r in
    let later = poll_channel polls status_reg (pause_us 250 r') in
    if error_bits status then (false, r') else if bit 1 status then (true, r') else later

-- timeout_ms * 4, as an `unsigned`.
abbrev pub poll_count : ℕ → ℕ
poll_count timeout_ms = timeout_ms * 4 % 2 ^ 32

unfoldable pub wait_channel : ℕ → ℕ → Regs → Bool × Regs
wait_channel status_reg timeout_ms r = poll_channel (poll_count timeout_ms) status_reg r

-- UdmabufRegion::init: the size and the physical address.
unfoldable pub open_udmabuf : Sysfs → Text → Option (ℕ × ℕ)
open_udmabuf sys name =
    let base = text "/sys/class/u-dma-buf/" ++ name in
    let dev_path = text "/dev/" ++ name in
    elim (read_value sys (base ++ text "/size")) [
      | none ↦ none
      | some size ↦ elim (read_value sys (base ++ text "/phys_addr")) [
        | none ↦ none
        | some phys ↦
            if not (sys.opens dev_path) || not (sys.maps dev_path) then none else some (size, phys)
      ]
    ]

pub record LoopbackOptions : Type 0 where
  pub device : Text
  pub udmabuf : Text
  pub bytes : ℕ
  pub timeout_ms : ℕ

-- The system's files, what the buffer holds at first, and what the core leaves in it.
pub record Bench : Type 0 where
  pub sys : Sysfs
  pub buffer : Memory
  pub engine : List Access → Memory → Memory

-- The waits and the comparison, once the transfer is programmed.
unfoldable pub check_loopback : Bench → (half bytes timeout_ms : ℕ) → Memory → Regs → Bool × Regs
check_loopback b half bytes timeout_ms mem r =
    let (mm2s_ok, r1) = wait_channel mm2s_dmasr timeout_ms r in
    let (s2mm_ok, r2) = wait_channel s2mm_dmasr timeout_ms r1 in
    let (_, r3) = device_read mm2s_dmasr r2 in
    let (_, r4) = device_read s2mm_dmasr r3 in
    (
      (if not mm2s_ok || not s2mm_ok
          then false
          else mismatches half bytes (b.engine r4.trace mem) == 0),
      r4,
    )

unfoldable pub start_loopback : Bench → LoopbackOptions → (size phys : ℕ) → Regs → Bool × Regs
start_loopback b opts size phys r =
    let half = size / 2 in
    let bytes = if opts.bytes == 0 then half else opts.bytes in
    if half == 0 || ltb half bytes
    then (false, r)
    else if not (b.sys.opens opts.device)
    then (false, r)
    else check_loopback b half bytes opts.timeout_ms
        (clear_bytes half bytes (fill_pattern bytes b.buffer))
        (device_writes (program phys (phys + half) bytes) r)

unfoldable pub run_dma_loopback : Bench → LoopbackOptions → Regs → Bool × Regs
run_dma_loopback b opts r = elim (open_udmabuf b.sys opts.udmabuf) [
  | none ↦ (false, r)
  | some (size, phys) ↦ start_loopback b opts size phys r
]
