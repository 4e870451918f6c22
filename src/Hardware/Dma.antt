-- ===== src/Hardware/Dma.antt =====
-- AxiDmaController of src/accelerators.cpp. The dumps of registers that it makes for debugging are
-- read by nothing and are left out, as are its messages: this is the code with debug_ off.
use ece506scheduler.Base.{
  ℕ, zero, suc, ◌/◌, ◌%◌, ◌^◌, ◌==◌, Bool, true, false, not, ◌||◌, List, [], ◌∷◌, if◌then◌else◌,
  Option, none, some, Text, text, is_empty,
}
use ece506scheduler.Hardware.Regs.{
  Regs, Ran, fault, done, and_then, write_reg, read_reg, pause_us, bit, error_bits,
}

abbrev pub mm2s_dmacr : ℕ
mm2s_dmacr = 0

abbrev pub mm2s_dmasr : ℕ
mm2s_dmasr = 4

abbrev pub mm2s_sa : ℕ
mm2s_sa = 24

abbrev pub mm2s_sa_msb : ℕ
mm2s_sa_msb = 28

abbrev pub mm2s_length : ℕ
mm2s_length = 40

abbrev pub s2mm_dmacr : ℕ
s2mm_dmacr = 48

abbrev pub s2mm_dmasr : ℕ
s2mm_dmasr = 52

abbrev pub s2mm_da : ℕ
s2mm_da = 72

abbrev pub s2mm_da_msb : ℕ
s2mm_da_msb = 76

abbrev pub s2mm_length : ℕ
s2mm_length = 88

-- 0xFFFFFFFF
abbrev pub all_ones : ℕ
all_ones = 4_294_967_295

-- kDmaCrRunStop | kDmaCrIoC | kDmaCrErr
abbrev pub run_bits : ℕ
run_bits = 81

-- Writes of registers, one after the other.
unfoldable pub write_all : List (ℕ × ℕ) → Regs → Ran (Unit {0})
write_all [] r = done tt r
write_all ((offset, value) ∷ rest) r =
    and_then (write_reg offset value r) (λ _ r'. write_all rest r')

-- The loop of wait_for_idle with the rounds left: no error bit, and the idle bit.
unfoldable pub poll_idle : ℕ → ℕ → Regs → Ran Bool
poll_idle zero status_reg r = done false r
poll_idle (suc rounds) status_reg r = and_then (read_reg status_reg r) (λ status r'.
    let later = poll_idle rounds status_reg (pause_us 500 r') in
    if error_bits status then done false r' else if bit 1 status then done true r' else later)

unfoldable pub wait_for_idle : Bool → Regs → Ran Bool
wait_for_idle mm2s r = poll_idle 4000 (if mm2s then mm2s_dmasr else s2mm_dmasr) r

-- The loop of reset_channel with the rounds left; running out of them is no failure.
unfoldable pub poll_reset : ℕ → ℕ → Regs → Ran (Unit {0})
poll_reset zero control r = done tt r
poll_reset (suc rounds) control r = and_then (read_reg control r) (λ value r'.
    let later = poll_reset rounds control (pause_us 1000 r') in
    if bit 2 value then later else done tt r')

unfoldable pub reset_channel : Bool → Regs → Ran (Unit {0})
reset_channel s2mm r =
    let control = if s2mm then s2mm_dmacr else mm2s_dmacr in
    and_then (write_reg control 4 r) (λ _ r1.
      and_then (poll_reset 1000 control r1)
        (λ _ r2. write_reg (if s2mm then s2mm_dmasr else mm2s_dmasr) all_ones r2))

pub record Controller : Type 0 where
  pub use_device : Bool
  pub device_path : Text
  pub device_open : Bool
  pub mem_open : Bool
  pub mapped : Bool
  pub ready : Bool

-- What the system answers to init: SCHEDRT_DMA_DEVICE, and whether open() and mmap() succeed.
pub record Platform : Type 0 where
  pub custom_dev : Option Text
  pub opens : Text → Bool
  pub maps : Bool

unfoldable pub try_open_device : Platform → Controller → Bool × Controller
try_open_device p c =
    let c' =
      if is_empty c.device_path then record c { device_path = text "/dev/axi_dma_regs" } else c in
    if p.opens c'.device_path
    then (true, record c' { use_device = true; device_open = true })
    else (false, record c' { device_open = false })

unfoldable pub cleanup_mapping : Controller → Controller
cleanup_mapping c =
    if c.use_device
    then record c { device_open = false; ready = false }
    else record c { mapped = false; mem_open = false; ready = false }

-- What init does under its SigbusScope: the two resets of the mapped registers.
unfoldable pub reset_both : Regs → Ran (Unit {0})
reset_both r = and_then (reset_channel true r) (λ _ r'. reset_channel false r')

unfoldable pub map_registers : Platform → Controller → Regs → Bool × Controller × Regs
map_registers p c r =
    if not (p.opens (text "/dev/mem"))
    then (false, cleanup_mapping c, r)
    else if not p.maps
    then (false, cleanup_mapping (record c { mem_open = false }), r)
    else let c' = record c { mem_open = true; mapped = true } in
      elim (reset_both r) [
        | fault r' ↦ (false, cleanup_mapping c', r')
        | done _ r' ↦ (true, record c' { ready = true }, r')
      ]

unfoldable pub init : Platform → Controller → Regs → Bool × Controller × Regs
init p c r =
    let named : Controller = elim p.custom_dev [
      | none ↦ c
      | some dev ↦ record c { device_path = dev }
    ] in
    let (opened, c') = try_open_device p named in
    if opened
    then (true, record c' { ready = true }, record r { use_device = true })
    else map_registers p c' r

-- The writes of a transfer, in their order: the two status registers, the channel to memory, and
-- the channel from memory.
abbrev pub program : ℕ → ℕ → ℕ → List (ℕ × ℕ)
program src_phys dst_phys bytes =
    (s2mm_dmasr, all_ones)
    ∷ (mm2s_dmasr, all_ones)
    ∷ (s2mm_dmacr, run_bits)
    ∷ (s2mm_da, dst_phys % 2 ^ 32)
    ∷ (s2mm_da_msb, dst_phys / 2 ^ 32 % 2 ^ 32)
    ∷ (s2mm_length, bytes % 2 ^ 32)
    ∷ (mm2s_dmacr, run_bits)
    ∷ (mm2s_sa, src_phys % 2 ^ 32)
    ∷ (mm2s_sa_msb, src_phys / 2 ^ 32 % 2 ^ 32)
    ∷ (mm2s_length, bytes % 2 ^ 32)
    ∷ []

-- The two status reads at the end.
unfoldable pub final_status : Regs → Ran Bool
final_status r = and_then (read_reg mm2s_dmasr r) (λ mm2s r1.
    and_then (read_reg s2mm_dmasr r1)
      (λ s2mm r2. done (not (error_bits mm2s || error_bits s2mm)) r2))

-- What follows the two waits. A timeout reads the status once more for its message.
unfoldable pub to_memory_done : Bool → Regs → Ran Bool
to_memory_done false r = and_then (read_reg s2mm_dmasr r) (λ _ r'. done false r')
to_memory_done true r = final_status r

unfoldable pub from_memory_done : Bool → Regs → Ran Bool
from_memory_done false r = and_then (read_reg mm2s_dmasr r) (λ _ r'. done false r')
from_memory_done true r = and_then (wait_for_idle false r) to_memory_done

unfoldable pub run_transfer : ℕ → ℕ → ℕ → Regs → Ran Bool
run_transfer src_phys dst_phys bytes r =
    and_then (write_all (program src_phys dst_phys bytes) r)
      (λ _ r1. and_then (wait_for_idle true r1) from_memory_done)

unfoldable pub transfer : ℕ → ℕ → ℕ → Controller → Regs → Bool × Controller × Regs
transfer src_phys dst_phys bytes c r =
    if not c.ready || bytes == 0
    then (c.ready, c, r)
    else elim (run_transfer src_phys dst_phys bytes r) [
      | fault r' ↦ (false, record c { ready = false }, r')
      | done ok r' ↦ (ok, (if ok then c else record c { ready = false }), r')
    ]
