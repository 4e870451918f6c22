-- ===== src/Loopback/DmaTest.antt =====
-- apps/axi_dma_test.cpp.
use ece506scheduler.Base.{
  ℕ, Bool, ◌%◌, ◌^◌, List, [], ◌∷◌, Option, none, some, Text, text, if◌then◌else◌,
}
use ece506scheduler.Hardware.Regs.{Regs}
use ece506scheduler.Hardware.Udmabuf.{Sysfs, stoull_any, read_value}
use ece506scheduler.Loopback.Transfer.{
  LoopbackOptions, Bench, run_dma_loopback, open_udmabuf, device_read, device_write, wait_channel,
}
use ece506scheduler.Loopback.Rules.{ArgRule, checked, exits, collected, scan_args}

abbrev pub dma_test_defaults : LoopbackOptions
dma_test_defaults = record {
  device = text "/dev/axi_dma_regs";
  udmabuf = text "udmabuf0";
  bytes = 262_144;
  timeout_ms = 100;
}

unfoldable pub set_bytes : Text → LoopbackOptions → Option LoopbackOptions
set_bytes value o = elim (stoull_any value) [ none ↦ none | some n ↦ some (record o { bytes = n }) ]

unfoldable pub set_timeout : Text → LoopbackOptions → Option LoopbackOptions
set_timeout value o = elim (stoull_any value) [
  | none ↦ none
  | some n ↦ some (record o { timeout_ms = n % 2 ^ 32 })
]

abbrev pub dma_test_rules : List (ArgRule LoopbackOptions)
dma_test_rules =
    checked (text "--device=") (λ v o. some (record o { device = v }))
    ∷ checked (text "--udmabuf=") (λ v o. some (record o { udmabuf = v }))
    ∷ checked (text "--bytes=") set_bytes
    ∷ checked (text "--timeout-ms=") set_timeout
    ∷ []

unfoldable pub run_test : Bench → LoopbackOptions → Regs → ℕ × Regs
run_test b opts r = let (ok, r') = run_dma_loopback b opts r in (if ok then 0 else 1, r')

-- main, for the arguments behind the program's name: the exit code.
unfoldable pub dma_test_main : Bench → List Text → Regs → ℕ × Regs
dma_test_main b args r = elim (scan_args dma_test_rules args dma_test_defaults) [
  | exits code ↦ (code, r)
  | collected opts ↦ run_test b opts r
]

-- The functions below main's: parse_size, read_uint64, UdmabufRegion::init, Device::read and write, and
-- wait_for_idle, as run_dma_loopback has them.
abbrev pub test_size : Text → Option ℕ
test_size = stoull_any

abbrev pub read_uint64 : Sysfs → Text → Option ℕ
read_uint64 = read_value

abbrev pub test_udmabuf : Sysfs → Text → Option (ℕ × ℕ)
test_udmabuf = open_udmabuf

abbrev pub test_read : ℕ → Regs → ℕ × Regs
test_read = device_read

abbrev pub test_write : ℕ → ℕ → Regs → Regs
test_write = device_write

abbrev pub test_wait : ℕ → ℕ → Regs → Bool × Regs
test_wait = wait_channel
