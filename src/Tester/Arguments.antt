-- ===== src/Tester/Arguments.antt =====
-- The command line of apps/fpga_pr_tester.cpp.
use ece506scheduler.Base.{
  ℕ, ◌%◌, ◌^◌, Bool, true, false, ◌||◌, List, [], ◌∷◌, ◌++◌, Option, none, some, Text, text,
  text_eq, if◌then◌else◌,
}
use ece506scheduler.Hardware.Udmabuf.{stoull_any}
use ece506scheduler.Runner.Options.{value_of}
use ece506scheduler.Tester.Parsing.{
  FftPattern, impulse, MmioProbe, TestOverlay, parse_size, parse_number, split_colon, parse_overlay,
  parse_fft_pattern, parse_mmio_probe,
}

pub record Config : Type 0 where
  pub fpga_manager : Text
  pub static_bitstream : Text
  pub bitstream_dir : Text
  pub fpga_real : Bool
  pub fpga_debug : Bool
  pub run_fft : Bool
  pub fft_iterations : ℕ
  pub fft_length : ℕ
  pub fft_inverse : Bool
  pub fft_pattern : FftPattern
  pub fft_dump : Bool
  pub udmabuf_name : Option Text
  pub dma_base : Option Text
  pub dma_debug : Bool
  pub mmio_probes : List MmioProbe

abbrev pub default_config : Config
default_config = record {
  fpga_manager = text "/sys/class/fpga_manager/fpga0/firmware";
  static_bitstream = text "bitstreams/static_wrapper.bit";
  bitstream_dir = text "bitstreams";
  fpga_real = false;
  fpga_debug = false;
  run_fft = false;
  fft_iterations = 1;
  fft_length = 1024;
  fft_inverse = false;
  fft_pattern = impulse;
  fft_dump = false;
  udmabuf_name = none;
  dma_base = none;
  dma_debug = false;
  mmio_probes = [];
}

-- The configuration and the overlays, which the loop over the arguments fills.
abbrev pub Collected : Type 0
Collected = Config × List TestOverlay

-- A test of the loop: `arg == name`, or a prefix, with `none` where the value ends the program.
pub data TestRule : Type 0 where
  switch : (name : Text) → (Config → Config) → TestRule
  option : (prefix : Text) → (Text → Config → Config) → TestRule
  checked : (prefix : Text) → (Text → Collected → Option Collected) → TestRule

unfoldable pub collect_overlay : Text → Collected → Option Collected
collect_overlay value (cfg, overlays) = elim (parse_overlay cfg.bitstream_dir value) [
  | none ↦ none
  | some spec ↦ some (cfg, overlays ++ spec ∷ [])
]

unfoldable pub collect_probe : Text → Collected → Option Collected
collect_probe value (cfg, overlays) = elim (parse_mmio_probe value) [
  | none ↦ none
  | some probe ↦ some (record cfg { mmio_probes = cfg.mmio_probes ++ probe ∷ [] }, overlays)
]

-- find_probe, and the offset appended to the probe that it finds; `none`: there is no such probe.
unfoldable pub add_offset : Text → ℕ → List MmioProbe → Option (List MmioProbe)
add_offset label off [] = none
add_offset label off (probe ∷ probes) =
    let later = add_offset label off probes in
    if text_eq probe.label label
    then some (record probe { offsets = probe.offsets ++ off ∷ [] } ∷ probes)
    else elim later [ none ↦ none | some rest ↦ some (probe ∷ rest) ]

unfoldable pub offset_parts : List Text → Config → Option Config
offset_parts [] cfg = none
offset_parts (label ∷ []) cfg = none
offset_parts (label ∷ value ∷ rest) cfg = elim (stoull_any value) [
  | none ↦ none
  | some off ↦ elim (add_offset label (off % 2 ^ 32) cfg.mmio_probes) [
    | none ↦ none
    | some probes ↦ some (record cfg { mmio_probes = probes })
  ]
]

unfoldable pub collect_offset : Text → Collected → Option Collected
collect_offset value (cfg, overlays) = elim (offset_parts (split_colon value) cfg) [
  | none ↦ none
  | some cfg' ↦ some (cfg', overlays)
]

-- The tests behind that for --help, in their order.
abbrev pub test_rules : List TestRule
test_rules =
    checked (text "--overlay=") collect_overlay
    ∷ option (text "--bitstream-dir=") (λ v c. record c { bitstream_dir = v })
    ∷ option (text "--static-bitstream=") (λ v c. record c { static_bitstream = v })
    ∷ option (text "--fpga-manager=") (λ v c. record c { fpga_manager = v })
    ∷ switch (text "--fpga-real") (λ c. record c { fpga_real = true })
    ∷ switch (text "--fpga-mock") (λ c. record c { fpga_real = false })
    ∷ switch (text "--fpga-debug") (λ c. record c { fpga_debug = true })
    ∷ option (text "--udmabuf=") (λ v c. record c { udmabuf_name = some v })
    ∷ option (text "--dma-base=") (λ v c. record c { dma_base = some v })
    ∷ switch (text "--dma-debug") (λ c. record c { dma_debug = true })
    ∷ switch (text "--run-fft") (λ c. record c { run_fft = true })
    ∷ option (text "--fft-length=") (λ v c. record c { fft_length = parse_size v c.fft_length })
    ∷ option (text "--fft-iters=")
        (λ v c. record c { fft_iterations = parse_number v c.fft_iterations })
    ∷ option (text "--fft-pattern=")
        (λ v c. record c { fft_pattern = parse_fft_pattern v c.fft_pattern })
    ∷ switch (text "--fft-inverse") (λ c. record c { fft_inverse = true })
    ∷ switch (text "--fft-dump") (λ c. record c { fft_dump = true })
    ∷ checked (text "--mmio-probe=") collect_probe
    ∷ checked (text "--mmio-probe-offset=") collect_offset
    ∷ []

-- Whether a rule fits an argument, and then what it collects.
unfoldable pub try_test_rule : TestRule → Text → Collected → Option (Option Collected)
try_test_rule (switch name set_it) arg (cfg, overlays) =
    if text_eq arg name then some (some (set_it cfg, overlays)) else none
try_test_rule (option prefix set_it) arg (cfg, overlays) = elim (value_of prefix arg) [
  | none ↦ none
  | some v ↦ some (some (set_it v cfg, overlays))
]
try_test_rule (checked prefix collect) arg c = elim (value_of prefix arg) [
  | none ↦ none
  | some v ↦ some (collect v c)
]

unfoldable pub try_test_rules : List TestRule → Text → Collected → Option Collected
try_test_rules [] arg c = none
try_test_rules (rule ∷ rest) arg c = elim (try_test_rule rule arg c) [
  | some outcome ↦ outcome
  | none ↦ try_test_rules rest arg c
]

-- The loop over the arguments: the exit code of an early return, or what was collected.
pub data Arguments : Type 0 where
  exits : ℕ → Arguments
  collected : Collected → Arguments

unfoldable pub parse_test_args : List Text → Collected → Arguments
parse_test_args [] c = collected c
parse_test_args (arg ∷ args) c =
    let later : Arguments = elim (try_test_rules test_rules arg c) [
      | none ↦ exits 1
      | some c' ↦ parse_test_args args c'
    ] in
    if text_eq arg (text "--help") || text_eq arg (text "-h") then exits 0 else later
