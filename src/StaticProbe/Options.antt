-- ===== src/StaticProbe/Options.antt =====
-- The command line of apps/fpga_static_probe.cpp.
use ece506scheduler.Base.{
  ℕ, ◌-◌, ◌%◌, ◌^◌, ◌==◌, ltb, leb, ℤ, negsuc, to_int32, Bool, true, false, List, [], ◌∷◌, ◌++◌,
  Option, none, some, Text, text, is_empty, if◌then◌else◌,
}
use ece506scheduler.Hardware.Udmabuf.{stoull_any}
use ece506scheduler.Tester.Parsing.{MmioProbe, split_colon, probe_span}
use ece506scheduler.Tester.Arguments.{add_offset}
use ece506scheduler.Loopback.Transfer.{LoopbackOptions}
use ece506scheduler.Loopback.Rules.{ArgRule, switch, checked}
use ece506scheduler.Loopback.DmaTest.{dma_test_defaults}

-- `loopback` is the part of the options that run_dma_loopback reads.
pub record ProbeOptions : Type 0 where
  pub static_bitstream : Text
  pub fpga_manager : Text
  pub fpga_real : Bool
  pub fpga_debug : Bool
  pub pr_gpio : ℤ
  pub pr_gpio_active_low : Bool
  pub pr_gpio_delay_ms : ℕ
  pub repetitions : ℕ
  pub trace_all : Bool
  pub load_overlay : Bool
  pub overlay_label : Text
  pub overlay_bitstream : Text
  pub run_loopback : Bool
  pub loopback : LoopbackOptions

abbrev pub probe_defaults : ProbeOptions
probe_defaults = record {
  static_bitstream = text "bitstreams/static_wrapper.bin";
  fpga_manager = text "/sys/class/fpga_manager/fpga0/firmware";
  fpga_real = false;
  fpga_debug = false;
  pr_gpio = negsuc 0;
  pr_gpio_active_low = false;
  pr_gpio_delay_ms = 5;
  repetitions = 1;
  trace_all = false;
  load_overlay = false;
  overlay_label = text "fft_passthrough";
  overlay_bitstream = text "bitstreams/fft_passthrough_partial.bin";
  run_loopback = false;
  loopback = dma_test_defaults;
}

-- parse_unsigned of this tool: std::stoul answers 64 bits, and the cast keeps 32.
unfoldable pub nonzero_number : Text → Option ℕ
nonzero_number value = elim (stoull_any value) [
  | none ↦ none
  | some n ↦ if n == 0 then none else some (n % 2 ^ 32)
]

-- parse_int: std::stol(text, nullptr, 0), for texts without white space in front, and the cast to int.
unfoldable pub parse_int : Text → Option ℤ
parse_int [] = none
parse_int (c ∷ rest) =
    let negative : Option ℤ = elim (stoull_any rest) [
      | none ↦ none
      | some n ↦ if leb n (2 ^ 63) then some (to_int32 ((2 ^ 32 - n % 2 ^ 32) % 2 ^ 32)) else none
    ] in
    let positive : Option ℤ = elim (stoull_any (if c == b'+' then rest else c ∷ rest)) [
      | none ↦ none
      | some n ↦ if ltb n (2 ^ 63) then some (to_int32 (n % 2 ^ 32)) else none
    ] in
    if c == b'-' then negative else positive

-- The options and the probes, which the loop over the arguments fills.
abbrev pub Variables : Type 0
Variables = ProbeOptions × List MmioProbe

-- A text that the option keeps, a number that it keeps, or a test for an empty one.
abbrev keeps : (Text → ProbeOptions → ProbeOptions) → Text → Variables → Option Variables
keeps set_it value (o, probes) = some (set_it value o, probes)

abbrev numbered : (ℕ → ProbeOptions → ProbeOptions) → Text → Variables → Option Variables
numbered set_it value (o, probes) = elim (nonzero_number value) [
  | none ↦ none
  | some n ↦ some (set_it n o, probes)
]

abbrev sets : (ProbeOptions → ProbeOptions) → Variables → Variables
sets set_it (o, probes) = (set_it o, probes)

unfoldable pub set_gpio : Text → Variables → Option Variables
set_gpio value (o, probes) = elim (parse_int value) [
  | none ↦ none
  | some n ↦ some (record o { pr_gpio = n }, probes)
]

unfoldable pub set_loopback_bytes : Text → Variables → Option Variables
set_loopback_bytes value (o, probes) = elim (stoull_any value) [
  | none ↦ none
  | some n ↦ some (record o { loopback = record o.loopback { bytes = n } }, probes)
]

unfoldable pub overlay_with : List Text → Variables → Option Variables
overlay_with [] v = none
overlay_with (label ∷ rest) (o, probes) =
    let named = record o { load_overlay = true; overlay_label = label } in
    if is_empty label then none else elim rest [
      | [] ↦ some (named, probes)
      | path ∷ _ ↦
          some
            ((if is_empty path then named else record named { overlay_bitstream = path }), probes)
    ]

unfoldable pub set_overlay : Text → Variables → Option Variables
set_overlay value v = overlay_with (split_colon value) v

-- parse_mmio_probe of this tool.
unfoldable pub bare_probe : List Text → Option MmioProbe
bare_probe [] = none
bare_probe (label ∷ []) = none
bare_probe (label ∷ base ∷ rest) = elim (stoull_any base) [
  | none ↦ none
  | some address ↦ elim (probe_span rest) [
    | none ↦ none
    | some span ↦ some (record { label = label; base = address; span = span; offsets = [] })
  ]
]

unfoldable pub collect_mmio_probe : Text → Variables → Option Variables
collect_mmio_probe value (o, probes) = elim (bare_probe (split_colon value)) [
  | none ↦ none
  | some probe ↦
      if is_empty probe.label
      then none
      else some (o, probes ++ record probe { offsets = 0 ∷ 4 ∷ 8 ∷ 12 ∷ [] } ∷ [])
]

unfoldable pub probe_offset_of : List Text → Variables → Option Variables
probe_offset_of (label ∷ value ∷ []) (o, probes) = elim (stoull_any value) [
  | none ↦ none
  | some off ↦ elim (add_offset label (off % 2 ^ 32) probes) [
    | none ↦ none
    | some probes' ↦ some (o, probes')
  ]
]
probe_offset_of _ v = none

unfoldable pub collect_probe_offset : Text → Variables → Option Variables
collect_probe_offset value v = probe_offset_of (split_colon value) v

-- The tests behind that for --help, in their order.
abbrev pub probe_rules : List (ArgRule Variables)
probe_rules =
    switch (text "--fpga-real") (sets (λ o. record o { fpga_real = true }))
    ∷ switch (text "--fpga-mock") (sets (λ o. record o { fpga_real = false }))
    ∷ switch (text "--fpga-debug") (sets (λ o. record o { fpga_debug = true }))
    ∷ switch (text "--trace-all") (sets (λ o. record o { trace_all = true; fpga_debug = true }))
    ∷ switch (text "--fpga-pr-gpio-active-low") (sets (λ o. record o { pr_gpio_active_low = true }))
    ∷ checked (text "--static-bitstream=") (keeps (λ v o. record o { static_bitstream = v }))
    ∷ checked (text "--fpga-manager=") (keeps (λ v o. record o { fpga_manager = v }))
    ∷ checked (text "--fpga-pr-gpio=") set_gpio
    ∷ checked (text "--fpga-pr-gpio-delay-ms=")
        (numbered (λ n o. record o { pr_gpio_delay_ms = n }))
    ∷ checked (text "--repeat=") (numbered (λ n o. record o { repetitions = n }))
    ∷ checked (text "--overlay=") set_overlay
    ∷ switch (text "--run-loopback") (sets (λ o. record o { run_loopback = true }))
    ∷ checked (text "--udmabuf=")
        (keeps (λ v o. record o { loopback = record o.loopback { udmabuf = v } }))
    ∷ checked (text "--dma-device=")
        (keeps (λ v o. record o { loopback = record o.loopback { device = v } }))
    ∷ checked (text "--bytes=") set_loopback_bytes
    ∷ checked (text "--dma-timeout-ms=")
        (numbered (λ n o. record o { loopback = record o.loopback { timeout_ms = n } }))
    ∷ checked (text "--mmio-probe=") collect_mmio_probe
    ∷ checked (text "--mmio-probe-offset=") collect_probe_offset
    ∷ []
