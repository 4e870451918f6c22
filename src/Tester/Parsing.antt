-- ===== src/Tester/Parsing.antt =====
-- The parsers of apps/fpga_pr_tester.cpp.
use ece506scheduler.Base.{
  ℕ, ◌+◌, ◌%◌, ◌^◌, ◌==◌, leb, ◌&&◌, ◌||◌, List, [], ◌∷◌, ◌++◌, Option, none, some, Text, text,
  text_eq, is_empty, if◌then◌else◌,
}
use ece506scheduler.Hardware.Udmabuf.{stoull_any}
use ece506scheduler.Runner.Wiring.{path_join}

pub data FftPattern : Type 0 where
  impulse sine ramp random : FftPattern

pub record MmioProbe : Type 0 where
  pub label : Text
  pub base : ℕ
  pub span : ℕ
  pub offsets : List ℕ

-- OverlaySpec of this tool.
pub record TestOverlay : Type 0 where
  pub app : Text
  pub count : ℕ
  pub bitstream_path : Text

-- parse_size; an empty text is one that std::stoull throws for.
unfoldable pub parse_size : Text → ℕ → ℕ
parse_size value fallback = elim (stoull_any value) [
  | none ↦ fallback
  | some n ↦ if n == 0 then fallback else n
]

-- parse_unsigned of this tool: std::stoul answers 64 bits, and the cast keeps 32.
unfoldable pub parse_number : Text → ℕ → ℕ
parse_number value fallback = elim (stoull_any value) [
  | none ↦ fallback
  | some n ↦ if n == 0 then fallback else n % 2 ^ 32
]

-- A character in front of the first part.
abbrev onto_first : ℕ → List Text → List Text
onto_first c [] = (c ∷ []) ∷ []
onto_first c (part ∷ parts) = (c ∷ part) ∷ parts

unfoldable pub split_colon : Text → List Text
split_colon [] = [] ∷ []
split_colon (c ∷ spec) =
    let parts = split_colon spec in if c == b':' then [] ∷ parts else onto_first c parts

unfoldable pub default_overlay_bitstream : Text → Text → Text
default_overlay_bitstream bitstream_dir app = path_join bitstream_dir (app ++ text "_partial.bit")

-- A path that is given, or else the default.
abbrev path_or : Text → Text → Text
path_or default_path path = if is_empty path then default_path else path

-- The overlay of a list of parts, for the value of bitstream_dir so far.
unfoldable pub overlay_parts : Text → List Text → Option TestOverlay
overlay_parts dir [] = none
overlay_parts dir (app ∷ []) =
    some (record { app = app; count = 1; bitstream_path = default_overlay_bitstream dir app })
overlay_parts dir (app ∷ n ∷ []) = some (record {
  app = app;
  count = parse_number n 1;
  bitstream_path = default_overlay_bitstream dir app;
})
overlay_parts dir (app ∷ n ∷ path ∷ rest) = some (record {
  app = app;
  count = parse_number n 1;
  bitstream_path = path_or (default_overlay_bitstream dir app) path;
})

unfoldable pub parse_overlay : Text → Text → Option TestOverlay
parse_overlay dir spec = if is_empty spec then none else overlay_parts dir (split_colon spec)

unfoldable pub lower_case : Text → Text
lower_case [] = []
lower_case (c ∷ rest) = (if leb 65 c && leb c 90 then c + 32 else c) ∷ lower_case rest

unfoldable pub parse_fft_pattern : Text → FftPattern → FftPattern
parse_fft_pattern value fallback =
    let lower = lower_case value in
    if text_eq lower (text "impulse")
    then impulse
    else if text_eq lower (text "sine") || text_eq lower (text "sin")
    then sine
    else if text_eq lower (text "ramp")
    then ramp
    else if text_eq lower (text "random") || text_eq lower (text "noise")
    then random
    else fallback

-- The span of a probe: a part that is missing or empty leaves the default, and so does a 0.
unfoldable pub probe_span : List Text → Option ℕ
probe_span [] = some 4096
probe_span (part ∷ rest) =
    if is_empty part
    then some 4096
    else elim (stoull_any part) [ none ↦ none | some n ↦ some (if n == 0 then 4096 else n) ]

unfoldable pub probe_of : List Text → Option MmioProbe
probe_of [] = none
probe_of (label ∷ []) = none
probe_of (label ∷ base ∷ rest) = elim (stoull_any base) [
  | none ↦ none
  | some address ↦ elim (probe_span rest) [
    | none ↦ none
    | some span ↦
        some (record { label = label; base = address; span = span; offsets = 0 ∷ 4 ∷ 8 ∷ 12 ∷ [] })
  ]
]

unfoldable pub parse_mmio_probe : Text → Option MmioProbe
parse_mmio_probe value = probe_of (split_colon value)
