-- ===== src/Examples/Loading.antt =====
-- load_overlays and the parsers of apps/fpga_pr_tester.cpp at concrete inputs.
use ece506scheduler.Base.{◌≡◌, refl, true, [], ◌∷◌, text, starts_with, All, length, pos, some}
use ece506scheduler.Device.World.{World}
use ece506scheduler.Hardware.Udmabuf.{digit_value, read_base, stoull_any}
use ece506scheduler.Runner.Wiring.{ends_with_slash, path_join}
use ece506scheduler.Tester.Parsing.{
  TestOverlay, parse_number, split_colon, default_overlay_bitstream, overlay_parts, parse_overlay,
}
use ece506scheduler.Tester.Arguments.{default_config}
use ece506scheduler.Tester.Overlays.{load_overlays}
use ece506scheduler.Tester.Loads.{HoldsApp, total_count, load_overlays_lem}

abbrev world : World
world = record {
  answers = λ n. true;
  calls = 0;
  trace = [];
  readable = λ path. true;
  clock = λ n. pos n;
}

abbrev overlay : TestOverlay
overlay = record { app = text "fft"; count = 2; bitstream_path = text "fft.bit" }

load_overlays_lem_example :
    let (ok, l) = load_overlays (λ path. true) default_config (overlay ∷ []) world in
    (ok ≡ true → length l.slots ≡ total_count (overlay ∷ [])) × All HoldsApp l.slots
load_overlays_lem_example = load_overlays_lem (λ path. true) default_config (overlay ∷ []) world

parse_overlay_test :
    parse_overlay (text "bits") (text "fft:2")
    ≡ some (record { app = text "fft"; count = 2; bitstream_path = text "bits/fft_partial.bit" })
unfolding text starts_with digit_value read_base stoull_any ends_with_slash path_join parse_number
    split_colon default_overlay_bitstream overlay_parts parse_overlay
parse_overlay_test = refl

-- 2^32 is no fallback, and leaves no slot to load.
parse_number_test : parse_number (text "4294967296") 1 ≡ 0
unfolding text starts_with digit_value read_base stoull_any parse_number
parse_number_test = refl
