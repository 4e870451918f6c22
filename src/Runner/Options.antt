-- ===== src/Runner/Options.antt =====
-- The command line of apps/sched_runner.cpp: the loop of main over its arguments.
use ece506scheduler.Base.{
  ℕ, ◌==◌, ℤ, negsuc, to_int32, Bool, true, false, ◌||◌, List, [], ◌∷◌, ◌++◌, Option, none, some,
  Text, text, text_eq, starts_with, length, drop, if◌then◌else◌, is_empty,
}
use ece506scheduler.Task.{ResourceKind, cpu, zip, fft, fir}
use ece506scheduler.Scheduler.Impl.{BackendMode, auto, fpga, cpu_only}
use ece506scheduler.Runner.Numbers.{parse_unsigned}

unfoldable pub parse_backend : Text → BackendMode
parse_backend value =
    if text_eq value (text "cpu")
    then cpu_only
    else if text_eq value (text "fpga")
    then fpga
    else auto

pub record OverlaySpec : Type 0 where
  pub app : Text
  pub count : ℕ
  pub bitstream : Text

unfoldable pub resource_for_app : Text → ResourceKind
resource_for_app app =
    if text_eq app (text "zip")
    then zip
    else if text_eq app (text "fft")
    then fft
    else if text_eq app (text "fir")
    then fir
    else cpu

-- The local variables of main that the options set.
pub record Options : Type 0 where
  pub app_lib : Text
  pub backend : BackendMode
  pub cpu_workers : ℕ
  pub preload_threshold : ℕ
  pub csv_report : Bool
  pub bitstream_dir : Text
  pub static_bitstream : Text
  pub fpga_manager : Text
  pub fpga_real : Bool
  pub fpga_debug : Bool
  pub fpga_pr_gpio : ℤ
  pub fpga_pr_gpio_active_low : Bool
  pub fpga_pr_gpio_delay_ms : ℕ
  pub trace_all : Bool
  pub overlays : List OverlaySpec

-- `hardware` is std::thread::hardware_concurrency().
unfoldable pub default_options : ℕ → Options
default_options hardware = record {
  app_lib = [];
  backend = auto;
  cpu_workers = if hardware == 0 then 4 else hardware;
  preload_threshold = 3;
  csv_report = false;
  bitstream_dir = text "bitstreams";
  static_bitstream = text "bitstreams/static_wrapper.bit";
  fpga_manager = text "/sys/class/fpga_manager/fpga0/firmware";
  fpga_real = false;
  fpga_debug = false;
  fpga_pr_gpio = negsuc 0;
  fpga_pr_gpio_active_low = false;
  fpga_pr_gpio_delay_ms = 5;
  trace_all = false;
  overlays = [];
}

-- The loop that splits an overlay at its colons: `cur` is the part that it stands in, if any.
unfoldable pub split_colons : Option Text → Text → List Text
split_colons none [] = []
split_colons (some cur) [] = cur ∷ []
split_colons none (c ∷ spec) = elim (c == b':') [
  | true ↦ [] ∷ split_colons none spec
  | false ↦ split_colons (some (c ∷ [])) spec
]
split_colons (some cur) (c ∷ spec) = elim (c == b':') [
  | true ↦ cur ∷ split_colons none spec
  | false ↦ split_colons (some (cur ++ c ∷ [])) spec
]

-- The overlay that the parts make, if there is a part.
unfoldable pub overlay_of : List Text → Option OverlaySpec
overlay_of [] = none
overlay_of (app ∷ []) = some (record { app = app; count = 1; bitstream = [] })
overlay_of (app ∷ n ∷ []) = some (record { app = app; count = parse_unsigned n 1; bitstream = [] })
overlay_of (app ∷ n ∷ bit ∷ rest) =
    some (record { app = app; count = parse_unsigned n 1; bitstream = bit })

unfoldable pub add_overlay : Text → Options → Options
add_overlay spec o = elim (overlay_of (split_colons none spec)) [
  | none ↦ o
  | some overlay ↦ record o { overlays = o.overlays ++ overlay ∷ [] }
]

-- arg.substr(sizeof(prefix) - 1), where arg.rfind(prefix, 0) == 0.
unfoldable pub value_of : Text → Text → Option Text
value_of prefix arg = if starts_with prefix arg then some (drop (length prefix) arg) else none

-- What one argument does: it ends the program, ends the options, or changes them.
pub data Effect : Type 0 where
  help : Effect
  end_options : Effect
  unknown : Effect
  sets : Options → Effect

-- A test of the loop and its effect: `arg == name`, or `arg.rfind(prefix, 0) == 0`.
pub data Rule : Type 0 where
  flag : (name : Text) → (Options → Options) → Rule
  valued : (prefix : Text) → (Text → Options → Options) → Rule

-- The tests behind those for --help and --, in their order.
abbrev pub rules : List Rule
rules =
    valued (text "--app-lib=") (λ v o. record o { app_lib = v })
    ∷ valued (text "--backend=") (λ v o. record o { backend = parse_backend v })
    ∷ valued (text "--cpu-workers=")
        (λ v o. record o { cpu_workers = parse_unsigned v o.cpu_workers })
    ∷ valued (text "--preload-threshold=")
        (λ v o. record o { preload_threshold = parse_unsigned v o.preload_threshold })
    ∷ valued (text "--bitstream-dir=") (λ v o. record o { bitstream_dir = v })
    ∷ valued (text "--static-bitstream=") (λ v o. record o { static_bitstream = v })
    ∷ valued (text "--fpga-manager=") (λ v o. record o { fpga_manager = v })
    ∷ flag (text "--fpga-real") (λ o. record o { fpga_real = true })
    ∷ flag (text "--fpga-mock") (λ o. record o { fpga_real = false })
    ∷ flag (text "--fpga-debug") (λ o. record o { fpga_debug = true })
    ∷ flag (text "--trace-all") (λ o. record o { trace_all = true; fpga_debug = true })
    ∷ valued (text "--fpga-pr-gpio=")
        (λ v o. record o { fpga_pr_gpio = to_int32 (parse_unsigned v 0) })
    ∷ flag (text "--fpga-pr-gpio-active-low") (λ o. record o { fpga_pr_gpio_active_low = true })
    ∷ valued (text "--fpga-pr-gpio-delay-ms=")
        (λ v o. record o { fpga_pr_gpio_delay_ms = parse_unsigned v o.fpga_pr_gpio_delay_ms })
    ∷ valued (text "--overlay=") add_overlay
    ∷ flag (text "--csv-report") (λ o. record o { csv_report = true })
    ∷ []

-- What a rule makes of an argument that it fits.
unfoldable pub try_rule : Rule → Text → Options → Option Options
try_rule (flag name set_it) arg o = if text_eq arg name then some (set_it o) else none
try_rule (valued prefix set_it) arg o = elim (value_of prefix arg) [
  | none ↦ none
  | some v ↦ some (set_it v o)
]

unfoldable pub try_rules : List Rule → Text → Options → Effect
try_rules [] arg o = unknown
try_rules (rule ∷ rest) arg o = elim (try_rule rule arg o) [
  | some o' ↦ sets o'
  | none ↦ try_rules rest arg o
]

-- The body of the loop.
unfoldable pub parse_arg : Text → Options → Effect
parse_arg arg o =
    if text_eq arg (text "--help") || text_eq arg (text "-h")
    then help
    else if text_eq arg (text "--")
    then end_options
    else try_rules rules arg o

-- The loop: the exit code of an early return, or the options and the plugin's own arguments.
pub data Parsed : Type 0 where
  exits : ℕ → Parsed
  parsed : Options → List Text → Parsed

unfoldable pub parse_args : List Text → Options → Parsed
parse_args [] o = parsed o []
parse_args (arg ∷ args) o = elim (parse_arg arg o) [
  | help ↦ exits 0
  | end_options ↦ parsed o args
  | unknown ↦ exits 1
  | sets o' ↦ parse_args args o'
]

-- main up to the check of --app-lib.
unfoldable pub parse_command : ℕ → List Text → Parsed
parse_command hardware args = elim (parse_args args (default_options hardware)) [
  | exits code ↦ exits code
  | parsed o rest ↦ if is_empty o.app_lib then exits 1 else parsed o rest
]
