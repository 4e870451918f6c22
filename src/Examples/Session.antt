-- ===== src/Examples/Session.antt =====
-- main of apps/sched_runner.cpp with a plugin that answers at once.
use ece506scheduler.Base.{
  ◌≡◌, refl, pos, true, false, List, [], ◌∷◌, none, some, Text, text, text_eq, starts_with,
}
use ece506scheduler.Scheduler.Threads.{worker_pop}
use ece506scheduler.Device.World.{World}
use ece506scheduler.Device.Fleet.{Workload, fleet}
use ece506scheduler.Runner.Options.{
  Options, parsed, default_options, value_of, try_rule, try_rules, parse_arg, parse_args,
  parse_command,
}
use ece506scheduler.Runner.Main.{
  RunnerSession, Plugin, make_session, started, main, loads, main_lem,
}

abbrev work : Workload
work = record {
  zip_context = λ t. none;
  fft_context = λ t. none;
  run_zip = λ ctx w. (true, w);
  run_fft = λ ctx w. (true, w);
  attempt_fft = λ ctx w. (none, w);
  message = λ ctx w. [];
}

abbrev world : World
world = record {
  answers = λ n. true;
  calls = 0;
  trace = [];
  readable = λ path. true;
  clock = λ n. pos n;
}

abbrev plugin : Plugin
plugin = record {
  opens = true;
  has_initialize = true;
  has_run = true;
  app_initialize = λ args s. s;
  app_run = λ args s. (pos 3, s);
}

abbrev options : Options
options = record (default_options 4) { app_lib = text "demo.so" }

abbrev command : List Text
command = text "--app-lib=demo.so" ∷ text "--" ∷ text "fast" ∷ []

command-parsed : parse_command 4 command ≡ parsed options (text "fast" ∷ [])
unfolding text_eq starts_with default_options value_of try_rule try_rules parse_arg parse_args
    parse_command text
command-parsed = refl

main_lem_example :
    let s = make_session work 4 options world in
    (s' : RunnerSession) × ((main work 4 command plugin world).1 ≡ some s')
    × (s'.sched.running ≡ false)
    × (worker_pop (fleet work) s'.sched ≡ none)
    × (loads plugin ≡ false → ((main work 4 command plugin world).0 ≡ pos 1) × (s' ≡ s))
    × (loads plugin ≡ true
        → (main work 4 command plugin world).0
          ≡ (plugin.app_run
              (text "fast" ∷ [])
              (started work (plugin.app_initialize (text "fast" ∷ []) s))).0)
main_lem_example = main_lem work 4 command (text "fast" ∷ []) options plugin world command-parsed
