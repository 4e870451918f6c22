-- ===== src/Runner/Main.antt =====
-- main of apps/sched_runner.cpp as a whole, with src/reporting.cpp. The shared object that dlopen
-- loads is a parameter; what is printed is not modelled.
use mathlib.Core.Bool.{false≢true}
use ece506scheduler.Base.{
  ℕ, ◌≡◌, refl, sym, ◌∙◌, ap, ℤ, pos, Bool, true, false, not, ◌||◌, ◌&&◌, List, [], ◌∷◌, Option,
  none, some, Text, if◌then◌else◌, if_ind, arith,
}
use ece506scheduler.Dash.CompletionBus.{new_bus}
use ece506scheduler.Dash.Provider.{Provider}
use ece506scheduler.Device.World.{World}
use ece506scheduler.Device.Fleet.{Workload, Device, fleet}
use ece506scheduler.Scheduler.Impl.{Impl, new_impl, add_accelerator}
use ece506scheduler.Scheduler.Threads.{start, stop, worker_pop}
use ece506scheduler.Runner.Options.{Options, exits, parsed, parse_command}
use ece506scheduler.Runner.Wiring.{with_defaults, register_overlays, slot_options, wire}

-- What main and the plugin work on: the scheduler with its registry, the providers, and g_csv.
pub record RunnerSession : Type 0 where
  pub sched : Impl Device World
  pub g_providers : List Provider
  pub g_csv : Bool

unfoldable pub set_csv : Bool → RunnerSession → RunnerSession
set_csv value s = record s { g_csv = value }

abbrev pub csv_enabled : RunnerSession → Bool
csv_enabled s = s.g_csv

-- The shared object: whether dlopen loads it, which of the two symbols dlsym finds, and what they do.
pub record Plugin : Type 0 where
  pub opens : Bool
  pub has_initialize : Bool
  pub has_run : Bool
  pub app_initialize : List Text → RunnerSession → RunnerSession
  pub app_run : List Text → RunnerSession → ℤ × RunnerSession

-- The plugin is loaded, and has both functions.
abbrev pub loads : Plugin → Bool
loads lib = lib.opens && lib.has_initialize && lib.has_run

module _ (work : Workload) where
  unfoldable pub add_all : List Device → Impl Device World → Impl Device World
  unfolding add_accelerator
  add_all [] s = s
  add_all (a ∷ accs) s = add_all accs (add_accelerator (fleet work) a s)

  -- From the registry to set_csv. `hardware` is std::thread::hardware_concurrency().
  unfoldable pub make_session : ℕ → Options → World → RunnerSession
  unfolding set_csv
  make_session hardware o world =
      let (entries, reg) =
        register_overlays o.bitstream_dir (with_defaults o.overlays) (record { apps = [] }) in
      let w = wire work (slot_options o) entries world in
      let s = new_impl reg o.backend o.cpu_workers o.preload_threshold hardware new_bus w.world in
      set_csv o.csv_report
        (record { sched = add_all w.accelerators s; g_providers = w.providers; g_csv = false })

  abbrev pub started : RunnerSession → RunnerSession
  started s = record s { sched = start (fleet work) s.sched }

  abbrev stopped : RunnerSession → RunnerSession
  stopped s = record s { sched = stop (fleet work) s.sched }

  -- Scheduler::~Scheduler, which is Impl::~Impl.
  unfoldable pub destroy : RunnerSession → RunnerSession
  destroy s = stopped s

  -- From dlopen to the end of main.
  unfoldable pub run_plugin : Plugin → List Text → RunnerSession → ℤ × RunnerSession
  unfolding destroy
  run_plugin lib args s =
      if not lib.opens
      then (pos 1, destroy s)
      else if not lib.has_initialize || not lib.has_run
      then (pos 1, destroy s)
      else let s1 = lib.app_initialize args s in
        let (app_ret, s2) = lib.app_run args (started s1) in (app_ret, destroy (stopped s2))

  -- main: its exit code, and the session if it came to make one.
  unfoldable pub main : ℕ → List Text → Plugin → World → ℤ × Option RunnerSession
  main hardware args lib world = elim (parse_command hardware args) [
    | exits code ↦ (pos code, none)
    | parsed o rest ↦
        let (code, s) = run_plugin lib rest (make_session hardware o world) in (code, some s)
  ]

  stop-running : (s : Impl Device World) → (stop (fleet work) s).running ≡ false
  unfolding stop
  stop-running s = ground arith

  stop_idle : (s : Impl Device World) → s.running ≡ false → stop (fleet work) s ≡ s
  unfolding stop
  stop_idle s e = rw (e, stop) refl

  pop_idle : (s : Impl Device World) → s.running ≡ false → worker_pop (fleet work) s ≡ none
  unfolding worker_pop
  pop_idle s e = rw e refl

  add_all-running :
      (accs : List Device) (s : Impl Device World) → (add_all accs s).running ≡ s.running
  unfolding add_all
  add_all-running [] s = refl
  add_all-running (a ∷ accs) s = add_all-running accs _

  make_session-running :
      (hardware : ℕ) (o : Options) (world : World)
      → (make_session hardware o world).sched.running ≡ false
  unfolding make_session new_impl
  make_session-running hardware o world = add_all-running _ _

  abbrev Ends : Plugin → List Text → RunnerSession → ℤ × RunnerSession → Type 0
  Ends lib args s (code, s') =
      (s'.sched.running ≡ false)
      × (loads lib ≡ false → (code ≡ pos 1) × (s' ≡ s))
      × (loads lib ≡ true → code ≡ (lib.app_run args (started (lib.app_initialize args s))).0)

  early-Ends :
      (lib : Plugin) (args : List Text) (s : RunnerSession)
      → s.sched.running ≡ false
      → loads lib ≡ false
      → Ends lib args s (pos 1, stopped s)
  early-Ends lib args s off missing =
      let same : stopped s ≡ s = ap (λ k. record s { sched = k }) (stop_idle s.sched off) in
      (stop-running s.sched, λ _. (refl, same), λ h. absurd (false≢true (sym missing ∙ h)))

  run_plugin-Ends :
      (lib : Plugin) (args : List Text) (s : RunnerSession)
      → s.sched.running ≡ false
      → Ends lib args s (run_plugin lib args s)
  unfolding run_plugin
  run_plugin-Ends lib args s off =
      if_ind (Ends lib args s) (not lib.opens) (λ e. early-Ends lib args s off (ground (arith, e)))
        (λ e.
          if_ind (Ends lib args s) (not lib.has_initialize || not lib.has_run)
            (λ f. early-Ends lib args s off (ground (arith, e, f)))
            (λ f.
              (stop-running _, λ h. absurd (false≢true (sym h ∙ ground (arith, e, f))), λ _. refl)))

  -- However main ends behind its command line, whatever the plugin does to the session: the scheduler
  -- does not run and no worker takes a task from it. Where the plugin cannot be loaded or lacks one of
  -- its functions, main returns 1 and the session is still as it was set up; else main returns what
  -- app_run returned on the scheduler that was started behind app_initialize.
  pub main_lem :
      (hardware : ℕ) (args rest : List Text) (o : Options) (lib : Plugin) (world : World)
      → parse_command hardware args ≡ parsed o rest
      → let s = make_session hardware o world in
        (s' : RunnerSession) × ((main hardware args lib world).1 ≡ some s')
        × (s'.sched.running ≡ false)
        × (worker_pop (fleet work) s'.sched ≡ none)
        × (loads lib ≡ false → ((main hardware args lib world).0 ≡ pos 1) × (s' ≡ s))
        × (loads lib ≡ true
            → (main hardware args lib world).0
              ≡ (lib.app_run rest (started (lib.app_initialize rest s))).0)
  unfolding main
  main_lem hardware args rest o lib world e =
      let s = make_session hardware o world in
      let (off, early, late) = run_plugin-Ends lib rest s (make_session-running hardware o world) in
      rw (e, main) ((run_plugin lib rest s).1, refl, off, pop_idle _ off, early, late)
