-- ===== src/Hardware/Guards.antt =====
-- SigbusGuard of apps/fpga_pr_tester.cpp and of apps/fpga_static_probe.cpp, beside SigbusScope of
-- src/accelerators.cpp.
use ece506scheduler.Base.{◌≡◌, refl, Bool, true, none, some, Text, if◌then◌else◌}
use ece506scheduler.Hardware.Regs.{Ran, fault, done}
use ece506scheduler.Hardware.Sigbus.{
  action_of, dispatcher, SignalState, Reaction, ensure_sigbus_handler, sigbus_dispatch, deliver,
  handle, ScopeEnd, returned, scope_run,
}

-- install: have_prev_ is set where sigaction() fails, too.
unfoldable pub install : Bool → SignalState → SignalState
install accepted s =
    if s.once
    then s
    else if accepted
    then record s {
      once = true;
      prev = action_of s.installed s.prev;
      prev_valid = true;
      installed = dispatcher;
    }
    else record s { once = true; prev_valid = true }

-- dispatch, whose tests are those of sigbus_dispatch.
unfoldable pub dispatch : SignalState → Reaction
unfolding sigbus_dispatch
dispatch s = sigbus_dispatch s

unfoldable pub guard_run : Bool → Text → Ran Bool → SignalState → ScopeEnd × SignalState
unfolding install deliver handle
guard_run accepted desc body s =
    let s1 = record (install accepted s) { current = some desc } in
    elim body [
      | done ok r ↦ (returned ok, record s1 { current = none })
      | fault r ↦ handle (deliver s1) s1
    ]

-- The class of fpga_static_probe.
abbrev pub probe_guard_run : Bool → Text → Ran Bool → SignalState → ScopeEnd × SignalState
probe_guard_run = guard_run

-- Where sigaction() succeeds a guard does what a scope does.
pub guard_run-scope_run :
    (desc : Text) (body : Ran Bool) (s : SignalState)
    → guard_run true desc body s ≡ scope_run true desc body s
unfolding guard_run scope_run install ensure_sigbus_handler
guard_run-scope_run desc body s = refl
