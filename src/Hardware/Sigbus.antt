-- ===== src/Hardware/Sigbus.antt =====
-- ensure_sigbus_handler, SigbusScope and sigbus_dispatch of src/accelerators.cpp: who answers a
-- SIGBUS. The lines that are printed are not modelled.
use ece506scheduler.Base.{ℕ, Bool, true, false, Option, none, some, Text, if◌then◌else◌}
use ece506scheduler.Hardware.Regs.{Ran, fault, done}

-- sa_handler or sa_sigaction, which share their place; SIG_DFL is the null pointer.
pub data SigHandler : Type 0 where
  sig_dfl sig_ign : SigHandler
  function : ℕ → SigHandler

-- struct sigaction: `siginfo` is SA_SIGINFO in sa_flags.
pub record SigAction : Type 0 where
  pub siginfo : Bool
  pub handler : SigHandler

-- What the kernel has for SIGBUS: sigbus_dispatch, or another action.
pub data Installed : Type 0 where
  dispatcher : Installed
  other : SigAction → Installed

-- The globals and the kernel's entry. `once` is whether call_once has run its function.
pub record SignalState : Type 0 where
  pub once : Bool
  pub prev : SigAction
  pub prev_valid : Bool
  pub installed : Installed
  pub current : Option Text

-- What becomes of a SIGBUS: siglongjmp to the scope, a call of another handler, nothing, or the end
-- of the process.
pub data Reaction : Type 0 where
  jumps : Text → Reaction
  calls : SigHandler → Reaction
  ignores dies : Reaction

abbrev pub action_of : Installed → SigAction → SigAction
action_of dispatcher prev = prev
action_of (other a) prev = a

-- `accepted`: whether sigaction() succeeds.
unfoldable pub ensure_sigbus_handler : Bool → SignalState → SignalState
ensure_sigbus_handler accepted s =
    if s.once
    then s
    else if accepted
    then record s {
      once = true;
      prev = action_of s.installed s.prev;
      prev_valid = true;
      installed = dispatcher;
    }
    else record s { once = true }

-- The chain of tests on g_prev_sigbus, with what follows it.
unfoldable pub dispatch_prev : Bool → SigHandler → Reaction
dispatch_prev true sig_dfl = dies
dispatch_prev true h = calls h
dispatch_prev false sig_ign = ignores
dispatch_prev false sig_dfl = dies
dispatch_prev false (function f) = calls (function f)

unfoldable pub sigbus_dispatch : SignalState → Reaction
unfolding dispatch_prev
sigbus_dispatch s = elim s.current [
  | some desc ↦ jumps desc
  | none ↦ if s.prev_valid then dispatch_prev s.prev.siginfo s.prev.handler else dies
]

-- The kernel, on an action that is not sigbus_dispatch.
abbrev pub by_default : SigHandler → Reaction
by_default sig_dfl = dies
by_default sig_ign = ignores
by_default (function f) = calls (function f)

-- The kernel, when a SIGBUS is raised.
unfoldable pub deliver : SignalState → Reaction
unfolding sigbus_dispatch
deliver s = elim s.installed [ dispatcher ↦ sigbus_dispatch s | other a ↦ by_default a.handler ]

-- How SigbusScope::run ends: it returns, or the signal is answered elsewhere.
pub data ScopeEnd : Type 0 where
  returned : Bool → ScopeEnd
  elsewhere : Reaction → ScopeEnd

-- siglongjmp(env_, 1), where the signal came to handle.
unfoldable pub handle : Reaction → SignalState → ScopeEnd × SignalState
handle (jumps desc) s = (returned false, record s { current = none })
handle (calls h) s = (elsewhere (calls h), s)
handle ignores s = (elsewhere ignores, s)
handle dies s = (elsewhere dies, s)

-- run(fn), for what `fn` makes of the registers: a fault is the signal.
unfoldable pub scope_run : Bool → Text → Ran Bool → SignalState → ScopeEnd × SignalState
unfolding ensure_sigbus_handler deliver handle
scope_run accepted desc body s =
    let s1 = record (ensure_sigbus_handler accepted s) { current = some desc } in
    elim body [
      | done ok r ↦ (returned ok, record s1 { current = none })
      | fault r ↦ handle (deliver s1) s1
    ]
