-- ===== src/Examples/Signals.antt =====
-- Guarded accesses of src/accelerators.cpp in a process that has its own handler for SIGBUS.
use ece506scheduler.Base.{◌≡◌, refl, Bool, true, false, List, [], ◌∷◌, map, none, Text, text}
use ece506scheduler.Hardware.Regs.{Regs, Ran, fault, done}
use ece506scheduler.Hardware.Sigbus.{SigAction, function, other, SignalState, deliver, sig_dfl}
use ece506scheduler.Hardware.Scopes.{scopes, answer_of, scopes_lem}

abbrev before : SigAction
before = record { siginfo = true; handler = function 7 }

abbrev first : SignalState
first = record {
  once = false;
  prev = record { siginfo = false; handler = sig_dfl };
  prev_valid = false;
  installed = other before;
  current = none;
}

abbrev registers : Regs
registers = record {
  use_device = false;
  faults = λ n. false;
  values = λ n. 0;
  count = 0;
  trace = [];
}

abbrev bodies : List (Text × Ran Bool)
bodies = (text "reset", fault registers) ∷ (text "transfer", done true registers) ∷ []

scopes_lem_example :
    let (ends, s') = scopes bodies first in
    (ends ≡ map answer_of bodies) × (deliver s' ≡ deliver first)
scopes_lem_example =
    scopes_lem before (text "reset") (fault registers) ((text "transfer", done true registers) ∷ [])
      first refl refl (λ e. cc)
