-- ===== src/Hardware/Scopes.antt =====
-- The guarded accesses of src/accelerators.cpp one after the other: what each SigbusScope answers, and
-- what a SIGBUS between them does.
use ece506scheduler.Base.{
  ◌≡◌, refl, sym, ◌∙◌, Bool, true, false, List, [], ◌∷◌, map, none, some, Text,
}
use ece506scheduler.Hardware.Regs.{Ran, fault, done}
use ece506scheduler.Hardware.Sigbus.{
  SigAction, sig_ign, sig_dfl, function, SigHandler, dispatcher, other, SignalState,
  ensure_sigbus_handler, dispatch_prev, deliver, by_default, jumps, ScopeEnd, returned, scope_run,
}

-- What the caller of run sees of the body.
abbrev pub outcome : Ran Bool → Bool
outcome (fault r) = false
outcome (done ok r) = ok

-- Scopes of one thread, the first one first; sigaction() succeeds.
unfoldable pub scopes : List (Text × Ran Bool) → SignalState → List ScopeEnd × SignalState
scopes [] s = ([], s)
scopes ((desc, body) ∷ rest) s =
    let (end, s1) = scope_run true desc body s in
    let (ends, s2) = scopes rest s1 in (end ∷ ends, s2)

abbrev pub answer_of : Text × Ran Bool → ScopeEnd
answer_of (desc, body) = returned (outcome body)

-- The handler stands, and keeps the action `a` that was there before it.
record IsInstalled (a : SigAction) (s : SignalState) : Type 0 where
  once : s.once ≡ true
  prev : s.prev ≡ a
  valid : s.prev_valid ≡ true
  installed : s.installed ≡ dispatcher
  current : s.current ≡ none

abbrev Answers : SigAction → Ran Bool → ScopeEnd × SignalState → Type 0
Answers a body (end, s') = (end ≡ returned (outcome body)) × IsInstalled a s'

first_scope :
    (a : SigAction) (desc : Text) (body : Ran Bool) (s : SignalState)
    → s.once ≡ false
    → s.installed ≡ other a
    → Answers a body (scope_run true desc body s)
unfolding scope_run
first_scope a desc (fault r) s once old =
    rw (once, old, scope_run)
      (refl, record { once = refl; prev = refl; valid = refl; installed = refl; current = refl })
first_scope a desc (done ok r) s once old =
    rw (once, old, scope_run)
      (refl, record { once = refl; prev = refl; valid = refl; installed = refl; current = refl })

ensure_again :
    (accepted : Bool) (s : SignalState) → s.once ≡ true → ensure_sigbus_handler accepted s ≡ s
unfolding ensure_sigbus_handler
ensure_again accepted s e = rw e refl

deliver_scope :
    (desc : Text) (s : SignalState)
    → s.installed ≡ dispatcher
    → deliver (record s { current = some desc }) ≡ jumps desc
unfolding deliver
deliver_scope desc s e = rw e refl

cleared-IsInstalled :
    (a : SigAction) (s : SignalState)
    → IsInstalled a s
    → IsInstalled a (record s { current = none })
cleared-IsInstalled a s i = record {
  once = i.once;
  prev = i.prev;
  valid = i.valid;
  installed = i.installed;
  current = refl;
}

later_scope :
    (a : SigAction) (desc : Text) (body : Ran Bool) (s : SignalState)
    → IsInstalled a s
    → Answers a body (scope_run true desc body s)
unfolding scope_run
later_scope a desc (fault r) s i =
    rw (ensure_again true s i.once, deliver_scope desc s i.installed)
      (refl, cleared-IsInstalled a s i)
later_scope a desc (done ok r) s i =
    rw (ensure_again true s i.once) (refl, cleared-IsInstalled a s i)

later_scopes :
    (a : SigAction) (bodies : List (Text × Ran Bool)) (s : SignalState)
    → IsInstalled a s
    → ((scopes bodies s).0 ≡ map answer_of bodies) × IsInstalled a (scopes bodies s).1
unfolding scopes
later_scopes a [] s i = (refl, i)
later_scopes a ((desc, body) ∷ rest) s i =
    let (e, i1) = later_scope a desc body s i in
    let (es, i2) = later_scopes a rest (scope_run true desc body s).1 i1 in (rw (e, es) refl, i2)

chain :
    (siginfo : Bool) (h : SigHandler)
    → (h ≡ sig_ign → siginfo ≡ false)
    → dispatch_prev siginfo h ≡ by_default h
unfolding dispatch_prev
chain true sig_dfl k = refl
chain true sig_ign k = cc (k refl)
chain true (function f) k = refl
chain false sig_dfl k = refl
chain false sig_ign k = refl
chain false (function f) k = refl

deliver_other :
    (a : SigAction) (s : SignalState) → s.installed ≡ other a → deliver s ≡ by_default a.handler
unfolding deliver
deliver_other a s e = rw e refl

IsInstalled-deliver :
    (a : SigAction) (s : SignalState)
    → (a.handler ≡ sig_ign → a.siginfo ≡ false)
    → IsInstalled a s
    → deliver s ≡ by_default a.handler
unfolding deliver
IsInstalled-deliver a s h i =
    rw (i.installed, i.current, i.valid, i.prev) (chain a.siginfo a.handler h)

-- The scopes that one thread runs, from a state in which none has run, where sigaction() succeeds and
-- the action for SIGBUS that stands there does not join SA_SIGINFO with SIG_IGN: each scope returns
-- what its body answers, and false for a body that a SIGBUS ends; behind them a SIGBUS outside of a
-- scope has the reaction that it had before the first.
pub scopes_lem :
    (a : SigAction) (desc : Text) (body : Ran Bool) (rest : List (Text × Ran Bool))
    (s : SignalState)
    → s.once ≡ false
    → s.installed ≡ other a
    → (a.handler ≡ sig_ign → a.siginfo ≡ false)
    → let (ends, s') = scopes ((desc, body) ∷ rest) s in
      (ends ≡ map answer_of ((desc, body) ∷ rest)) × (deliver s' ≡ deliver s)
unfolding scopes
scopes_lem a desc body rest s once old h =
    let (e, i1) = first_scope a desc body s once old in
    let (es, i2) = later_scopes a rest (scope_run true desc body s).1 i1 in
    (
      rw (e, es) refl,
      IsInstalled-deliver a (scopes rest (scope_run true desc body s).1).1 h i2
          ∙ sym (deliver_other a s old),
    )
