-- ===== src/Device/World.antt =====
-- The operating system as src/accelerators.cpp meets it: what a call answers is read off `answers`
-- by the number of calls before it, and every call is kept in `trace`, the newest first. A text put
-- into a std::ofstream is in its buffer until the stream is flushed, which its destructor does.
use ece506scheduler.Base.{ℕ, suc, ℤ, Bool, List, ◌∷◌, Text}

pub data Op : Type 0 where
  open_out : Text → Op
  put : (path text_put : Text) → Op
  flush : Text → Op
  exists : Text → Op
  sleep_ns : ℤ → Op

pub record Event : Type 0 where
  pub op : Op
  pub ok : Bool

-- `readable` says for which paths std::ifstream is good, and `clock` what steady_clock reads.
pub record World : Type 0 where
  pub answers : ℕ → Bool
  pub calls : ℕ
  pub trace : List Event
  pub readable : Text → Bool
  pub clock : ℕ → ℤ

unfoldable pub ask : Op → World → Bool × World
ask op w =
    let ok = w.answers w.calls in
    (ok, record w { calls = suc w.calls; trace = record { op = op; ok = ok } ∷ w.trace })

-- A call whose result the code does not look at.
unfoldable pub tell : Op → World → World
tell op w = (ask op w).1

-- steady_clock::now()
unfoldable pub now : World → ℤ × World
now w = (w.clock w.calls, record w { calls = suc w.calls })
