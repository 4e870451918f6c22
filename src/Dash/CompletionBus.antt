-- ===== src/Dash/CompletionBus.antt =====
-- src/dash/completion_bus.cpp. A promise in the map has not been set: `fulfill` sets it and takes it
-- out. A future is the number of the state that it shares with its promise.
use ece506scheduler.Base.{
  ℕ, suc, Bool, true, false, List, [], ◌∷◌, Option, none, some, lookup, assign, erase, nat_eq,
}

pub record Promise : Type 0 where
  pub shared : ℕ
  pub retrieved : Bool

pub record Bus : Type 0 where
  pub prom : List (ℕ × Promise)
  pub next : ℕ
  pub values : List (ℕ × Bool)

abbrev pub new_bus : Bus
new_bus = record { prom = []; next = 0; values = [] }

-- `none`: get_future throws future_already_retrieved.
unfoldable pub subscribe : ℕ → Bus → Option ℕ × Bus
unfolding lookup assign
subscribe task_id b = elim (lookup task_id b.prom) [
  | none ↦ (
    some b.next,
    record b {
      prom = assign task_id (record { shared = b.next; retrieved = true }) b.prom;
      next = suc b.next;
    },
  )
  | some pr ↦ elim pr.retrieved [
    | true ↦ (none, b)
    | false ↦
        (some pr.shared, record b { prom = assign task_id (record pr { retrieved = true }) b.prom })
  ]
]

unfoldable pub fulfill : ℕ → Bool → Bus → Bus
unfolding lookup erase assign
fulfill task_id ok b = elim (lookup task_id b.prom) [
  | none ↦ b
  | some pr ↦ record b { prom = erase task_id b.prom; values = (pr.shared, ok) ∷ b.values }
]

-- What future.get() returns; it blocks at `none`.
unfoldable pub future_get : ℕ → Bus → Option Bool
unfolding lookup
future_get f b = lookup f b.values
