-- ===== src/Dash/Delivery.antt =====
-- What a future of src/dash/completion_bus.cpp receives.
use ece506scheduler.Base.{
  ℕ, ◌≡◌, refl, Bool, true, Option, none, some, lookup, nat_eq, lookup-assign, arith,
}
use ece506scheduler.Dash.CompletionBus.{Promise, Bus, subscribe, fulfill, future_get}

-- A subscription leaves an open promise for the id, which shares the future's state.
pub subscribe-opens :
    (id f : ℕ) (b : Bus)
    → (subscribe id b).0 ≡ some f
    → lookup id (subscribe id b).1.prom ≡ some (record { shared = f; retrieved = true })
unfolding subscribe
subscribe-opens id f b = go (lookup id b.prom) refl
  where
    go :
        (o : Option Promise)
        → lookup id b.prom ≡ o
        → (subscribe id b).0 ≡ some f
        → lookup id (subscribe id b).1.prom ≡ some (record { shared = f; retrieved = true })
    go none e h =
        ground (arith, lookup-assign id id (record { shared = b.next; retrieved = true }) b.prom)
    go (some pr) e h = ground (arith, lookup-assign id id (record pr { retrieved = true }) b.prom)

pub subscribe_open :
    (id f : ℕ) (b : Bus)
    → lookup id b.prom ≡ some (record { shared = f; retrieved = true })
    → subscribe id b ≡ (none, b)
unfolding subscribe
subscribe_open id f b e = rw (e, subscribe)

-- Where a subscription hands out a future, the task's completion reaches it.
pub future_get-fulfill :
    (id f : ℕ) (ok : Bool) (b : Bus)
    → (subscribe id b).0 ≡ some f
    → future_get f (fulfill id ok (subscribe id b).1) ≡ some ok
unfolding fulfill future_get lookup
future_get-fulfill id f ok b h = rw (subscribe-opens id f b h, fulfill) (ground arith)

-- The first subscription to an id hands out a future.
pub subscribe_fresh :
    (id : ℕ) (b : Bus) → lookup id b.prom ≡ none → (subscribe id b).0 ≡ some b.next
unfolding subscribe
subscribe_fresh id b e = rw (e, subscribe) refl

-- A completion that nobody has subscribed to is dropped.
pub fulfill_unsubscribed :
    (id : ℕ) (ok : Bool) (b : Bus) → lookup id b.prom ≡ none → fulfill id ok b ≡ b
unfolding fulfill
fulfill_unsubscribed id ok b h = rw (h, fulfill)
