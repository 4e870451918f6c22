-- ===== src/Dash/Unshared.antt =====
-- Which promises and futures of src/dash/completion_bus.cpp share a state.
use ece506scheduler.Base.{
  ℕ, suc, ◌==◌, ◌<◌, ◌≤◌, ◌≡◌, refl, sym, ap, ◌∙◌, Bool, true, false, List, ◌∷◌, Option, none, some,
  lookup, assign, erase, nat_eq, lookup-assign, lookup-erase, Option-cases, inl, inr, arith,
  if◌then◌else◌,
}
use ece506scheduler.Dash.Delivery.{fulfill_unsubscribed}
use ece506scheduler.Dash.CompletionBus.{Promise, Bus, new_bus, subscribe, fulfill, future_get}

-- The states of the open promises have no value yet, and are not those of another id.
pub record IsUnshared (b : Bus) : Type 0 where
  pub below : (id : ℕ) (pr : Promise) → lookup id b.prom ≡ some pr → pr.shared < b.next
  pub unused : (j : ℕ) → b.next ≤ j → future_get j b ≡ none
  pub unset : (id : ℕ) (pr : Promise) → lookup id b.prom ≡ some pr → future_get pr.shared b ≡ none
  pub distinct :
      (id id' : ℕ) (pr pr' : Promise)
      → lookup id b.prom ≡ some pr
      → lookup id' b.prom ≡ some pr'
      → pr.shared ≡ pr'.shared
      → id ≡ id'

pub new_bus-IsUnshared : IsUnshared new_bus
unfolding lookup future_get
new_bus-IsUnshared = record {
  below = λ id pr e. absurd (cc);
  unused = λ j h. refl;
  unset = λ id pr e. refl;
  distinct = λ id id' pr pr' e e' same. absurd (cc);
}

-- What an entry of a map is after an assignment, and after an erasure.
assigned :
    (id j : ℕ) (v pr : Promise) (m : List (ℕ × Promise))
    → lookup j (assign id v m) ≡ some pr
    → (if id == j then some v else lookup j m) ≡ some pr
assigned id j v pr m h = sym (lookup-assign id j v m) ∙ h

erased :
    (id j : ℕ) (pr : Promise) (m : List (ℕ × Promise))
    → lookup j (erase id m) ≡ some pr
    → (if id == j then none else lookup j m) ≡ some pr
erased id j pr m h = sym (lookup-erase id j m) ∙ h

fulfill-open :
    (id : ℕ) (ok : Bool) (b : Bus) (pr : Promise)
    → lookup id b.prom ≡ some pr
    → fulfill id ok b ≡ record b { prom = erase id b.prom; values = (pr.shared, ok) ∷ b.values }
unfolding fulfill
fulfill-open id ok b pr e = rw (e, fulfill)

future_get-cons :
    (f j : ℕ) (ok : Bool) (m : List (ℕ × Promise)) (n : ℕ) (vs : List (ℕ × Bool))
    → future_get f (record { prom = m; next = n; values = (j, ok) ∷ vs })
      ≡ (if j == f then some ok else lookup f vs)
unfolding future_get lookup
future_get-cons f j ok m n vs = refl

fulfilled-IsUnshared :
    (id : ℕ) (ok : Bool) (b : Bus) (p : Promise)
    → lookup id b.prom ≡ some p
    → IsUnshared b
    → IsUnshared (record b { prom = erase id b.prom; values = (p.shared, ok) ∷ b.values })
unfolding future_get lookup
fulfilled-IsUnshared id ok b p e u = record {
  below = λ j pr h. ground (arith, erased id j pr b.prom h, u.below j pr);
  unused = λ j h. ground (arith, u.below id p e, u.unused j h);
  unset = λ j pr h. ground (arith, erased id j pr b.prom h, u.unset j pr, u.distinct id j p pr e);
  distinct = λ j j' pr pr' h h' same.
      ground
        (arith, erased id j pr b.prom h, erased id j' pr' b.prom h', u.distinct j j' pr pr', same);
}

pub fulfill-IsUnshared :
    (id : ℕ) (ok : Bool) (b : Bus) → IsUnshared b → IsUnshared (fulfill id ok b)
unfolding fulfill
fulfill-IsUnshared id ok b u = go (lookup id b.prom) refl
  where
    go :
        (o : Option Promise)
        → lookup id b.prom ≡ o
        → IsUnshared (elim o [
          | none ↦ b
          | some pr ↦ record b { prom = erase id b.prom; values = (pr.shared, ok) ∷ b.values }
        ])
    go none e = u
    go (some p) e = fulfilled-IsUnshared id ok b p e u

-- A promise for the id is put into the map, over a state that no other id has.
assign-IsUnshared :
    (id f n : ℕ) (b : Bus)
    → f < n
    → b.next ≤ n
    → future_get f b ≡ none
    → ((j : ℕ) (pr : Promise) → lookup j b.prom ≡ some pr → f ≡ pr.shared → id ≡ j)
    → IsUnshared b
    → IsUnshared
        (record b { prom = assign id (record { shared = f; retrieved = true }) b.prom; next = n })
unfolding future_get
assign-IsUnshared id f n b less grown fresh own u =
    let v : Promise = record { shared = f; retrieved = true } in
    record {
      below = λ j pr h. ground (arith, less, grown, assigned id j v pr b.prom h, u.below j pr);
      unused = λ j h. u.unused j (omega (arith, h, grown));
      unset = λ j pr h. ground (arith, fresh, assigned id j v pr b.prom h, u.unset j pr);
      distinct = λ j j' pr pr' h h' same. ground (
        arith,
        assigned id j v pr b.prom h,
        assigned id j' v pr' b.prom h',
        u.distinct j j' pr pr',
        own j pr,
        own j' pr',
        same,
      );
    }

pub subscribe-IsUnshared : (id : ℕ) (b : Bus) → IsUnshared b → IsUnshared (subscribe id b).1
unfolding subscribe
subscribe-IsUnshared id b u = go (lookup id b.prom) refl
  where
    known :
        (pr : Promise) (retrieved : Bool)
        → lookup id b.prom ≡ some pr
        → IsUnshared
            (elim retrieved as (λ _. Option ℕ × Bus) [
              | true ↦ (none, b)
              | false ↦ (
                some pr.shared,
                record b { prom = assign id (record pr { retrieved = true }) b.prom },
              )
            ]).1
    known pr true e = u
    known pr false e =
        assign-IsUnshared id pr.shared b.next b (u.below id pr e) (omega arith) (u.unset id pr e)
          (λ j pr' h same. u.distinct id j pr pr' e h same) u

    go :
        (o : Option Promise)
        → lookup id b.prom ≡ o
        → IsUnshared
            (elim o as (λ _. Option ℕ × Bus) [
              | none ↦ (
                some b.next,
                record b {
                  prom = assign id (record { shared = b.next; retrieved = true }) b.prom;
                  next = suc b.next;
                },
              )
              | some pr ↦ elim pr.retrieved [
                | true ↦ (none, b)
                | false ↦ (
                  some pr.shared,
                  record b { prom = assign id (record pr { retrieved = true }) b.prom },
                )
              ]
            ]).1
    go none e =
        assign-IsUnshared id b.next (suc b.next) b (omega arith) (omega arith)
          (u.unused b.next (omega arith))
          (λ j pr h same. absurd (omega (arith, u.below j pr h, same))) u
    go (some pr) e = known pr pr.retrieved e

-- The future of an open promise is set by the fulfilment of its id, and by none other. A future that
-- is set stays so.
pub future_get-fulfilled :
    (id f : ℕ) (ok : Bool) (b : Bus)
    → lookup id b.prom ≡ some (record { shared = f; retrieved = true })
    → future_get f (fulfill id ok b) ≡ some ok
future_get-fulfilled id f ok b e =
    ap (future_get f) (fulfill-open id ok b _ e) ∙ future_get-cons f f ok _ _ _ ∙ ground arith

pub future_get-kept :
    (id f : ℕ) (ok was : Bool) (b : Bus)
    → IsUnshared b
    → future_get f b ≡ some was
    → future_get f (fulfill id ok b) ≡ some was
unfolding future_get
future_get-kept id f ok was b u h = go (lookup id b.prom) refl
  where
    go : (o : Option Promise) → lookup id b.prom ≡ o → future_get f (fulfill id ok b) ≡ some was
    go none e = ap (future_get f) (fulfill_unsubscribed id ok b e) ∙ h
    go (some pr) e =
        ap (future_get f) (fulfill-open id ok b pr e)
        ∙ future_get-cons f pr.shared ok (erase id b.prom) b.next b.values
        ∙ ground (arith, u.unset id pr e, h)

-- The promises of the other ids.
pub lookup-fulfill_ne :
    (id k : ℕ) (ok : Bool) (b : Bus)
    → (id == k) ≡ false
    → lookup k (fulfill id ok b).prom ≡ lookup k b.prom
unfolding fulfill
lookup-fulfill_ne id k ok b ne = ground (arith, lookup-erase id k b.prom)

lookup-assign_ne :
    (id k : ℕ) (v : Promise) (m : List (ℕ × Promise))
    → (id == k) ≡ false
    → lookup k (assign id v m) ≡ lookup k m
lookup-assign_ne id k v m ne = ground (arith, lookup-assign id k v m)

pub lookup-subscribe_ne :
    (id k : ℕ) (b : Bus) → (id == k) ≡ false → lookup k (subscribe id b).1.prom ≡ lookup k b.prom
unfolding subscribe
lookup-subscribe_ne id k b ne = elim (Option-cases (lookup id b.prom)) [
  | inl e ↦ rw (e, subscribe) (lookup-assign_ne id k _ b.prom ne)
  | inr (pr, e) ↦
      rw (e, subscribe)
        (ground (arith, lookup-assign_ne id k (record pr { retrieved = true }) b.prom ne))
]

pub future_get-subscribe : (id f : ℕ) (b : Bus) → future_get f (subscribe id b).1 ≡ future_get f b
unfolding subscribe future_get
future_get-subscribe id f b = ground arith

-- An id without a promise stays so.
pub lookup-fulfill-none :
    (id k : ℕ) (ok : Bool) (b : Bus)
    → lookup k b.prom ≡ none
    → lookup k (fulfill id ok b).prom ≡ none
unfolding fulfill
lookup-fulfill-none id k ok b h = ground (arith, h, lookup-erase id k b.prom)
