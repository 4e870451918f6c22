-- ===== src/Dash/Pending.antt =====
-- Tasks that a program has submitted to src/scheduler.cpp and whose futures of
-- src/dash/completion_bus.cpp it holds, where accelerators succeed.
use mathlib.Core.List.{Perm}
use ece506scheduler.Base.{
  ℕ, suc, ◌≤◌, ◌<◌, ◌≡◌, refl, sym, ◌∙◌, ap, subst, true, List, [], ◌∷◌, none, some, lookup, nat_eq,
  length, All, All-map, All-Memᴰ, count, count-cons, is_some, inl, inr, arith,
}
use ece506scheduler.Task.{Task}
use ece506scheduler.ReadyQueue.{ReadyQueue}
use ece506scheduler.Registry.{find_app, IsKeyed}
use ece506scheduler.Dash.CompletionBus.{subscribe, future_get}
use ece506scheduler.Dash.Delivery.{subscribe-opens}
use ece506scheduler.Dash.Unshared.{
  IsUnshared, fulfill-IsUnshared, subscribe-IsUnshared, lookup-subscribe_ne, lookup-fulfill-none,
}
use ece506scheduler.Scheduler.Accelerators.{Accelerators, IsLawful}
use ece506scheduler.Scheduler.Impl.{Impl, make_ready}
use ece506scheduler.Scheduler.Threads.{worker_body}
use ece506scheduler.Scheduler.Passes.{task_id, result_id, make_ready-pq, make_ready-stop}
use ece506scheduler.Scheduler.Frame.{make_ready-queues}
use ece506scheduler.Scheduler.Rounds.{worker_body-Worked}
use ece506scheduler.Scheduler.Loop.{worker_loop, IsLive, worker_loop_ind}
use ece506scheduler.Scheduler.Loop.Reports.{worker_loop-reports, worker_loop-Serves}
use ece506scheduler.Scheduler.Staffed.{Duty, Has, IsSteady, make_ready-Has}
use ece506scheduler.Scheduler.Liveness.Body.{IsOk, Succeeds}
use ece506scheduler.Scheduler.Liveness.Queue.{IsKnown, worker_loop-WorksThrough}

-- The future of an id is open, and the id is queued.
abbrev pub IsOpen : {A W : Type 0} → Impl A W → ℕ × ℕ → Type 0
IsOpen s (id, f) =
    (lookup id s.bus.prom ≡ some (record { shared = f; retrieved = true }))
    × (0 < count task_id id s.ready.pq)

module _ {A W : Type 0} (ops : Accelerators A W) (P : Duty → A → Type 0) (steady : IsSteady ops P)
    (lawful : IsLawful ops) (succeeds : Succeeds ops P) where
  -- A scheduler on which the `pending` ids with their futures are open, and whose next ids, those from
  -- `k` on, have no promise.
  pub record IsPending (pending : List (ℕ × ℕ)) (k : ℕ) (s : Impl A W) : Type 0 where
    pub live : IsLive ops s
    pub staffed : Has P s.accelerators
    pub known : All (IsKnown s.reg) s.ready.pq
    pub unshared : IsUnshared s.bus
    pub fresh : (i : ℕ) → k ≤ i → lookup i s.bus.prom ≡ none
    pub well : All IsOk s.reported
    pub opened : All (λ p. IsOpen s p × (p.0 < k)) pending
    pub room : length s.ready.pq ≤ length pending

  module _ (t : Task) (pending : List (ℕ × ℕ)) (k f : ℕ) (s : Impl A W)
      (p : IsPending pending k s) where
    abbrev pub subscribed : Impl A W
    subscribed = record s { bus = (subscribe k s.bus).1 }

    abbrev pub scheduled : Impl A W
    scheduled = make_ready ops t subscribed

    IsOpen-next : t.id ≡ k → (subscribe k s.bus).0 ≡ some f → IsOpen scheduled (k, f)
    IsOpen-next named e =
        let (_, _, _, _, b, _, _) = make_ready-queues ops t subscribed in
        let pq = make_ready-pq ops t subscribed in
        (
          rw b (subscribe-opens k f s.bus e),
          rw pq
              (ground (arith, named, count-cons task_id k (record t { ready = true }) s.ready.pq)),
        )

    IsOpen-before : (q : ℕ × ℕ) → IsOpen s q → q.0 < k → IsOpen scheduled q
    IsOpen-before (id, g) (o, c) less =
        let (_, _, _, _, b, _, _) = make_ready-queues ops t subscribed in
        let pq = make_ready-pq ops t subscribed in
        (
          rw b (lookup-subscribe_ne k id s.bus (ground (arith, less)) ∙ o),
          rw pq (omega (arith, c, count-cons task_id id (record t { ready = true }) s.ready.pq)),
        )

    -- One more task is subscribed and submitted.
    pub schedule-IsPending :
        t.id ≡ k
        → is_some (find_app t.app s.reg) ≡ true
        → (subscribe k s.bus).0 ≡ some f
        → IsPending ((k, f) ∷ pending) (suc k) scheduled
    schedule-IsPending named known e =
        let (_, _, _, r, b, run, g) = make_ready-queues ops t subscribed in
        let pq = make_ready-pq ops t subscribed in
        record {
          live = record {
            keyed = subst IsKeyed (sym g) p.live.keyed;
            running = run ∙ p.live.running;
            live = make_ready-stop ops t subscribed ∙ p.live.live;
          };
          staffed = make_ready-Has ops P steady t subscribed p.staffed;
          known = subst (λ r. All (IsKnown r) scheduled.ready.pq) (sym g) (rw pq (known, p.known));
          unshared = rw b (subscribe-IsUnshared k s.bus p.unshared);
          fresh = λ i h.
              rw b
                (lookup-subscribe_ne k i s.bus (ground (arith, h)) ∙ p.fresh i (omega (arith, h)));
          well = rw r p.well;
          opened = (
            (IsOpen-next named e, omega arith),
            All-map _ _ pending (λ q o. (IsOpen-before q o.0 o.1, omega (arith, o.1))) p.opened,
          );
          room = omega (arith, p.room, ap (λ (l : List Task). length l) pq);
        }

  -- The loop keeps ids without a promise.
  loop_fresh :
      (k n : ℕ) (s : Impl A W)
      → ((i : ℕ) → k ≤ i → lookup i s.bus.prom ≡ none)
      → IsUnshared s.bus
      → IsLive ops s
      → length s.ready.pq ≤ n
      → let s' = worker_loop ops n s in
        ((i : ℕ) → k ≤ i → lookup i s'.bus.prom ≡ none) × IsUnshared s'.bus
  loop_fresh k n s fresh u v fits =
      worker_loop_ind ops lawful (Keeps k) (λ _ _ s'. Keeps k s') (λ n s i v e. i) (keep k)
        (λ n t q s s' i v e p ih. ih) n s (fresh, u) v fits
    where
      Keeps : ℕ → Impl A W → Type 0
      Keeps k s = ((i : ℕ) → k ≤ i → lookup i s.bus.prom ≡ none) × IsUnshared s.bus

      keep :
          (k : ℕ) (t : Task) (q : ReadyQueue) (s : Impl A W)
          → Keeps k s
          → IsLive ops s
          → Perm s.ready.pq (t ∷ q.pq)
          → Keeps k (worker_body ops t (record s { ready = q }))
      keep k t q s (fresh, u) v p =
          let w = worker_body-Worked ops lawful t (record s { ready = q }) v.keyed in
          rw w.bus (
            λ i h. lookup-fulfill-none t.id i w.result.ok s.bus (fresh i h),
            fulfill-IsUnshared t.id w.result.ok s.bus u,
          )

  module _ (pending : List (ℕ × ℕ)) (k n : ℕ) (s : Impl A W) (p : IsPending pending k s)
      (fits : length pending ≤ n) where
    abbrev settled : Impl A W
    settled = worker_loop ops n s

    room_enough : length s.ready.pq ≤ n
    room_enough = omega (arith, p.room, fits)

    answered :
        All IsOk settled.reported
        → (q : ℕ × ℕ) → IsOpen s q
        → future_get q.1 settled.bus ≡ some true
    answered well (id, f) (o, c) =
        let before = count result_id id s.reported in
        let served =
          worker_loop-Serves ops lawful id f before n s p.unshared (inl (o, refl)) p.live
            room_enough in
        let counted = worker_loop-reports ops lawful id n s p.live room_enough in
        elim served [
          | inl (_, same) ↦ absurd (omega (arith, same, counted, c))
          | inr (r, m, e, h, _) ↦ h ∙ ap some (All-Memᴰ IsOk settled.reported m well)
        ]

    -- Rounds enough set each pending future to true.
    pub settle-IsPending :
        IsPending [] k settled
        × All (λ q. future_get q.1 settled.bus ≡ some true) pending
        × (settled.reg ≡ s.reg)
    settle-IsPending =
        let w =
          worker_loop-WorksThrough ops P steady lawful succeeds n s
            (record { known = p.known; staffed = p.staffed }) p.live room_enough in
        let (fresh, unshared) = loop_fresh k n s p.fresh p.unshared p.live room_enough in
        let well = w.well p.well in
        (
          record {
            live = w.live;
            staffed = w.staffed;
            known = rw w.emptied tt;
            unshared = unshared;
            fresh = fresh;
            well = well;
            opened = tt;
            room = rw w.emptied (omega arith);
          },
          All-map _ _ pending (λ q o. answered well q o.0) p.opened,
          w.reg,
        )
