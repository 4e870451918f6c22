-- ===== src/Loopback/Waiting.antt =====
-- How long wait_for_idle of the loopback tools waits.
use ece506scheduler.Base.{
  true, ◌<◌, ◌⊎◌, inl, inr, ℕ, zero, suc, ◌+◌, ◌*◌, ◌%◌, ◌^◌, ◌≤◌, ◌≡◌, refl, Bool, false, List, [],
  ◌∷◌, arith, if_ind,
}
use ece506scheduler.Hardware.Regs.{Access, wrote, read, slept_us, Regs, pause_us, bit, error_bits}
use ece506scheduler.Loopback.Transfer.{device_read, poll_channel, poll_count, wait_channel}

-- The microseconds slept.
pub slept : List Access → ℕ
slept [] = 0
slept (slept_us us ∷ t) = us + slept t
slept (wrote offset value ∷ t) = slept t
slept (read offset ∷ t) = slept t

-- What `polls` polls from `r` come to, with the answer.
pub record Waited (polls : ℕ) (r : Regs) (answer : Bool × Regs) : Type 0 where
  pub reads : answer.1.count ≤ suc polls + r.count
  pub bounded : slept answer.1.trace ≤ 250 * polls + slept r.trace

poll_channel-Waited :
    (polls status_reg : ℕ) (r : Regs) → Waited polls r (poll_channel polls status_reg r)
unfolding poll_channel device_read pause_us slept
poll_channel-Waited zero status_reg r = record { reads = omega arith; bounded = omega arith }
poll_channel-Waited (suc polls) status_reg r =
    let (status, r') = device_read status_reg r in
    let later = poll_channel-Waited polls status_reg (pause_us 250 r') in
    if_ind (Waited (suc polls) r) (error_bits status)
      (λ _. record { reads = omega arith; bounded = omega arith })
      (λ _.
        if_ind (Waited (suc polls) r) (bit 1 status)
          (λ _. record { reads = omega arith; bounded = omega arith })
          (λ _. record {
            reads = omega (arith, later.reads);
            bounded = omega (arith, later.bounded);
          }))

-- Access number `k` found an error bit.
abbrev pub ShowsError : Regs → ℕ → Type 0
ShowsError r k = error_bits (r.values k % 2 ^ 32) ≡ true

-- An idle channel was seen, or an error, or the polls are used up.
abbrev pub Ends : (microseconds : ℕ) (r : Regs) (answer : Bool × Regs) → Type 0
Ends microseconds r (ok, r') =
    (ok ≡ true)
    ⊎ (((ok ≡ false) × ((k : ℕ) × (r.count ≤ k) × (k < r'.count) × ShowsError r k))
        ⊎ ((ok ≡ false) × (slept r'.trace ≡ microseconds + slept r.trace)))

later-Ends :
    (polls : ℕ) (r r' : Regs) (answer : Bool × Regs)
    → r.values ≡ r'.values
    → r.count ≤ r'.count
    → slept r'.trace ≡ 250 + slept r.trace
    → Ends (250 * polls) r' answer
    → Ends (250 * suc polls) r answer
later-Ends polls r r' answer same later sleeps (inl ok) = inl ok
later-Ends polls r r' answer same later sleeps (inr (inl (failed, (k, low, high, e)))) =
    inr (inl (failed, (k, omega (arith, low, later), high, rw same e)))
later-Ends polls r r' answer same later sleeps (inr (inr (failed, e))) =
    inr (inr (failed, omega (arith, e, sleeps)))

poll_channel-Ends :
    (polls status_reg : ℕ) (r : Regs) → Ends (250 * polls) r (poll_channel polls status_reg r)
unfolding poll_channel device_read pause_us slept
poll_channel-Ends zero status_reg r = inr (inr (refl, omega arith))
poll_channel-Ends (suc polls) status_reg r =
    let (status, r') = device_read status_reg r in
    if_ind (Ends (250 * suc polls) r) (error_bits status)
      (λ error. inr (inl (refl, (r.count, omega arith, omega arith, error))))
      (λ _.
        if_ind (Ends (250 * suc polls) r) (bit 1 status) (λ _. inl refl)
          (λ _.
            later-Ends polls r (pause_us 250 r') (poll_channel polls status_reg (pause_us 250 r'))
              refl (omega arith) (omega arith)
              (poll_channel-Ends polls status_reg (pause_us 250 r'))))

-- A wait for a channel makes at most one access more than four for each millisecond of the timeout,
-- and sleeps no longer than the timeout. It ends with true, or with false after an access that found
-- an error bit, or with false when it has slept for 250 microseconds times the timeout in
-- milliseconds times 4, less the multiples of 2^32 in that product.
pub wait_channel_lem :
    (status_reg timeout_ms : ℕ) (r : Regs)
    → let (ok, r') = wait_channel status_reg timeout_ms r in
      (r'.count ≤ 4 * timeout_ms + 1 + r.count)
      × (slept r'.trace ≤ 1000 * timeout_ms + slept r.trace)
      × ((ok ≡ true)
          ⊎ (((ok ≡ false) × ((k : ℕ) × (r.count ≤ k) × (k < r'.count) × ShowsError r k))
              ⊎ ((ok ≡ false)
                  × (slept r'.trace ≡ 250 * (timeout_ms * 4 % 2 ^ 32) + slept r.trace))))
unfolding wait_channel
wait_channel_lem status_reg timeout_ms r =
    let waited = poll_channel-Waited (poll_count timeout_ms) status_reg r in
    (
      omega (arith, waited.reads),
      omega (arith, waited.bounded),
      poll_channel-Ends (poll_count timeout_ms) status_reg r,
    )
