-- ===== src/Loopback/Copied.antt =====
-- What a success of the loopback shows.
use ece506scheduler.Base.{
  ℕ, zero, suc, ◌+◌, ◌/◌, ◌%◌, ◌≤◌, ◌<◌, ◌==◌, ltb, ◌≡◌, refl, ◌∙◌, Bool, true, false, not, ◌||◌,
  List, some, arith, if_ind, if◌then◌else◌, inl, inr, Bool-cases,
}
use ece506scheduler.Hardware.Regs.{Access, Regs}
use ece506scheduler.Loopback.Transfer.{
  Memory, fill_pattern, clear_bytes, mismatches, open_udmabuf, LoopbackOptions, Bench,
  check_loopback, start_loopback, run_dma_loopback,
}

fill_pattern-lt : (n i : ℕ) (mem : Memory) → i < n → fill_pattern n mem i ≡ i % 256
unfolding fill_pattern
fill_pattern-lt zero i mem h = absurd (omega (arith, h))
fill_pattern-lt (suc n) i mem h = elim (Bool-cases (i == n)) [
  | inl eq ↦ let e : i ≡ n = ground arith in rw (eq, e) refl
  | inr ne ↦ rw ne (fill_pattern-lt n i mem (ground arith))
]

clear_bytes-lt : (base n i : ℕ) (mem : Memory) → i < base → clear_bytes base n mem i ≡ mem i
unfolding clear_bytes
clear_bytes-lt base zero i mem h = refl
clear_bytes-lt base (suc n) i mem h =
    let ne : (i == base + n) ≡ false = ground arith in rw ne (clear_bytes-lt base n i mem h)

mismatches-none :
    (half n i : ℕ) (mem : Memory) → mismatches half n mem ≡ 0 → i < n → mem (half + i) ≡ mem i
unfolding mismatches
mismatches-none half zero i mem e h = absurd (omega (arith, h))
mismatches-none half (suc n) i mem e h = elim (Bool-cases (i == n)) [
  | inl eq ↦ let same : i ≡ n = ground arith in rw same (ground (arith, e))
  | inr ne ↦ mismatches-none half n i mem (ground (arith, e)) (ground arith)
]

-- How many bytes are sent.
abbrev pub sent : LoopbackOptions → ℕ → ℕ
sent opts size = if opts.bytes == 0 then size / 2 else opts.bytes

-- The buffer as the tool has filled it.
abbrev pub prepared : Bench → LoopbackOptions → ℕ → Memory
prepared b opts size =
    clear_bytes (size / 2) (sent opts size) (fill_pattern (sent opts size) b.buffer)

check-matched :
    (b : Bench) (half bytes timeout_ms : ℕ) (mem : Memory) (r : Regs)
    → (check_loopback b half bytes timeout_ms mem r).0 ≡ true
    → mismatches half bytes (b.engine (check_loopback b half bytes timeout_ms mem r).1.trace mem)
      ≡ 0
unfolding check_loopback
check-matched b half bytes timeout_ms mem r h = ground arith

-- What is known after a success that left the registers `r`.
record Matched (b : Bench) (opts : LoopbackOptions) (size : ℕ) (r : Regs) : Type 0 where
  some_bytes : 0 < sent opts size
  fits : sent opts size ≤ size / 2
  equal :
      (i : ℕ)
      → i < sent opts size
      → b.engine r.trace (prepared b opts size) (size / 2 + i)
        ≡ b.engine r.trace (prepared b opts size) i
  pattern : (i : ℕ) → i < sent opts size → prepared b opts size i ≡ i % 256

start-Matched :
    (b : Bench) (opts : LoopbackOptions) (size phys : ℕ) (r : Regs)
    → (start_loopback b opts size phys r).0 ≡ true
    → Matched b opts size (start_loopback b opts size phys r).1
unfolding start_loopback
start-Matched b opts size phys r =
    if_ind (λ (a : Bool × Regs). a.0 ≡ true → Matched b opts size a.1)
      (size / 2 == 0 || ltb (size / 2) (sent opts size)) (λ _ h. absurd (ground (arith, h)))
      (λ small.
        if_ind (λ (a : Bool × Regs). a.0 ≡ true → Matched b opts size a.1)
          (not (b.sys.opens opts.device)) (λ _ h. absurd (ground (arith, h)))
          (λ _ h. record {
            some_bytes = ground arith;
            fits = ground arith;
            equal = λ i i_lt.
                mismatches-none (size / 2) (sent opts size) i _
                  (check-matched b (size / 2) (sent opts size) opts.timeout_ms _ _ h) i_lt;
            pattern = λ i i_lt.
                clear_bytes-lt (size / 2) (sent opts size) i _ (ground arith)
                ∙ fill_pattern-lt (sent opts size) i b.buffer i_lt;
          }))

-- On a core that leaves the first half of the buffer as it was, after a success of the loopback with a
-- buffer of that size: the bytes asked for, or else all of the first half, are more than none and fit
-- a half, and byte i of those that have arrived in the second half is i modulo 256.
pub run_dma_loopback_lem :
    (b : Bench) (opts : LoopbackOptions) (size phys : ℕ) (r : Regs)
    → open_udmabuf b.sys opts.udmabuf ≡ some (size, phys)
    → ((t : List Access) (mem : Memory) (i : ℕ) → i < size / 2 → b.engine t mem i ≡ mem i)
    → (run_dma_loopback b opts r).0 ≡ true
    → (0 < sent opts size)
      × (sent opts size ≤ size / 2)
      × ((i : ℕ)
          → i < sent opts size
          → b.engine (run_dma_loopback b opts r).1.trace (prepared b opts size) (size / 2 + i)
            ≡ i % 256)
unfolding run_dma_loopback
run_dma_loopback_lem b opts size phys r found keeps =
    rw (run_dma_loopback, found)
      (λ ok.
        let m = start-Matched b opts size phys r ok in
        (
          m.some_bytes,
          m.fits,
          λ i i_lt. m.equal i i_lt ∙ keeps _ _ i (omega (arith, m.fits, i_lt)) ∙ m.pattern i i_lt,
        ))
