-- ===== src/Hardware/Programs.antt =====
-- What a transfer of AxiDmaController, src/accelerators.cpp, does to the registers.
use ece506scheduler.Base.{
  ℕ, zero, suc, ◌+◌, ◌-◌, ◌/◌, ◌%◌, ◌^◌, ◌<◌, ◌≡◌, refl, subst, Bool, true, false, List, [], ◌∷◌,
  arith, if_ind,
}
use ece506scheduler.Hardware.Regs.{
  Access, wrote, read, slept_us, Regs, Ran, fault, done, and_then, write_reg, read_reg, pause_us,
  bit, error_bits,
}
use ece506scheduler.Hardware.Dma.{
  write_all, poll_idle, wait_for_idle, Controller, program, final_status, to_memory_done,
  from_memory_done, run_transfer, transfer,
}

-- The writes of a trace, the newest first.
pub writes : List Access → List (ℕ × ℕ)
writes [] = []
writes (wrote offset value ∷ rest) = (offset, value) ∷ writes rest
writes (read offset ∷ rest) = writes rest
writes (slept_us us ∷ rest) = writes rest

-- A step that ends normally leaves these writes.
abbrev Leaves {ℓ} : {B : Type ℓ} → List (ℕ × ℕ) → Ran B → Type 0
Leaves ws (fault r) = Unit {0}
Leaves ws (done b r) = writes r.trace ≡ ws

and_then-Leaves {ℓ κ} :
    {B : Type ℓ} {C : Type κ} (ws vs : List (ℕ × ℕ)) (m : Ran B) (k : B → Regs → Ran C)
    → Leaves ws m
    → ((b : B) (r : Regs) → writes r.trace ≡ ws → Leaves vs (k b r))
    → Leaves vs (and_then m k)
and_then-Leaves ws vs (fault r) k h step = tt
and_then-Leaves ws vs (done b r) k h step = step b r h

read_reg-Leaves : (offset : ℕ) (r : Regs) → Leaves (writes r.trace) (read_reg offset r)
unfolding read_reg writes
read_reg-Leaves offset r = ground arith

write_reg-Leaves :
    (offset value : ℕ) (r : Regs)
    → Leaves ((offset, value) ∷ writes r.trace) (write_reg offset value r)
unfolding write_reg writes
write_reg-Leaves offset value r = ground arith

-- A list reversed, in front of another.
pub reverse_onto {ℓ} : {B : Type ℓ} → List B → List B → List B
reverse_onto [] ys = ys
reverse_onto (x ∷ xs) ys = reverse_onto xs (x ∷ ys)

write_all-Leaves :
    (ws : List (ℕ × ℕ)) (r : Regs) → Leaves (reverse_onto ws (writes r.trace)) (write_all ws r)
unfolding write_all reverse_onto
write_all-Leaves [] r = refl
write_all-Leaves ((offset, value) ∷ ws) r =
    and_then-Leaves ((offset, value) ∷ writes r.trace) _ (write_reg offset value r) _
      (write_reg-Leaves offset value r)
      (λ _ r' e.
        subst (λ vs. Leaves (reverse_onto ws vs) (write_all ws r')) e (write_all-Leaves ws r'))

poll_idle-Leaves :
    (rounds status_reg : ℕ) (r : Regs) → Leaves (writes r.trace) (poll_idle rounds status_reg r)
unfolding poll_idle pause_us writes
poll_idle-Leaves zero status_reg r = refl
poll_idle-Leaves (suc rounds) status_reg r =
    and_then-Leaves (writes r.trace) (writes r.trace) (read_reg status_reg r) _
      (read_reg-Leaves status_reg r)
      (λ status r' e.
        if_ind (Leaves (writes r.trace)) (error_bits status) (λ _. e)
          (λ _.
            if_ind (Leaves (writes r.trace)) (bit 1 status) (λ _. e)
              (λ _.
                subst (λ vs. Leaves vs (poll_idle rounds status_reg (pause_us 500 r'))) e
                  (poll_idle-Leaves rounds status_reg (pause_us 500 r')))))

-- A step that only reads, after another.
after-Leaves {ℓ κ} :
    {B : Type ℓ} {C : Type κ} (ws : List (ℕ × ℕ)) (m : Ran B) (k : B → Regs → Ran C)
    → Leaves ws m
    → ((b : B) (r : Regs) → Leaves (writes r.trace) (k b r))
    → Leaves ws (and_then m k)
after-Leaves ws m k h step =
    and_then-Leaves ws ws m k h (λ b r e. subst (λ vs. Leaves vs (k b r)) e (step b r))

final_status-Leaves : (r : Regs) → Leaves (writes r.trace) (final_status r)
unfolding final_status
final_status-Leaves r =
    after-Leaves _ _ _ (read_reg-Leaves _ r)
      (λ _ r1. after-Leaves _ _ _ (read_reg-Leaves _ r1) (λ _ r2. refl))

to_memory_done-Leaves : (ok : Bool) (r : Regs) → Leaves (writes r.trace) (to_memory_done ok r)
unfolding to_memory_done
to_memory_done-Leaves false r = after-Leaves _ _ _ (read_reg-Leaves _ r) (λ _ r'. refl)
to_memory_done-Leaves true r = final_status-Leaves r

wait_for_idle-Leaves : (mm2s : Bool) (r : Regs) → Leaves (writes r.trace) (wait_for_idle mm2s r)
unfolding wait_for_idle
wait_for_idle-Leaves mm2s r = poll_idle-Leaves 4000 _ r

from_memory_done-Leaves : (ok : Bool) (r : Regs) → Leaves (writes r.trace) (from_memory_done ok r)
unfolding from_memory_done
from_memory_done-Leaves false r = after-Leaves _ _ _ (read_reg-Leaves _ r) (λ _ r'. refl)
from_memory_done-Leaves true r =
    after-Leaves _ _ _ (wait_for_idle-Leaves false r) to_memory_done-Leaves

run_transfer-Leaves :
    (src_phys dst_phys bytes : ℕ) (r : Regs)
    → Leaves
        (reverse_onto (program src_phys dst_phys bytes) (writes r.trace))
        (run_transfer src_phys dst_phys bytes r)
unfolding run_transfer
run_transfer-Leaves src dst bytes r =
    after-Leaves _ _ _ (write_all-Leaves (program src dst bytes) r)
      (λ _ r1. after-Leaves _ _ _ (wait_for_idle-Leaves true r1) from_memory_done-Leaves)

-- A transfer of at least one byte that reports success on a ready controller has made ten writes and
-- no other. At the offsets of the AXI DMA, the newest first: length 0x28, address 0x1C and 0x18 (the
-- source, its upper and lower word) and control 0x00 of the channel from memory; length 0x58, address
-- 0x4C and 0x48 (the destination) and control 0x30 of the channel to memory, which so is started
-- first; and all ones to the status registers 0x04 and 0x34, which clears them. The value of a
-- control register is the run bit (0) with the interrupt bits 4 and 6.
pub transfer-writes :
    (src_phys dst_phys bytes : ℕ) (c : Controller) (r : Regs)
    → c.ready ≡ true
    → 0 < bytes
    → (transfer src_phys dst_phys bytes c r).0 ≡ true
    → writes (transfer src_phys dst_phys bytes c r).2.trace
      ≡ (40, bytes % 2 ^ 32)
        ∷ (28, src_phys / 2 ^ 32 % 2 ^ 32)
        ∷ (24, src_phys % 2 ^ 32)
        ∷ (0, 2 ^ 0 + 2 ^ 4 + 2 ^ 6)
        ∷ (88, bytes % 2 ^ 32)
        ∷ (76, dst_phys / 2 ^ 32 % 2 ^ 32)
        ∷ (72, dst_phys % 2 ^ 32)
        ∷ (48, 2 ^ 0 + 2 ^ 4 + 2 ^ 6)
        ∷ (4, 2 ^ 32 - 1)
        ∷ (52, 2 ^ 32 - 1)
        ∷ writes r.trace
unfolding transfer reverse_onto
transfer-writes src dst bytes c r on some_bytes h =
    ground (arith, run_transfer-Leaves src dst bytes r)

transfer_unready :
    (src_phys dst_phys bytes : ℕ) (c : Controller) (r : Regs)
    → c.ready ≡ false
    → transfer src_phys dst_phys bytes c r ≡ (false, c, r)
unfolding transfer
transfer_unready src dst bytes c r off = ground arith

transfer-unready :
    (src_phys dst_phys bytes : ℕ) (c : Controller) (r : Regs)
    → (transfer src_phys dst_phys bytes c r).0 ≡ false
    → (transfer src_phys dst_phys bytes c r).1.ready ≡ false
unfolding transfer
transfer-unready src dst bytes c r h = ground arith

-- Once a transfer has answered false, for a timeout too, every later one does, and accesses nothing.
pub transfer_failed :
    (src_phys dst_phys bytes src' dst' bytes' : ℕ) (c : Controller) (r r' : Regs)
    → (transfer src_phys dst_phys bytes c r).0 ≡ false
    → transfer src' dst' bytes' (transfer src_phys dst_phys bytes c r).1 r'
      ≡ (false, (transfer src_phys dst_phys bytes c r).1, r')
transfer_failed src dst bytes src' dst' bytes' c r r' h =
    transfer_unready src' dst' bytes' _ r' (transfer-unready src dst bytes c r h)
