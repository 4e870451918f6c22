-- ===== src/Hardware/Regs.antt =====
-- The DMA's registers as AxiDmaController of src/accelerators.cpp meets them. What a read finds, and
-- whether an access raises SIGBUS, are unknown functions of the number of accesses before it. The
-- character device raises none: where pread fails, the value is what it left in the variable.
use ece506scheduler.Base.{
  ℕ, suc, ◌/◌, ◌%◌, ◌^◌, ◌==◌, Bool, not, ◌&&◌, ◌||◌, List, ◌∷◌, if◌then◌else◌,
}

pub data Access : Type 0 where
  wrote : (offset value : ℕ) → Access
  read : ℕ → Access
  slept_us : ℕ → Access

pub record Regs : Type 0 where
  pub use_device : Bool
  pub faults : ℕ → Bool
  pub values : ℕ → ℕ
  pub count : ℕ
  pub trace : List Access

-- A step under a SigbusScope: its result, or the jump out of the scope.
pub data Ran {ℓ} (B : Type ℓ) : Type ℓ where
  fault : Regs → Ran B
  done : B → Regs → Ran B

abbrev pub and_then {ℓ κ} : {B : Type ℓ} {C : Type κ} → Ran B → (B → Regs → Ran C) → Ran C
and_then (fault r) k = fault r
and_then (done b r) k = k b r

abbrev logged : Access → Regs → Regs
logged a r = record r { count = suc r.count; trace = a ∷ r.trace }

abbrev faulty : Regs → Bool
faulty r = not r.use_device && r.faults r.count

-- `value` is a uint32_t.
unfoldable pub write_reg : ℕ → ℕ → Regs → Ran (Unit {0})
write_reg offset value r = if faulty r then fault r else done tt (logged (wrote offset value) r)

unfoldable pub read_reg : ℕ → Regs → Ran ℕ
read_reg offset r =
    if faulty r then fault r else done (r.values r.count % 2 ^ 32) (logged (read offset) r)

unfoldable pub pause_us : ℕ → Regs → Regs
pause_us us r = record r { trace = slept_us us ∷ r.trace }

-- Bit `k` of a register's value.
abbrev pub bit : ℕ → ℕ → Bool
bit k value = value / 2 ^ k % 2 == 1

-- value & kErrMask, and value & kStatusErrMask
abbrev pub error_bits : ℕ → Bool
error_bits value =
    bit 4 value
    || bit 5 value
    || bit 6 value
    || bit 7 value
    || bit 12 value
    || bit 13 value
    || bit 14 value
