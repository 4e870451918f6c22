-- ===== src/Kernel/Window.antt =====
-- axi_dma_map/axi_dma_map.c, with 64-bit size_t and loff_t. What the kernel's functions answer is a
-- parameter of each step: ioremap, misc_register, and the bytes that copy_to_user or copy_from_user
-- could not copy.
use ece506scheduler.Base.{
  ℕ, ◌+◌, ◌-◌, ◌%◌, ◌^◌, ltb, ◌==◌, ℤ, pos, negsuc, ltb_ℤ, Bool, true, false, not, ◌&&◌, List, ◌∷◌,
  ◌≡◌, ◌≤◌, ◌<◌, if◌then◌else◌,
}

-- An access to the registers, of `length` bytes at most, in a window of `window` bytes.
pub record Touch : Type 0 where
  pub window : ℕ
  pub is_write : Bool
  pub offset : ℕ
  pub length : ℕ

-- The module's variables, and what the kernel knows of it: whether it is loaded and how many of its
-- mappings are live.
pub record Module : Type 0 where
  pub dma_reg_size : ℕ
  pub dma_regs : Bool
  pub loaded : Bool
  pub mappings : ℕ
  pub touches : List Touch

-- -EINVAL, -ENODEV, -EFAULT and -ENOMEM
abbrev pub einval : ℤ
einval = negsuc 21

abbrev pub enodev : ℤ
enodev = negsuc 18

abbrev pub efault : ℤ
efault = negsuc 13

abbrev pub enomem : ℤ
enomem = negsuc 11

-- The state after an access, with its result and the new position.
pub record Transferred : Type 0 where
  pub result : ℤ
  pub position : ℤ
  pub state : Module

-- `*ppos < 0 || *ppos + len > dma_reg_size`; the sum is unsigned.
abbrev pub is_outside : ℕ → ℤ → ℕ → Bool
is_outside dma_reg_size (negsuc n) len = true
is_outside dma_reg_size (pos n) len = ltb dma_reg_size ((n + len) % 2 ^ 64)

abbrev pub offset_of : ℤ → ℕ
offset_of (pos n) = n
offset_of (negsuc n) = 0

-- axi_dma_read and axi_dma_write, which differ in the direction alone. A copy that fails may have
-- touched the registers all the same.
unfoldable pub axi_dma_transfer :
    (is_write : Bool) → (not_copied len : ℕ) → ℤ → Module → Transferred
axi_dma_transfer is_write not_copied len ppos m =
    let touched = record m {
      touches =
          record {
            window = m.dma_reg_size;
            is_write = is_write;
            offset = offset_of ppos;
            length = len;
          }
          ∷ m.touches;
    } in
    if is_outside m.dma_reg_size ppos len
    then record { result = einval; position = ppos; state = m }
    else if not m.dma_regs
    then record { result = enodev; position = ppos; state = m }
    else if not (not_copied == 0)
    then record { result = efault; position = ppos; state = touched }
    else record { result = pos len; position = pos (offset_of ppos + len); state = touched }

-- axi_dma_map_init, with the answers of ioremap and misc_register.
unfoldable pub axi_dma_map_init : (remapped : Bool) → (registered : ℤ) → Module → ℤ × Module
axi_dma_map_init remapped registered m =
    if m.dma_reg_size == 0
    then (einval, m)
    else if not remapped
    then (enomem, record m { dma_regs = false })
    else (registered, record m { dma_regs = true; mappings = m.mappings + 1 })

unfoldable pub axi_dma_map_exit : Module → Module
axi_dma_map_exit m =
    (if m.dma_regs
      then record m { dma_regs = false; mappings = m.mappings - 1 }
      else record m { dma_regs = false })

-- The module's variables as the kernel sets them up when it loads the module with a window of `size`.
abbrev pub inserted : ℕ → Module → Module
inserted size m = record m { dma_reg_size = size; dma_regs = false; loaded = true }

-- How the kernel uses the module. A module whose init fails is dropped without a call of its exit;
-- a position and a length come from the virtual file system, which keeps them below MAX_RW_COUNT and
-- the largest loff_t; no file is open when exit runs. `failed` counts the loads that misc_register
-- has refused.
pub record Session : Type 0 where
  pub module_state : Module
  pub failed : ℕ

-- insmod, with a window of `size` bytes.
unfoldable pub insert : (size : ℕ) (remapped : Bool) (registered : ℤ) → Session → Session
insert size remapped registered c =
    let (result, m) = axi_dma_map_init remapped registered (inserted size c.module_state) in
    let refused = m.dma_regs && ltb_ℤ result (pos 0) in
    record {
      module_state = record m { loaded = not (ltb_ℤ result (pos 0)) };
      failed = c.failed + (if refused then 1 else 0);
    }

pub data Step (c d : Session) : Type 0 where
  inserts :
      (size : ℕ) (remapped : Bool) (registered : ℤ)
      → c.module_state.loaded ≡ false
      → d ≡ insert size remapped registered c
      → Step c d
  transfers :
      (is_write : Bool) (not_copied len : ℕ) (ppos : ℤ)
      → c.module_state.loaded ≡ true
      → len ≤ 2_147_479_552
      → offset_of ppos < 2 ^ 63
      → d ≡ record c {
        module_state = (axi_dma_transfer is_write not_copied len ppos c.module_state).state;
      }
      → Step c d
  removes :
      c.module_state.loaded ≡ true
      → d ≡ record c { module_state = record (axi_dma_map_exit c.module_state) { loaded = false } }
      → Step c d

pub data Reach (c : Session) : Session → Type 0 where
  here : Reach c c
  next : {d e : Session} → Reach c d → Step d e → Reach c e
