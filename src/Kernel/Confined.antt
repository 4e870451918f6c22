-- ===== src/Kernel/Confined.antt =====
-- What holds of axi_dma_map/axi_dma_map.c whatever is done with its device.
use ece506scheduler.Base.{
  ℕ, ◌+◌, ◌^◌, ◌==◌, ◌≤◌, ◌<◌, ◌≡◌, refl, ℤ, pos, negsuc, Bool, true, false, not, [], ◌∷◌, arith,
  All, if_ind, if◌then◌else◌,
}
use ece506scheduler.Kernel.Window.{
  Touch, Module, Transferred, axi_dma_transfer, axi_dma_map_init, axi_dma_map_exit, is_outside,
  offset_of, insert, Session, Step, inserts, transfers, removes, Reach, here, next,
}

-- The access lies in the window.
abbrev pub IsInside : Touch → Type 0
IsInside t = t.offset + t.length ≤ t.window

abbrev pub as_number : Bool → ℕ
as_number b = if b then 1 else 0

record IsSound (c : Session) : Type 0 where
  inside : All IsInside c.module_state.touches
  mapped : c.module_state.loaded ≡ true → c.module_state.dma_regs ≡ true
  balanced : c.module_state.mappings ≡ c.failed + as_number c.module_state.loaded

insert-IsSound :
    (size : ℕ) (remapped : Bool) (registered : ℤ) (c : Session)
    → c.module_state.loaded ≡ false
    → IsSound c
    → IsSound (insert size remapped registered c)
unfolding insert axi_dma_map_init
insert-IsSound size remapped registered c unloaded h = record {
  inside =
      if_ind (λ (a : ℤ × Module). All IsInside a.1.touches) (size == 0) (λ _. h.inside)
        (λ _.
          if_ind (λ (a : ℤ × Module). All IsInside a.1.touches) (not remapped) (λ _. h.inside)
            (λ _. h.inside));
  mapped = ground arith;
  balanced = ground (arith, h.balanced, unloaded);
}

-- An access that is not refused for its place.
accepted-IsInside :
    (size len : ℕ) (ppos : ℤ) (is_write : Bool)
    → len ≤ 2_147_479_552
    → offset_of ppos < 2 ^ 63
    → is_outside size ppos len ≡ false
    → IsInside
        (record { window = size; is_write = is_write; offset = offset_of ppos; length = len })
accepted-IsInside size len (pos n) is_write small low h = ground (arith, small, low, h)
accepted-IsInside size len (negsuc n) is_write small low h = absurd (ground (arith, h))

transfer-IsSound :
    (is_write : Bool) (not_copied len : ℕ) (ppos : ℤ) (c : Session)
    → len ≤ 2_147_479_552
    → offset_of ppos < 2 ^ 63
    → IsSound c
    → IsSound (record c {
      module_state = (axi_dma_transfer is_write not_copied len ppos c.module_state).state;
    })
unfolding axi_dma_transfer
transfer-IsSound is_write not_copied len ppos c small low h =
    let Sound = λ (t : Transferred). IsSound (record c { module_state = t.state }) in
    let touch : Touch = record {
      window = c.module_state.dma_reg_size;
      is_write = is_write;
      offset = offset_of ppos;
      length = len;
    } in
    let touched : is_outside c.module_state.dma_reg_size ppos len ≡ false
        → All IsInside (touch ∷ c.module_state.touches) =
      λ ok.
        (accepted-IsInside c.module_state.dma_reg_size len ppos is_write small low ok, h.inside) in
    if_ind Sound (is_outside c.module_state.dma_reg_size ppos len) (λ _. h)
      (λ ok.
        if_ind Sound (not c.module_state.dma_regs) (λ _. h)
          (λ _.
            if_ind Sound (not (not_copied == 0))
              (λ _. record { inside = touched ok; mapped = h.mapped; balanced = h.balanced })
              (λ _. record { inside = touched ok; mapped = h.mapped; balanced = h.balanced })))

remove-IsSound :
    (c : Session)
    → c.module_state.loaded ≡ true
    → IsSound c
    → IsSound
        (record c { module_state = record (axi_dma_map_exit c.module_state) { loaded = false } })
unfolding axi_dma_map_exit
remove-IsSound c loaded h = record {
  inside =
      if_ind (λ (m : Module). All IsInside m.touches) c.module_state.dma_regs (λ _. h.inside)
        (λ _. h.inside);
  mapped = λ e. absurd (ground (arith, e));
  balanced = ground (arith, h.balanced, loaded, h.mapped loaded);
}

Step-IsSound : {c d : Session} → Step c d → IsSound c → IsSound d
Step-IsSound {c} (inserts size remapped registered unloaded e) h =
    rw e (insert-IsSound size remapped registered c unloaded h)
Step-IsSound {c} (transfers is_write not_copied len ppos loaded small low e) h =
    rw e (transfer-IsSound is_write not_copied len ppos c small low h)
Step-IsSound {c} (removes loaded e) h = rw e (remove-IsSound c loaded h)

Reach-IsSound : {c d : Session} → Reach c d → IsSound c → IsSound d
Reach-IsSound here h = h
Reach-IsSound (next r s) h = Step-IsSound s (Reach-IsSound r h)

-- Before the module is first loaded.
abbrev pub untouched : Session
untouched = record {
  module_state = record {
    dma_reg_size = 0;
    dma_regs = false;
    loaded = false;
    mappings = 0;
    touches = [];
  };
  failed = 0;
}

-- However the module is loaded, its device read and written, and the module removed, with lengths and
-- positions that the virtual file system lets through: every access to the registers lies in the
-- window of that time, the registers are mapped whenever the module is loaded, and the live mappings
-- are one for the loaded module and one for each load that misc_register has refused.
pub Reach-confined :
    (d : Session)
    → Reach untouched d
    → All IsInside d.module_state.touches
      × (d.module_state.loaded ≡ true → d.module_state.dma_regs ≡ true)
      × (d.module_state.mappings ≡ d.failed + as_number d.module_state.loaded)
Reach-confined d run =
    let start : IsSound untouched = record { inside = tt; mapped = λ e. cc; balanced = refl } in
    let h = Reach-IsSound run start in (h.inside, h.mapped, h.balanced)
