-- ===== src/Tester/Loads.antt =====
-- What load_overlays of apps/fpga_pr_tester.cpp leaves when it succeeds.
use ece506scheduler.Base.{
  ℕ, zero, suc, ◌+◌, ◌≡◌, Bool, true, false, not, List, [], ◌∷◌, Text, All, All-append, length,
  length-append, arith, if_ind,
}
use ece506scheduler.Task.{AppDescriptor}
use ece506scheduler.Device.World.{World}
use ece506scheduler.Device.Slot.{new_slot}
use ece506scheduler.Device.Load.{ensure_app_loaded, prepare_static}
use ece506scheduler.Device.Loaded.{ensure_app_loaded_lem}
use ece506scheduler.Tester.Parsing.{TestOverlay}
use ece506scheduler.Tester.Arguments.{Config}
use ece506scheduler.Tester.Overlays.{
  SlotInstance, Loading, test_options, overlay_desc, load_slot, load_copies, load_each,
  load_overlays, ensure_path_exists,
}

-- The slot says that it holds its overlay's app.
abbrev pub HoldsApp : SlotInstance → Type 0
HoldsApp i = (i.slot.current_app ≡ i.desc.app) × (i.slot.configured ≡ true)

pub total_count : List TestOverlay → ℕ
total_count [] = 0
total_count (overlay ∷ overlays) = overlay.count + total_count overlays

-- `n` more slots, if the answer is a success, and each of them holds its app.
record Grown (n : ℕ) (l : Loading) (r : Bool × Loading) : Type 0 where
  grows : r.0 ≡ true → length r.1.slots ≡ length l.slots + n
  holds : All HoldsApp l.slots → All HoldsApp r.1.slots

-- A failure that has added slots which hold their apps.
failed-Grown :
    (n : ℕ) (l l' : Loading)
    → (All HoldsApp l.slots → All HoldsApp l'.slots)
    → Grown n l (false, l')
failed-Grown n l l' h = record { grows = λ e. cc; holds = h }

module _ (exists : Text → Bool) (cfg : Config) where
  load_slot-Grown : (desc : AppDescriptor) (l : Loading) → Grown 1 l (load_slot exists cfg desc l)
  unfolding load_slot
  load_slot-Grown desc l =
      let (ready, shell, w1) = prepare_static (new_slot l.next_slot (test_options cfg)) l.world in
      let (ok, slot, _) = ensure_app_loaded desc shell w1 in
      let (_, _, _, loaded, _) = ensure_app_loaded_lem desc shell w1 in
      if_ind (Grown 1 l) (not ready) (λ _. failed-Grown 1 l _ (λ h. h))
        (λ _.
          if_ind (Grown 1 l) (not ok) (λ _. failed-Grown 1 l _ (λ h. h))
            (λ e.
              let held = loaded (ground arith) in
              record {
                grows = λ _. length-append l.slots _;
                holds = λ h. All-append HoldsApp l.slots _ h ((held.0, held.1), tt);
              }))

  load_copies-Grown :
      (n : ℕ) (desc : AppDescriptor) (l : Loading) → Grown n l (load_copies exists n cfg desc l)
  unfolding load_copies
  load_copies-Grown zero desc l = record { grows = λ _. omega arith; holds = λ h. h }
  load_copies-Grown (suc n) desc l =
      let one = load_slot-Grown desc l in
      let rest = load_copies-Grown n desc (load_slot exists cfg desc l).1 in
      if_ind (Grown (suc n) l) (load_slot exists cfg desc l).0
        (λ e. record {
          grows = λ e'. omega (arith, one.grows e, rest.grows e');
          holds = λ h. rest.holds (one.holds h);
        })
        (λ _. failed-Grown (suc n) l _ one.holds)

  load_each-Grown :
      (overlays : List TestOverlay) (l : Loading)
      → Grown (total_count overlays) l (load_each exists cfg overlays l)
  unfolding load_each total_count
  load_each-Grown [] l = record { grows = λ _. omega arith; holds = λ h. h }
  load_each-Grown (overlay ∷ overlays) l =
      let some_slots = load_copies-Grown overlay.count (overlay_desc overlay) l in
      let (ok, l') = load_copies exists overlay.count cfg (overlay_desc overlay) l in
      let rest = load_each-Grown overlays l' in
      let n = overlay.count + total_count overlays in
      if_ind (Grown n l) (not (ensure_path_exists exists overlay.bitstream_path))
        (λ _. failed-Grown n l l (λ h. h))
        (λ _.
          if_ind (Grown n l) ok
            (λ e. record {
              grows = λ e'. omega (arith, some_slots.grows e, rest.grows e');
              holds = λ h. rest.holds (some_slots.holds h);
            })
            (λ _. failed-Grown n l l' some_slots.holds))

  load_overlays-Grown :
      (overlays : List TestOverlay) (w : World)
      → Grown
          (total_count overlays)
          (record { next_slot = 0; slots = []; world = w })
          (load_overlays exists cfg overlays w)
  unfolding load_overlays
  load_overlays-Grown overlays w =
      let start : Loading = record { next_slot = 0; slots = []; world = w } in
      if_ind (Grown (total_count overlays) start)
        (not (ensure_path_exists exists cfg.static_bitstream))
        (λ _. failed-Grown _ start start (λ h. h)) (λ _. load_each-Grown overlays start)

  -- A success of load_overlays leaves as many slots as the overlays' counts add up to. On a failure
  -- too, each slot that it leaves says that it holds the app of its descriptor.
  pub load_overlays_lem :
      (overlays : List TestOverlay) (w : World)
      → let (ok, l) = load_overlays exists cfg overlays w in
        (ok ≡ true → length l.slots ≡ total_count overlays) × All HoldsApp l.slots
  load_overlays_lem overlays w =
      let g = load_overlays-Grown overlays w in (λ e. omega (arith, g.grows e), g.holds tt)
