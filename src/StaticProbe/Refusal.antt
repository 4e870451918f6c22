-- ===== src/StaticProbe/Refusal.antt =====
-- apps/fpga_static_probe.cpp without --fpga-real.
use mathlib.Core.List.{Memᴰ}
use ece506scheduler.Base.{
  OnSome, OnSome-elim, ℕ, ◌%◌, ◌^◌, ◌≡◌, refl, true, false, [], ◌∷◌, List, some, Text, text,
  text_eq, All, ◌⊎◌, inl, inr, if_ind, is_empty,
}
use ece506scheduler.Hardware.Udmabuf.{stoull_any}
use ece506scheduler.Tester.Parsing.{split_colon}
use ece506scheduler.Tester.Arguments.{add_offset}
use ece506scheduler.Loopback.Rules.{
  Scanned, exits, collected, scan_args, Keeps, is_help, Outcome, scan_args-Outcome,
}
use ece506scheduler.StaticProbe.Options.{
  ProbeOptions, probe_defaults, probe_rules, Variables, nonzero_number, parse_int, set_gpio,
  set_loopback_bytes, overlay_with, set_overlay, bare_probe, collect_mmio_probe, probe_offset_of,
  collect_probe_offset,
}
use ece506scheduler.StaticProbe.Main.{Surroundings, Effects, probe_shell, probe_main}

abbrev IsMock : Variables → Type 0
IsMock (o, probes) = o.fpga_real ≡ false

overlay_with-IsMock :
    (parts : List Text) (v : Variables) → IsMock v → OnSome IsMock (overlay_with parts v)
unfolding overlay_with
overlay_with-IsMock [] v h = tt
overlay_with-IsMock (label ∷ []) v h = if_ind (OnSome IsMock) (is_empty label) (λ _. tt) (λ _. h)
overlay_with-IsMock (label ∷ path ∷ rest) v h =
    if_ind (OnSome IsMock) (is_empty label) (λ _. tt)
      (λ _. if_ind (λ (o : ProbeOptions). o.fpga_real ≡ false) (is_empty path) (λ _. h) (λ _. h))

probe_offset_of-IsMock :
    (parts : List Text) (v : Variables) → IsMock v → OnSome IsMock (probe_offset_of parts v)
unfolding probe_offset_of
probe_offset_of-IsMock [] v h = tt
probe_offset_of-IsMock (label ∷ []) v h = tt
probe_offset_of-IsMock (label ∷ value ∷ []) v h = OnSome-elim IsMock (stoull_any value) _ (λ off.
    OnSome-elim IsMock (add_offset label (off % 2 ^ 32) v.1) (λ probes. some (v.0, probes))
      (λ _. h))
probe_offset_of-IsMock (label ∷ value ∷ more ∷ rest) v h = tt

probe_rules-Keeps : All (Keeps (text "--fpga-real") IsMock) probe_rules
unfolding set_gpio set_loopback_bytes set_overlay collect_mmio_probe collect_probe_offset
probe_rules-Keeps = (
  inl refl,
  (
    inr (λ v h. refl),
    (
      inr (λ v h. h),
      (
        inr (λ v h. h),
        (
          inr (λ v h. h),
          (
            λ s v h. h,
            (
              λ s v h. h,
              (
                λ s v h. OnSome-elim IsMock (parse_int s) _ (λ _. h),
                (
                  λ s v h. OnSome-elim IsMock (nonzero_number s) _ (λ _. h),
                  (
                    λ s v h. OnSome-elim IsMock (nonzero_number s) _ (λ _. h),
                    (
                      λ s v h. overlay_with-IsMock (split_colon s) v h,
                      (
                        inr (λ v h. h),
                        (
                          λ s v h. h,
                          (
                            λ s v h. h,
                            (
                              λ s v h. OnSome-elim IsMock (stoull_any s) _ (λ _. h),
                              (
                                λ s v h. OnSome-elim IsMock (nonzero_number s) _ (λ _. h),
                                (
                                  λ s v h.
                                      OnSome-elim IsMock (bare_probe (split_colon s)) _ (λ probe.
                                        if_ind (OnSome IsMock) (is_empty probe.label) (λ _. tt)
                                          (λ _. h)),
                                  (λ s v h. probe_offset_of-IsMock (split_colon s) v h, tt),
                                ),
                              ),
                            ),
                          ),
                        ),
                      ),
                    ),
                  ),
                ),
              ),
            ),
          ),
        ),
      ),
    ),
  ),
)

-- The exit code that an outcome of the arguments leads to, with nothing done.
Refused : List Text → Effects → ℕ × Effects → Type 0
Refused args e (code, e') =
    ((code ≡ 1) ⊎ ((code ≡ 0) × ((arg : Text) × Memᴰ arg args × (is_help arg ≡ true)))) × (e' ≡ e)

shell-refuses :
    (m : Surroundings) (v : Variables) (e : Effects) → IsMock v → probe_shell m v e ≡ (1, e)
unfolding probe_shell
shell-refuses m v e h = rw h refl

outcome-Refused :
    (m : Surroundings) (args : List Text) (e : Effects) (p : Scanned Variables)
    → Outcome IsMock args p
    → Refused args e (elim p [ exits code ↦ (code, e) | collected v ↦ probe_shell m v e ])
unfolding Refused
outcome-Refused m args e (exits code) h = (h, refl)
outcome-Refused m args e (collected v) h = rw (shell-refuses m v e h) (inl refl, refl)

-- Without the argument --fpga-real, whatever the others are and in whatever order: the tool writes no
-- file and touches no register, and its exit code is 1, or 0 where an argument asks for the usage.
pub probe_main-refuses :
    (m : Surroundings) (args : List Text) (e : Effects)
    → All (λ arg. text_eq arg (text "--fpga-real") ≡ false) args
    → (((probe_main m args e).0 ≡ 1)
        ⊎ (((probe_main m args e).0 ≡ 0) × ((arg : Text) × Memᴰ arg args × (is_help arg ≡ true))))
      × ((probe_main m args e).1 ≡ e)
unfolding probe_main Refused
probe_main-refuses m args e plain =
    outcome-Refused m args e (scan_args probe_rules args (probe_defaults, [])) (
      scan_args-Outcome IsMock (text "--fpga-real") probe_rules args (probe_defaults, [])
        probe_rules-Keeps plain refl)
