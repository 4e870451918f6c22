-- ===== src/Apps/Served.antt =====
-- The FFT tasks after app_initialize of apps/radar_correlator.cpp and apps/SAR/SAR.cpp.
use ece506scheduler.Base.{
  ◌≡◌, ◌≢◌, refl, sym, ap, true, ◌∙◌, inl, inr, List, [], none, some, text, text_eq, text_eq_iff,
  is_some, if_ind, Option-cases,
}
use ece506scheduler.Task.{Task, AppDescriptor}
use ece506scheduler.Registry.{
  Registry, IsKeyed, register_app-IsKeyed, find_app, find_app-register_app,
}
use ece506scheduler.Dash.Provider.{Provider}
use ece506scheduler.Device.Fleet.{Workload, Device, make_cpu_mock, fleet}
use ece506scheduler.Device.World.{World}
use ece506scheduler.Scheduler.Impl.{Impl, add_accelerator, select_accelerator}
use ece506scheduler.Runner.Fallback.{select-ne-none}
use ece506scheduler.Apps.Setup.{plain_fft, register_fft, app_initialize}

register_fft-IsKeyed : (reg : Registry) → IsKeyed reg → IsKeyed (register_fft reg)
unfolding register_fft
register_fft-IsKeyed reg h =
    if_ind IsKeyed (is_some (find_app (text "fft") reg)) (λ _. h)
      (λ _. register_app-IsKeyed plain_fft reg h)

register_fft-found :
    (reg : Registry) → (app : AppDescriptor) × (find_app (text "fft") (register_fft reg) ≡ some app)
unfolding register_fft
register_fft-found reg = elim (Option-cases (find_app (text "fft") reg)) [
  | inr (app, e) ↦ (app, rw (e, e) refl)
  | inl e ↦
      let same : text_eq (text "fft") (text "fft") ≡ true = (text_eq_iff _ _).1 refl in
      (plain_fft, rw (e, find_app-register_app plain_fft (text "fft") reg, same) refl)
]

-- After app_initialize on a scheduler whose registry files every descriptor under its own name, an FFT
-- task is found a descriptor, and select_accelerator always answers an accelerator for it: the worker
-- reports neither an unknown app nor that no accelerator is available.
pub app_initialize-serves :
    (work : Workload) (s : Impl Device World) (ps : List Provider) (t : Task)
    → IsKeyed s.reg
    → t.app ≡ text "fft"
    → let s' = (app_initialize work s ps).0 in
      (app : AppDescriptor) × (find_app t.app s'.reg ≡ some app)
      × ((select_accelerator (fleet work) t app s').0 ≢ none)
unfolding app_initialize add_accelerator make_cpu_mock
app_initialize-serves work s ps t keyed named =
    let (app, found) = register_fft-found s.reg in
    let own = register_fft-IsKeyed s.reg keyed (text "fft") app found in
    (
      app,
      ap (λ k. find_app k (register_fft s.reg)) named ∙ found,
      select-ne-none work t app _ 0 s.accelerators [] (own ∙ sym named) refl,
    )
