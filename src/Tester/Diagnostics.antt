-- ===== src/Tester/Diagnostics.antt =====
-- The FFT diagnostics and main of apps/fpga_pr_tester.cpp. The samples and their dump are not
-- modelled; what an FFT does is the parameter `work`, as for the slots.
use ece506scheduler.Base.{
  ℕ, zero, suc, ◌+◌, ◌*◌, ◌%◌, ◌^◌, ◌==◌, pos, to_int32, Bool, true, false, not, ◌&&◌, List, [],
  ◌∷◌, none, some, Text, text, text_eq, to_string, emplace, assign, text_key, if◌then◌else◌,
}
use ece506scheduler.Task.{Task, AppDescriptor, fft, new_task}
use ece506scheduler.Device.World.{World}
use ece506scheduler.Device.Context.{fft_key}
use ece506scheduler.Device.Fleet.{Workload, slot_run}
use ece506scheduler.Hardware.Regs.{Regs}
use ece506scheduler.Hardware.FftRunner.{FftContext}
use ece506scheduler.Tester.Parsing.{TestOverlay, parse_overlay}
use ece506scheduler.Tester.Arguments.{Config, default_config, exits, collected, parse_test_args}
use ece506scheduler.Tester.Overlays.{SlotInstance, load_overlays}
use ece506scheduler.StaticProbe.MmioProbes.{DevMem, run_mmio_probes}

-- The context of an iteration: vectors of two floats of four bytes for each sample.
unfoldable pub diagnostic_context : Config → FftContext
diagnostic_context cfg = record {
  n = to_int32 (cfg.fft_length % 2 ^ 32);
  in_data = true;
  in_bytes = cfg.fft_length * 2 * 4;
  out_data = true;
  out_bytes = cfg.fft_length * 2 * 4;
  ok = false;
  message = [];
}

-- `ctx` is the context's address.
unfoldable pub diagnostic_task : AppDescriptor → (ctx iter : ℕ) → Task
diagnostic_task desc ctx iter = record (new_task (pos 0)) {
  id = (5000 + iter) % 2 ^ 32;
  app = desc.app;
  required = fft;
  est_runtime_ns = pos 15_000_000;
  params = emplace fft_key (to_string ctx) [];
}

-- The variables that configure_fft_env sets, in the environment so far.
unfoldable pub configure_fft_env : Config → List (Text × Text) → List (Text × Text)
configure_fft_env cfg env =
    let env1 : List (Text × Text) = elim cfg.udmabuf_name [
      | none ↦ env
      | some name ↦ assign (text "SCHEDRT_UDMABUF") name env
    ] in
    let env2 : List (Text × Text) = elim cfg.dma_base [
      | none ↦ env1
      | some base ↦ assign (text "SCHEDRT_DMA_BASE") base env1
    ] in
    if cfg.dma_debug then assign (text "SCHEDRT_DMA_DEBUG") (text "1") env2 else env2

pub record TesterEffects : Type 0 where
  pub world : World
  pub regs : Regs
  pub env : List (Text × Text)

module _ (work : Workload) where
  -- One iteration: result.ok && ctx.ok. ctx.ok is false at first; the slot's run stores its answer
  -- there where it comes to an FFT.
  unfoldable pub run_iteration : SlotInstance → (ctx iter : ℕ) → World → Bool × SlotInstance × World
  run_iteration i ctx iter w =
      let t = diagnostic_task i.desc ctx iter in
      let (result, slot, w') = slot_run work t i.desc i.slot w in
      let ctx_ok = not i.slot.opts.mock_mode && text_eq t.app (text "fft") && result.ok in
      (result.ok && ctx_ok, record i { slot = slot }, w')

  -- The loop, with the iterations left.
  unfoldable pub run_iterations :
      ℕ → SlotInstance → (ctx iter : ℕ) → World → Bool × SlotInstance × World
  run_iterations zero i ctx iter w = (true, i, w)
  run_iterations (suc left) i ctx iter w =
      let (ok, i', w') = run_iteration i ctx iter w in
      let rest = run_iterations left i' ctx (iter + 1) w' in if ok then rest else (false, i', w')

  unfoldable pub run_fft_diagnostic :
      Config → SlotInstance → (ctx : ℕ) → World → Bool × SlotInstance × World
  run_fft_diagnostic cfg i ctx w =
      if cfg.fft_length == 0 then (false, i, w) else run_iterations cfg.fft_iterations i ctx 0 w

  -- The loop over the slots; `false`: main returns 1 here. The slots are not used after it.
  unfoldable pub run_diagnostics : Config → List SlotInstance → (ctx : ℕ) → World → Bool × World
  run_diagnostics cfg [] ctx w = (true, w)
  run_diagnostics cfg (i ∷ slots) ctx w =
      let (ok, _, w') = run_fft_diagnostic cfg i ctx w in
      let rest = run_diagnostics cfg slots ctx w' in
      let skipped = run_diagnostics cfg slots ctx w in
      if not (text_eq i.desc.app (text "fft")) then skipped else if ok then rest else (false, w')

  module _ (exists : Text → Bool) (dev_mem : DevMem) (ctx : ℕ) where
    -- What follows the loop over the arguments. A failed MMIO probe does not change the exit code.
    unfoldable pub run_tester : Config → List TestOverlay → TesterEffects → ℕ × TesterEffects
    run_tester cfg overlays e =
        let env = configure_fft_env cfg e.env in
        let (loaded, l) = load_overlays exists cfg overlays e.world in
        let (_, regs) = run_mmio_probes dev_mem cfg.mmio_probes e.regs in
        let (ok, w) = run_diagnostics cfg l.slots ctx l.world in
        if not loaded
        then (1, record e { world = l.world; env = env })
        else if cfg.run_fft
        then (if ok then 0 else 1, record { world = w; regs = regs; env = env })
        else (0, record { world = l.world; regs = regs; env = env })

    -- main, for the arguments behind the program's name. Without an overlay it takes fft:1.
    unfoldable pub tester_main : List Text → TesterEffects → ℕ × TesterEffects
    tester_main args e = elim (parse_test_args args (default_config, [])) [
      | exits code ↦ (code, e)
      | collected (cfg, overlays) ↦ elim overlays [
        | overlay ∷ rest ↦ run_tester cfg (overlay ∷ rest) e
        | [] ↦ elim (parse_overlay cfg.bitstream_dir (text "fft:1")) [
          | none ↦ (1, e)
          | some spec ↦ run_tester cfg (spec ∷ []) e
        ]
      ]
    ]
