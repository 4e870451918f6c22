-- ===== src/Examples/Tools.antt =====
-- The tools in apps/ and the kernel module axi_dma_map/axi_dma_map.c at concrete inputs.
use mathlib.Core.List.{Memᴰ}
use ece506scheduler.Base.{
  ℕ, ◌+◌, ◌-◌, ◌*◌, ◌/◌, ◌%◌, ◌^◌, ◌≤◌, ◌<◌, ◌≡◌, refl, leb, ltb, ◌&&◌, true, false, List, [], ◌∷◌,
  Option, some, Text, text, text_eq, starts_with, pos, negsuc, All, ◌⊎◌, arith, if◌then◌else◌,
}
use ece506scheduler.Hardware.Regs.{Access, Regs, pause_us}
use ece506scheduler.Hardware.Udmabuf.{digit_value, read_base, stoull_any, read_value}
use ece506scheduler.Loopback.Transfer.{
  Memory, fill_pattern, clear_bytes, mismatches, device_write, device_read, device_writes,
  poll_channel, wait_channel, open_udmabuf, LoopbackOptions, Bench, check_loopback, start_loopback,
  run_dma_loopback,
}
use ece506scheduler.Loopback.Waiting.{slept, ShowsError, wait_channel_lem}
use ece506scheduler.Loopback.Copied.{prepared, run_dma_loopback_lem}
use ece506scheduler.Loopback.DmaTest.{dma_test_main, run_test, set_bytes}
use ece506scheduler.Runner.Options.{value_of}
use ece506scheduler.Loopback.Rules.{is_help, match_rule, match_rules, scan_args}
use ece506scheduler.StaticProbe.Main.{Surroundings, Effects, probe_main}
use ece506scheduler.StaticProbe.Refusal.{probe_main-refuses}
use ece506scheduler.Kernel.Window.{
  Session, inserts, transfers, Reach, here, next, insert, axi_dma_map_init, axi_dma_transfer,
  axi_dma_map_exit,
}
use ece506scheduler.Kernel.Confined.{IsInside, as_number, untouched, Reach-confined}

abbrev word : Text → Option Text
word path =
    if text_eq path (text "/sys/class/u-dma-buf/udmabuf0/size")
    then some (text "8")
    else some (text "0x20")

abbrev copied : List Access → Memory → Memory
copied t mem k = if leb 4 k && ltb k 8 then mem (k - 4) else mem k

abbrev bench : Bench
bench = record {
  sys = record { word = word; opens = λ p. true; maps = λ p. true };
  buffer = λ k. 9;
  engine = copied;
}

abbrev loop_options : LoopbackOptions
loop_options = record {
  device = text "/dev/axi_dma_regs";
  udmabuf = text "udmabuf0";
  bytes = 3;
  timeout_ms = 1;
}

-- A core that is idle, and one that never is.
abbrev idle : Regs
idle = record { use_device = true; faults = λ k. false; values = λ k. 2; count = 0; trace = [] }

abbrev busy : Regs
busy = record idle { values = λ k. 0 }

wait_channel_lem_example :
    let (ok, r') = wait_channel 4 1 busy in
    (r'.count ≤ 4 * 1 + 1 + 0)
    × (slept r'.trace ≤ 1000 * 1 + slept [])
    × ((ok ≡ true)
        ⊎ (((ok ≡ false) × ((k : ℕ) × (0 ≤ k) × (k < r'.count) × ShowsError busy k))
            ⊎ ((ok ≡ false) × (slept r'.trace ≡ 250 * (1 * 4 % 2 ^ 32) + slept []))))
wait_channel_lem_example = wait_channel_lem 4 1 busy

program : Unit {0}
unfolding text text_eq starts_with digit_value read_base stoull_any read_value fill_pattern
    clear_bytes mismatches device_write device_read device_writes poll_channel wait_channel
    open_udmabuf check_loopback start_loopback run_dma_loopback pause_us
program = tt

opened : open_udmabuf bench.sys (text "udmabuf0") ≡ some (8, 32)
unfolding program
opened = refl

copied-keeps : (t : List Access) (mem : Memory) (i : ℕ) → i < 4 → copied t mem i ≡ mem i
copied-keeps t mem i h = ground (arith, h)

succeeded_once : (run_dma_loopback bench loop_options idle).0 ≡ true
unfolding program
succeeded_once = refl

run_dma_loopback_lem_example :
    (0 < 3)
    × (3 ≤ 8 / 2)
    × ((i : ℕ)
        → i < 3
        → bench.engine
            (run_dma_loopback bench loop_options idle).1.trace
            (prepared bench loop_options 8)
            (8 / 2 + i)
          ≡ i % 256)
run_dma_loopback_lem_example =
    run_dma_loopback_lem bench loop_options 8 32 idle opened copied-keeps succeeded_once

-- The whole tool, which asks for more bytes than a half of the buffer has by default.
dma_test_test : (dma_test_main bench (text "--bytes=4" ∷ []) idle).0 ≡ 0
unfolding program dma_test_main run_test scan_args match_rules match_rule value_of set_bytes
dma_test_test = refl

abbrev surroundings : Surroundings
surroundings = record {
  exists = λ p. true;
  dev_mem = record { opens = true; maps = λ p. true };
  bench = bench;
}

abbrev nothing_done : Effects
nothing_done = record {
  world = record {
    answers = λ k. true;
    calls = 0;
    trace = [];
    readable = λ p. true;
    clock = λ k. pos 0;
  };
  regs = idle;
}

abbrev arguments : List Text
arguments = text "--run-loopback" ∷ text "--repeat=2" ∷ []

arguments-mock : All (λ arg. text_eq arg (text "--fpga-real") ≡ false) arguments
unfolding program
arguments-mock = (refl, (refl, tt))

probe_main-refuses_example :
    (((probe_main surroundings arguments nothing_done).0 ≡ 1)
      ⊎ (((probe_main surroundings arguments nothing_done).0 ≡ 0)
          × ((arg : Text) × Memᴰ arg arguments × (is_help arg ≡ true))))
    × ((probe_main surroundings arguments nothing_done).1 ≡ nothing_done)
probe_main-refuses_example = probe_main-refuses surroundings arguments nothing_done arguments-mock

-- A load that misc_register refuses, one that it lets through, and a read of the first register.
abbrev refused : Session
refused = insert 65_536 true (negsuc 15) untouched

abbrev loaded : Session
loaded = insert 65_536 true (pos 0) refused

abbrev read_once : Session
read_once = record loaded {
  module_state = (axi_dma_transfer false 0 4 (pos 0) loaded.module_state).state;
}

read_once-Reach : Reach untouched read_once
unfolding insert axi_dma_map_init
read_once-Reach =
    next
      (next (next here (inserts 65_536 true (negsuc 15) refl refl))
        (inserts 65_536 true (pos 0) refl refl))
      (transfers false 0 4 (pos 0) refl (omega arith) (omega arith) refl)

Reach-confined_example :
    All IsInside read_once.module_state.touches
    × (read_once.module_state.loaded ≡ true → read_once.module_state.dma_regs ≡ true)
    × (read_once.module_state.mappings ≡ read_once.failed + as_number read_once.module_state.loaded)
Reach-confined_example = Reach-confined read_once read_once-Reach

-- The mapping of the load that was refused is still there when the module has been removed.
leak_test : (axi_dma_map_exit read_once.module_state).mappings ≡ 1
unfolding insert axi_dma_map_init axi_dma_transfer axi_dma_map_exit
leak_test = refl

-- With a timeout of 2^30 milliseconds no status decides: the first would be idle.
overflow_test : (wait_channel 4 (2 ^ 30) idle).0 ≡ false
unfolding program
overflow_test = refl
