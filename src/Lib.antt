-- ===== src/Lib.antt =====
-- The task scheduler of ECE506Scheduler: applications submit tasks, a pool of worker threads takes
-- them from a priority queue once their dependencies have succeeded, and each runs on a mock CPU or on
-- a partially reconfigurable FPGA slot, into which a bitstream is loaded first.
--
-- The parts and the files that model them:
-- - Task: include/schedrt/task.hpp and the structs of include/schedrt/accelerator.hpp.
-- - ReadyQueue: TaskCompare (include/schedrt/scheduler.hpp) and the class ReadyQueue
--   (src/scheduler.cpp). The heap is the list of its elements; pop_blocking answers that it waits, that
--   the queue is stopped, or a task. ReadyQueue/Order and ReadyQueue/Pop are about the order.
-- - Registry: include/schedrt/application_registry.hpp.
-- - Scheduler: src/scheduler.cpp. Deps is DependencyManager, Impl the state and the methods,
--   Threads start, stop and the bodies of dep_loop and worker_loop. Accelerators is the interface of
--   the class Accelerator, as a record of operations with the laws that the scheduler relies on. Steps
--   is the system of threads as a step relation: submit, a pass of the watcher, a worker's pop, the
--   rest of a worker's round, start, stop and the registrations, in every order. A worker's round
--   after its pop is one step there; Interleaved has smaller steps, between which the other threads may
--   run: a test of dependencies, a push, a change of the waiting list, a run, a report and a mark are one
--   each. record_ready with its preload, select_accelerator with its loads, start, stop, and the test of
--   running_ with the pop are still one step each, though they take several locks in the source. Ledger is what the scheduler promises,
--   without threads. Loop is the rounds of one worker; it takes as fuel a number of rounds, of which as
--   many as there are tasks in the queue are enough. Liveness is the watcher and a worker in turn, as
--   many turns as the dependencies have ranks. Staffed is about an accelerator that is always there. Traffic is about the demand counts alone. The
--   other files hold proofs.
-- - Device: src/accelerators.cpp. World is the operating system: its answers are an unknown function
--   of the number of the call, and every call is kept in a trace. Slot, Gpio and Load are
--   FpgaSlotAccelerator, Context is context_from_task, Fleet makes both accelerator classes an
--   instance of the interface, and Mocked is about those that the runner makes without --fpga-real.
-- - Hardware: the FFT core in src/accelerators.cpp: Regs and Dma are AxiDmaController, with a SIGBUS
--   under a SigbusScope as an outcome, Udmabuf is UdmabufRegion, FftRunner is FftHwRunner and the checks
--   of run_fft_operation, Zip is run_zip_operation over a zlib that is a parameter. Attempt is the FFT of
--   a slot on the hardware and then on the processor, Sigbus the signal handlers and SigbusScope, and
--   Guards SigbusGuard of apps/fpga_pr_tester.cpp and apps/fpga_static_probe.cpp.
-- - Dash: src/dash/*.cpp: the map of promises, the providers, and fft_execute and zip_execute, which
--   share one model. A future is the number of the state that it shares with its promise. Answered is
--   an operation with the scheduler behind it, Pending tasks whose futures a program holds.
-- - Runner: apps/sched_runner.cpp: its options (Options, Numbers), the set-up of the registry, the slots
--   and the providers (Wiring), and main with the flag of src/reporting.cpp (Main). The shared object
--   that dlopen loads is a parameter.
-- - Tester: apps/fpga_pr_tester.cpp: its options, load_overlays, the FFT diagnostics with their samples
--   (Signal), and main.
-- - Apps: app_initialize of apps/SAR/SAR.cpp and apps/radar_correlator.cpp (Setup), their input files
--   (Inputs), the tasks and app_run of the latter (Radar, Correlator), and apps/demo_dash.cpp (Demo).
--   What the scheduler's threads do while an application blocks on a future is a parameter there, which
--   the proofs put the rounds of a worker for.
-- - Sar: app_run of apps/SAR/SAR.cpp: the loop over the rows of its image, and the files around it.
-- - Loopback: the DMA loopback that apps/axi_dma_test.cpp and apps/fpga_static_probe.cpp share
--   (Transfer), the loops over their arguments (Rules) and the first tool's main (DmaTest).
-- - StaticProbe: the options, the MMIO probes and main (Main) of apps/fpga_static_probe.cpp.
-- - Kernel: the kernel module axi_dma_map/axi_dma_map.c and how the kernel calls it.
-- - Base: helpers over the native natural numbers: lists, integers, texts as lists of bytes, maps as
--   association lists.
-- - Examples: tests, and the theorems at concrete inputs.
--
-- How they interact: the scheduler calls its accelerators through the interface and reports to the
-- map of promises, whose futures the operations of Dash wait on; an operation's context travels in the
-- task as the decimal digits of its address, which the accelerator reads back.
--
-- Bounds: size_t, task ids and counters are 64-bit and wrap, in Hardware too, the runner's unsigned numbers are 32-bit and
-- wrap. The `int` of a demand count is an unbounded integer, since the queue would need 2^31 tasks
-- to overflow it; the threshold's conversion to `int` is written out. The loop that waits for a
-- GPIO directory has the source's 50 rounds, and those of the DMA's resets and waits 1000 and
-- 4000; the loopback's waits have the number of polls that the source computes from its timeout.
-- Decimal digits use the number plus one as fuel, and a number has at most as many digits.
--
-- Not modelled: log, usage and report texts, the samples of an FFT and its sums (the operations are a
-- parameter of Fleet; Attempt has their answers), the arithmetic on floats of the applications, the
-- register dumps for debugging, the allocation of the contexts whose addresses travel in the tasks, the
-- destructors that unmap and close, the glue that the kernel build writes, and the libraries under
-- third_party/. A task parameter that is no number, at which std::stoull throws in a worker and the
-- process ends, is outside the model of the accelerators.
pub mod Base
pub mod Task
pub mod ReadyQueue
pub mod Registry
pub mod Scheduler
pub mod Device
pub mod Runner
pub mod Dash
pub mod Examples
pub mod Hardware
pub mod Tester
pub mod Loopback
pub mod StaticProbe
pub mod Kernel
pub mod Sar
pub mod Apps
