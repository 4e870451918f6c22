-- ===== src/Scheduler.antt =====
-- The scheduler's parts: include/schedrt/scheduler.hpp and src/scheduler.cpp, less the ready queue.
pub mod Deps
pub mod Accelerators
pub mod Impl
pub mod Threads
pub mod Frame
pub mod Select
pub mod Passes
pub mod Rounds
pub mod Steps
pub mod Safety
pub mod Guarantees
pub mod Stopping
pub mod Counts
pub mod Traffic
pub mod Ledger
pub mod Loop
pub mod Staffed
pub mod Liveness
pub mod Interleaved
