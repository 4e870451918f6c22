-- ===== src/Scheduler/Liveness.antt =====
-- That tasks come to be complete in src/scheduler.cpp, where accelerators succeed.
pub mod Body
pub mod Queue
pub mod Pass
pub mod Turns
pub mod Orderly
pub mod Served
