-- ===== src/Runner.antt =====
-- The program sched_runner, apps/sched_runner.cpp.
pub mod Numbers
pub mod Options
pub mod Wiring
pub mod Fallback
pub mod Main
