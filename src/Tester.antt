-- ===== src/Tester.antt =====
-- The tool apps/fpga_pr_tester.cpp, which loads overlays into slots without a scheduler.
pub mod Parsing
pub mod Arguments
pub mod Overlays
pub mod Loads
pub mod Diagnostics
pub mod Checks
pub mod Signal
