-- ===== src/StaticProbe.antt =====
-- The tool apps/fpga_static_probe.cpp, which loads the static shell and looks at the registers that it
-- brings.
pub mod Options
pub mod MmioProbes
pub mod Main
pub mod Refusal
pub mod Reading
