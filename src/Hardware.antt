-- ===== src/Hardware.antt =====
-- The FFT core behind an AXI DMA, src/accelerators.cpp: its registers, the buffer that it shares with
-- the processor, and the functions that run an operation on it or on the processor.
pub mod Regs
pub mod Dma
pub mod Programs
pub mod Udmabuf
pub mod FftRunner
pub mod Bounds
pub mod Zip
pub mod Attempt
pub mod Sigbus
pub mod Scopes
pub mod Guards
