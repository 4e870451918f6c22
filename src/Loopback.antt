-- ===== src/Loopback.antt =====
-- The DMA loopback that apps/axi_dma_test.cpp and apps/fpga_static_probe.cpp run: bytes are sent out
-- of one half of the shared buffer and are expected back in the other.
pub mod Transfer
pub mod Waiting
pub mod Copied
pub mod Rules
pub mod DmaTest
