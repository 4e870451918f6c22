-- ===== src/Kernel.antt =====
-- The kernel module axi_dma_map/axi_dma_map.c, which shows the DMA's registers as a character device.
pub mod Window
pub mod Confined
