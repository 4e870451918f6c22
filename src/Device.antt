-- ===== src/Device.antt =====
-- The accelerators of src/accelerators.cpp.
pub mod World
pub mod Context
pub mod Slot
pub mod Gpio
pub mod Load
pub mod Decouple
pub mod Guarded
pub mod Loaded
pub mod Fleet
pub mod Mocked
