-- ===== src/Sar.antt =====
-- The application apps/SAR/SAR.cpp, which sends the rows of a radar image through the FFT of Dash.
pub mod Image
pub mod Rows
pub mod Run
pub mod Written
