-- ===== src/Apps.antt =====
-- What the applications under apps/ do with the scheduler: app_initialize of apps/SAR/SAR.cpp and
-- apps/radar_correlator.cpp, and the correlator.
pub mod Setup
pub mod Radar
pub mod Served
pub mod Inputs
pub mod Correlator
pub mod Peak
pub mod Correlated
pub mod Demo
