-- ===== src/Tstat.antt =====
-- The thermostat: its model, the JSON in and out of it, and the control logic.
pub mod Model
pub mod Logic
pub mod Load
pub mod Dump
