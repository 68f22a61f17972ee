-- ===== src/Acquisition.antt =====
-- internal/acquisition and what its readings go to.
pub mod Types
pub mod Validation
pub mod BlockPlan
pub mod Diagnostics
pub mod Poller
pub mod Manager
pub mod Tables
pub mod Pipeline
