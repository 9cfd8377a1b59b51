-- ===== src/Tests.antt =====
-- Runs of the model at concrete inputs.
pub mod Stacks
pub mod Updates
pub mod Incidents
pub mod Networks
pub mod Snapshots
pub mod Addresses
pub mod Failovers
pub mod Detectors
pub mod Releases
