-- ===== src/Tests.antt =====
-- Runs of the model, and each result at one input.
pub mod Data
pub mod Samples
pub mod Runs
pub mod SampleRuns
mod Witnesses
mod Checks
mod SetupChecks
mod TextChecks
