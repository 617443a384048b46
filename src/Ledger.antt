-- ===== src/Ledger.antt =====
-- dot_agents/skills/security-audit/validate-coverage-ledger.cjs
pub mod Values
pub mod StringArray
pub mod Arrays
pub mod Evidence
pub mod State
pub mod Attempts
pub mod Blocks
pub mod Unit
pub mod Preflight
pub mod Document
pub mod Scan
pub mod Run
pub mod CoverageId
