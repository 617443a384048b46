-- ===== src/Findings.antt =====
-- The validator of findings.
-- (dot_agents/skills/security-audit/validate-findings.cjs)
pub mod Values
pub mod Schema
pub mod Keywords
pub mod Validate
pub mod Semantic
pub mod Verdict
pub mod DataLimits
pub mod TextLimits
pub mod Document
