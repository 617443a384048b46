-- ===== src/Environment.antt =====
-- The environment check of the JFrog skills.
-- (dot_agents/skills/jfrog/scripts/check-environment.mjs)
pub mod Versions
pub mod Host
pub mod UserAgent
pub mod Check
