-- ===== src/Rules.antt =====
-- rules/: the deterministic business rules.
pub mod Validation
pub mod Risk
