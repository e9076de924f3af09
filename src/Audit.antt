-- ===== src/Audit.antt =====
-- audit/: the audit trail.
pub mod Sink
