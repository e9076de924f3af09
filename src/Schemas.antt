-- ===== src/Schemas.antt =====
-- schemas/: documents.py, case.py and decisions.py, and rules/ids.py, whose identifiers the flags
-- carry.
pub mod Ids
pub mod Documents
pub mod Case
pub mod Decisions
pub mod Fields
