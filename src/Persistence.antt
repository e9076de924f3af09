-- ===== src/Persistence.antt =====
-- persistence/: storage in PostgreSQL.
pub mod Db
