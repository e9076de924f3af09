-- ===== src/Tools.antt =====
-- tools/ of the agent: the mock registries.
pub mod Registries
