-- ===== src/Llm.antt =====
-- llm/: the step services that the nodes depend on, and the retries around them.
pub mod Base
pub mod Resilience
pub mod Live
pub mod Fake
pub mod Contract
pub mod Factory
