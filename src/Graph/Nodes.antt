-- ===== src/Graph/Nodes.antt =====
-- graph/nodes.py. The nodes stand in the order of a case's way through the graph.
pub mod Base
pub mod Intake
pub mod Extract
pub mod Validate
pub mod Score
pub mod Decide
pub mod Lookup
pub mod Quiet
