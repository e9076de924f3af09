-- ===== src/Graph.antt =====
-- graph/: the state of a case, the nodes that work on it and the graph that connects them.
pub mod State
pub mod Context
pub mod Confidence
pub mod Screening
pub mod Nodes
pub mod Builder
pub mod Assembly
pub mod Trail
