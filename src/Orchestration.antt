-- ===== src/Orchestration.antt =====
-- orchestration/: the execution graph, and the service that runs it.
pub mod Graph
pub mod State
pub mod Service
