-- ===== src/Workflows.antt =====
-- workflows/: the queues of workflow jobs.
pub mod Queue
pub mod Worker
