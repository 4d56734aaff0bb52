-- ===== src/Runs.antt =====
-- runs/: the records of a run, the repository that keeps them, and its workflow jobs.
pub mod JobStatus
pub mod Models
pub mod Errors
pub mod Repository
pub mod Jobs
pub mod Artifacts
pub mod History
pub mod Checkpoints
