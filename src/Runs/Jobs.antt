-- ===== src/Runs/Jobs.antt =====
-- runs/repository.py: the workflow jobs of the repository, from the queue to their result.
pub mod Records
pub mod Queue
pub mod Outcomes
pub mod Recovery
pub mod Invariant
pub mod Ownership
pub mod Order
pub mod Retries
pub mod Timeouts
