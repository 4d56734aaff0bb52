-- ===== src/Deployments.antt =====
-- deployments/: the approval of a deployment.
pub mod Approvals
pub mod Policy
