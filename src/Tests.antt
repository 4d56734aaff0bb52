-- ===== src/Tests.antt =====
-- Small inputs on which the models run, and the theorems at such inputs.
mod Samples
mod Redaction
mod Policy
mod Deployments
mod Runs
mod Jobs
mod Graph
mod Workflows
mod Orchestration
