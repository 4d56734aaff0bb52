-- ===== src/Deployments/Approvals/Refusals.antt =====
-- deployments/approvals.py: the decisions that are refused.
use autonomous_enterprise_ai.Base.{
  ◌≡◌, refl, inl, inr, String, Bool, false, not, ◌&&◌, Option, some, raise, Bool-cases, ◌==◌,
}
use autonomous_enterprise_ai.Base.Dict.{lookup}
use autonomous_enterprise_ai.Json.{get}
use autonomous_enterprise_ai.Platform.{Platform}
use autonomous_enterprise_ai.Runs.Errors.{deployment_approval_error}
use autonomous_enterprise_ai.Runs.JobStatus
use autonomous_enterprise_ai.Runs.Models.{RunRecord, WorkflowJobRecord}
use autonomous_enterprise_ai.Runs.Repository.{Repository}
use autonomous_enterprise_ai.Runs.Jobs.Queue.{get_workflow_job}
use autonomous_enterprise_ai.Deployments.Approvals.{
  is_other_request, assert_deployment_job, decide_deployment_approval,
}

-- The job asks for a deployment of the run and waits for the decision.
abbrev pub is_open_request : String → WorkflowJobRecord → Bool
is_open_request run_id job =
    job.run_id == run_id
    && job.workflow_name == "deployment"
    && not (is_other_request (get "request_type" job.payload))
    && JobStatus.is_waiting job.status

-- A decision on a job that is no deployment request of the run, or that does not wait for a
-- decision (as after it was decided), raises a deployment error, and the repository stays as it
-- is.
pub decision_refused :
    (platform : Platform) (r : Repository) (run_id job_id : String) {run : RunRecord}
    {job : WorkflowJobRecord}
    → lookup run_id r.runs ≡ some run
    → lookup job_id r.workflow_jobs ≡ some job
    → is_open_request run_id job ≡ false
    → (approved : Bool) (approver : String) (rationale : Option String)
    → (message : String) × (decide_deployment_approval platform run_id job_id approved approver
          rationale r
        ≡ (raise (deployment_approval_error message), r))
unfolding decide_deployment_approval assert_deployment_job get_workflow_job
decision_refused platform r run_id job_id {run} {job} a b h approved approver rationale =
    elim (Bool-cases (job.run_id == run_id)) [
      | inr f ↦ ("not found for run", rw (a, b, f) refl)
      | inl t ↦ elim (Bool-cases (job.workflow_name == "deployment")) [
        | inr f ↦ ("not a deployment", rw (a, b, t, f) refl)
        | inl u ↦ elim (Bool-cases (is_other_request (get "request_type" job.payload))) [
          | inl o ↦ ("no approval payload", rw (a, b, t, u, o) refl)
          | inr o ↦
              let waits : JobStatus.is_waiting job.status ≡ false = rw (t, u, o) at h in
              ("not waiting", rw (a, b, t, u, o, waits) refl)
        ]
      ]
    ]
