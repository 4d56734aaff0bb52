-- ===== src/Runs/Jobs/Ownership.antt =====
-- runs/repository.py: two claims of one job by claim_workflow_job.
use autonomous_enterprise_ai.Base.{
  String, ◌≡◌, inl, inr, true, none, some, arith, Option-cases, return, eq_iff,
}
use autonomous_enterprise_ai.Base.Dict.{lookup, lookup-insert}
use autonomous_enterprise_ai.Platform.{Platform}
use autonomous_enterprise_ai.Runs.JobStatus
use autonomous_enterprise_ai.Runs.Models.{WorkflowJobRecord}
use autonomous_enterprise_ai.Runs.Repository.{Repository}
use autonomous_enterprise_ai.Runs.Jobs.Records.{owned_by, claimed}
use autonomous_enterprise_ai.Runs.Jobs.Queue.{
  claim, claim_found, recover_if_stale, claim_workflow_job,
}

-- After a claim_workflow_job without a recovery timeout that returned a job, that job is stored as
-- running and belongs to the claimer, and another claim_workflow_job of the same identifier without
-- a recovery timeout, by any worker and in the state that the first claim left, returns nothing and
-- changes nothing.
pub claim_exclusive :
    (platform : Platform) (job_id worker_id other : String) (r s : Repository)
    (job : WorkflowJobRecord)
    → claim_workflow_job platform job_id worker_id none r ≡ (return (some job), s)
    → (claim_workflow_job platform job_id other none s ≡ (return none, s))
      × (lookup job_id s.workflow_jobs ≡ some job)
      × (owned_by job.worker_id worker_id ≡ true)
      × (JobStatus.is_running job.status ≡ true)
unfolding claim_workflow_job recover_if_stale claim_found claim claimed
claim_exclusive platform job_id worker_id other r s job h =
    elim (Option-cases (lookup job_id r.workflow_jobs)) [
      | inl e ↦ ground arith
      | inr (old, e) ↦ ground (
        arith,
        lookup-insert job_id job_id (claimed old worker_id r.clock) r.workflow_jobs,
        eq_iff job_id job_id,
        eq_iff worker_id worker_id,
      )
    ]
