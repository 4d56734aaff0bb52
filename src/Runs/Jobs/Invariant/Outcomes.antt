-- ===== src/Runs/Jobs/Invariant/Outcomes.antt =====
-- runs/repository.py: the methods that finish or revive one job keep the invariant of the jobs,
-- also where they raise.
use autonomous_enterprise_ai.Base.{
  ◌+◌, max, String, inl, inr, Option, none, some, arith, Option-cases,
}
use autonomous_enterprise_ai.Base.Dict.{lookup, insert}
use autonomous_enterprise_ai.Json.{Fields, get}
use autonomous_enterprise_ai.Platform.{Platform}
use autonomous_enterprise_ai.Redaction.{redact_optional}
use autonomous_enterprise_ai.Runs.JobStatus.{WorkflowJobStatus}
use autonomous_enterprise_ai.Runs.Models.{RunStatus, WorkflowJobRecord}
use autonomous_enterprise_ai.Runs.Repository.{Repository}
use autonomous_enterprise_ai.Runs.Jobs.Outcomes.{
  heartbeat_workflow_job, complete_workflow_job, update_workflow_job_result,
  retry_dead_letter_workflow_job, dismiss_dead_letter_workflow_job, int_of, retried_payload,
  dismissed_payload, redacted_or,
}
use autonomous_enterprise_ai.Runs.Jobs.Invariant.{
  IsValidJob, IsConsistent, IsValid, insert-IsConsistent, set_run-IsConsistent,
}

module _ (platform : Platform) (job_id : String) (r : Repository) (c : IsValid r) where
  insert_valid :
      (job : WorkflowJobRecord)
      → IsValidJob r.runs job_id job
      → IsConsistent r.runs (insert job_id job r.workflow_jobs) r.workflow_job_order
  insert_valid job = insert-IsConsistent r.runs r.workflow_jobs r.workflow_job_order job_id job c

  pub heartbeat-IsValid :
      (worker_id : String) → IsValid (heartbeat_workflow_job platform job_id worker_id r).1
  unfolding heartbeat_workflow_job
  heartbeat-IsValid worker_id = elim (Option-cases (lookup job_id r.workflow_jobs)) [
    | inl e ↦ ground arith
    | inr (job, e) ↦ ground (
      arith,
      c.valid job_id job e,
      insert_valid (record job { heartbeat_at = some r.clock; updated_at = r.clock }),
    )
  ]

  pub complete-IsValid :
      (worker_id : Option String) → IsValid (complete_workflow_job platform job_id worker_id r).1
  unfolding complete_workflow_job
  complete-IsValid worker_id = elim (Option-cases (lookup job_id r.workflow_jobs)) [
    | inl e ↦ ground arith
    | inr (job, e) ↦ ground (
      arith,
      c.valid job_id job e,
      insert_valid (record job {
        status = WorkflowJobStatus.completed;
        updated_at = r.clock;
        finished_at = some r.clock;
      }),
    )
  ]

  pub update_result-IsValid :
      (status : WorkflowJobStatus) (payload : Option Fields) (error_summary : Option String)
      → IsValid (update_workflow_job_result platform job_id status payload error_summary r).1
  unfolding update_workflow_job_result
  update_result-IsValid status payload error_summary =
      elim (Option-cases (lookup job_id r.workflow_jobs)) [
        | inl e ↦ ground arith
        | inr (job, e) ↦ elim (Option-cases (redacted_or platform payload job.payload)) [
          | inl f ↦ ground arith
          | inr (clean, f) ↦ elim (Option-cases (redact_optional platform error_summary)) [
            | inl g ↦ ground arith
            | inr (shown, g) ↦ ground (
              arith,
              c.valid job_id job e,
              insert_valid (record job {
                status = status;
                payload = clean;
                error_summary = shown;
                updated_at = r.clock;
                finished_at = some r.clock;
              }),
            )
          ]
        ]
      ]

  pub dismiss-IsValid :
      (reason : Option String)
      → IsValid (dismiss_dead_letter_workflow_job platform job_id reason r).1
  unfolding dismiss_dead_letter_workflow_job
  dismiss-IsValid reason = elim (Option-cases (lookup job_id r.workflow_jobs)) [
    | inl e ↦ ground arith
    | inr (job, e) ↦ elim (Option-cases (dismissed_payload platform job.payload r.clock reason)) [
      | inl f ↦ ground arith
      | inr (payload, f) ↦ ground (
        arith,
        c.valid job_id job e,
        insert_valid (record job {
          status = WorkflowJobStatus.dismissed;
          payload = payload;
          worker_id = none;
          heartbeat_at = none;
          finished_at = some r.clock;
          updated_at = r.clock;
        }),
      )
    ]
  ]

  -- What `retry_dead_letter_workflow_job` writes.
  abbrev retried : WorkflowJobRecord → Fields → WorkflowJobRecord
  retried job payload = record job {
    status = WorkflowJobStatus.queued;
    payload = payload;
    max_attempts = max job.max_attempts (job.attempt_count + 1);
    worker_id = none;
    error_summary = none;
    heartbeat_at = none;
    finished_at = none;
    updated_at = r.clock;
  }

  pub retry_dead_letter-IsValid :
      (reason : Option String) → IsValid (retry_dead_letter_workflow_job platform job_id reason r).1
  unfolding retry_dead_letter_workflow_job
  retry_dead_letter-IsValid reason = elim (Option-cases (lookup job_id r.workflow_jobs)) [
    | inl e ↦ ground arith
    | inr (job, e) ↦ elim (Option-cases (int_of platform (get "manual_retry_count" job.payload))) [
      | inl f ↦ ground arith
      | inr (count, f) ↦
          elim (Option-cases (retried_payload platform job.payload count r.clock reason)) [
            | inl p ↦ ground arith
            | inr (payload, p) ↦
                let kept = insert_valid (retried job payload) in
                elim (Option-cases (lookup job.run_id r.runs)) [
                  | inl g ↦ ground (arith, c.valid job_id job e, kept)
                  | inr (run, g) ↦ ground (
                    arith,
                    c.valid job_id job e,
                    kept,
                    set_run-IsConsistent r.runs
                        (insert job_id (retried job payload) r.workflow_jobs) r.workflow_job_order
                        job.run_id
                        (record run {
                          status = RunStatus.pending;
                          error_summary = none;
                          updated_at = r.clock;
                        }),
                  )
                ]
          ]
    ]
  ]
