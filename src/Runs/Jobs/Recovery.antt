-- ===== src/Runs/Jobs/Recovery.antt =====
-- runs/repository.py: the record of a failure, fail_workflow_job and
-- recover_timed_out_workflow_jobs.
use Prim.Native.String.{◌++◌ as str_append}
use mathlib.Core.List.{◌++◌}
use autonomous_enterprise_ai.Base.{
  ℕ, ◌+◌, ◌*◌, String, Bool, true, false, not, ◌&&◌, Option, none, some, List, [], ◌∷◌, ltb, Result,
  return, raise, and_then, pure, raise_if, ◌>>=◌, ◌>>◌, if◌then◌else◌,
}
use autonomous_enterprise_ai.Json.{
  Fields, Value, Items, num, str, arr, obj, nil, item, end, field, get, put, push, or_null,
}
use autonomous_enterprise_ai.Platform.{Platform}
use autonomous_enterprise_ai.Redaction.{redact_text}
use autonomous_enterprise_ai.Runs.Errors.{Error, value_error, type_error}
use autonomous_enterprise_ai.Runs.JobStatus
use autonomous_enterprise_ai.Runs.JobStatus.{WorkflowJobStatus}
use autonomous_enterprise_ai.Runs.Models.{RunStatus, WorkflowJobRecord}
use autonomous_enterprise_ai.Runs.Repository.{Repo, or_value_error, get_run, set_run, utc_now}
use autonomous_enterprise_ai.Runs.Jobs.Records.{
  get_workflow_job_for_update, job_at, set_job, read_order, normalized_name, name_fits, text_or,
  time_or, ensure_owner_if_given,
}

keys : Fields → Items
keys end = nil
keys (field k v fs) = item (str k) (keys fs)

characters : String → Items
characters String.[] = nil
characters (String.◌∷◌ c s) = item (str (String.◌∷◌ c String.[])) (characters s)

-- `list(updated.get("failure_history", []))`; `none` is the TypeError.
unfoldable pub history_items : Option Value → Option Items
unfolding keys characters
history_items none = some nil
history_items (some (arr xs)) = some xs
history_items (some (obj fs)) = some (keys fs)
history_items (some (str s)) = some (characters s)
history_items (some _) = none

-- The two writes at the end of `_append_workflow_failure`.
unfoldable pub with_failure : Fields → Value → Items → Fields
with_failure payload entry history =
    put "last_failure" entry (put "failure_history" (arr (push history entry)) payload)

-- A job that failed goes back to the queue while it has attempts left.
abbrev pub status_after_failure : Bool → WorkflowJobStatus
status_after_failure true = WorkflowJobStatus.queued
status_after_failure false = WorkflowJobStatus.dead_letter

module _ (platform : Platform) where
  unfoldable pub failure_entry :
      (attempt_count : ℕ)
      → WorkflowJobStatus
      → (error_summary : String) → ℕ
      → Option String
      → (reason : String) → Value
  failure_entry attempt_count status error_summary recorded_at worker_id reason = obj (
      field "attempt_count" (num attempt_count) (
        field "status" (str (JobStatus.value status)) (
          field "error_summary" (str error_summary) (
            field "recorded_at" (str (platform.isoformat recorded_at))
              (field "worker_id" (or_null worker_id) (field "reason" (str reason) end))))))

  -- _append_workflow_failure
  unfoldable pub append_workflow_failure :
      Fields
      → (attempt_count : ℕ) → WorkflowJobStatus
      → (error_summary : String) → ℕ
      → Option String
      → (reason : String) → Result Error Fields
  append_workflow_failure payload attempt_count status error_summary recorded_at worker_id reason =
      elim (history_items (get "failure_history" payload)) [
        | none ↦ raise (type_error "failure_history")
        | some history ↦ elim (redact_text platform error_summary) [
          | none ↦ raise (value_error "port")
          | some text ↦
              let entry = failure_entry attempt_count status text recorded_at worker_id reason in
              return (with_failure payload entry history)
        ]
      ]

  -- The `replace` that both ways to fail share.
  unfoldable pub failed_job :
      WorkflowJobRecord
      → (should_retry : Bool) → Fields
      → (error_summary : String) → ℕ
      → WorkflowJobRecord
  failed_job job should_retry payload error_summary now = record job {
    status = status_after_failure should_retry;
    payload = payload;
    worker_id = if should_retry then none else job.worker_id;
    error_summary = some error_summary;
    updated_at = now;
    heartbeat_at = if should_retry then none else job.heartbeat_at;
    finished_at = if should_retry then none else some now;
  }

  unfoldable pub written_payload :
      WorkflowJobRecord
      → (should_retry : Bool) → (error_summary : String) → ℕ
      → Option String
      → (reason : String) → Result Error Fields
  written_payload job should_retry error_summary now worker_id reason =
      elim (redact_text platform error_summary) [
        | none ↦ raise (value_error "port")
        | some text ↦
            append_workflow_failure job.payload job.attempt_count
              (status_after_failure should_retry) text now worker_id reason
      ]

  -- The run of a dead-lettered job fails.
  unfoldable pub fail_run : WorkflowJobRecord → (error_summary : String) → ℕ → Repo (Unit {0})
  fail_run job error_summary now = if not (JobStatus.is_dead_letter job.status) then pure tt else do
    run ← get_run job.run_id
    text ← or_value_error (redact_text platform error_summary)
    set_run job.run_id
        (record run { status = RunStatus.failed; error_summary = some text; updated_at = now })

  -- From the payload to the run: what fail_workflow_job and recover_timed_out_workflow_jobs do
  -- with a job that failed.
  unfoldable pub write_failure :
      (job_id : String)
      → WorkflowJobRecord
      → (should_retry : Bool) → (error_summary : String) → ℕ
      → Option String
      → (reason : String) → Repo WorkflowJobRecord
  write_failure job_id job should_retry error_summary now worker_id reason =
      and_then (written_payload job should_retry error_summary now worker_id reason) (λ payload. do
        let failed = failed_job job should_retry payload error_summary now
        set_job job_id failed
        fail_run failed error_summary now
        pure failed)

  unfoldable pub fail_workflow_job :
      (job_id error_summary : String) (retry : Bool) → Option String → Repo WorkflowJobRecord
  fail_workflow_job job_id error_summary retry worker_id = do
    job ← get_workflow_job_for_update job_id
    ensure_owner_if_given job worker_id
    now ← utc_now platform
    let should_retry = retry && ltb job.attempt_count job.max_attempts
    let owner = text_or worker_id job.worker_id
    write_failure job_id job should_retry error_summary now owner "worker_failure"

  -- `heartbeat_at > cutoff` fails, for the cutoff `reference_time - timeout`: the heartbeat is at
  -- least the timeout old. The sum stands on the other side, where it cannot go below 0.
  unfoldable pub is_stale : (timeout_seconds reference_time : ℕ) → WorkflowJobRecord → Bool
  is_stale timeout_seconds reference_time job =
      not (ltb reference_time (time_or job.heartbeat_at job.updated_at + timeout_seconds * 1000000))

  unfoldable pub is_timed_out :
      (timeout_seconds reference_time : ℕ) → Option String → WorkflowJobRecord → Bool
  unfolding is_stale
  is_timed_out timeout_seconds reference_time name job =
      JobStatus.is_running job.status
      && name_fits name job
      && is_stale timeout_seconds reference_time job

  unfoldable pub timeout_summary : ℕ → String
  timeout_summary seconds =
      str_append "Workflow job heartbeat timed out after "
        (str_append (platform.show seconds) " seconds.")

  unfoldable pub recover :
      (timeout_seconds reference_time : ℕ) → String → WorkflowJobRecord → Repo WorkflowJobRecord
  recover timeout_seconds reference_time job_id job =
      write_failure job_id job (ltb job.attempt_count job.max_attempts)
        (timeout_summary timeout_seconds) reference_time job.worker_id "heartbeat_timeout"

  -- One round of the loop over the order: the job, if it was recovered.
  unfoldable pub recover_if_timed_out :
      (timeout_seconds reference_time : ℕ) → Option String → String → Repo (List WorkflowJobRecord)
  recover_if_timed_out timeout_seconds reference_time name job_id = do
    job ← job_at job_id
    if is_timed_out timeout_seconds reference_time name job
        then (do
          recovered ← recover timeout_seconds reference_time job_id job
          pure (recovered ∷ []))
        else pure []

  -- The loop over the order: the jobs that it recovered.
  unfoldable pub recover_each :
      (timeout_seconds reference_time : ℕ)
      → Option String
      → List String
      → Repo (List WorkflowJobRecord)
  recover_each timeout_seconds reference_time name [] = pure []
  recover_each timeout_seconds reference_time name (job_id ∷ order) = do
    first ← recover_if_timed_out timeout_seconds reference_time name job_id
    rest ← recover_each timeout_seconds reference_time name order
    pure (first ++ rest)

  unfoldable pub now_or_clock : Option ℕ → Repo ℕ
  now_or_clock none = utc_now platform
  now_or_clock (some now) = pure now

  unfoldable pub recover_timed_out_workflow_jobs :
      (timeout_seconds : ℕ) → Option String → (now : Option ℕ) → Repo (List WorkflowJobRecord)
  unfolding now_or_clock
  recover_timed_out_workflow_jobs timeout_seconds workflow_name now = do
    raise_if (ltb timeout_seconds 1) (value_error "timeout_seconds")
    reference_time ← now_or_clock now
    order ← read_order
    recover_each timeout_seconds reference_time (normalized_name workflow_name) order
