-- ===== src/Runs/Jobs/Outcomes.antt =====
-- runs/repository.py: heartbeat, complete, update_workflow_job_result, and the manual handling of
-- dead letters.
use mathlib.Core.Option
use autonomous_enterprise_ai.Base.{
  ℕ, ◌+◌, max, String, true, false, not, Option, none, some, pure, raise_if, ◌>>=◌, ◌>>◌,
  if◌then◌else◌,
}
use autonomous_enterprise_ai.Base.Text.{is_blank}
use autonomous_enterprise_ai.Json.{Fields, Value, bool, num, str, get, put}
use autonomous_enterprise_ai.Platform.{Platform}
use autonomous_enterprise_ai.Redaction.{redact_fields, redact_text, redact_optional}
use autonomous_enterprise_ai.Runs.Errors.{value_error, workflow_job_state}
use autonomous_enterprise_ai.Runs.JobStatus
use autonomous_enterprise_ai.Runs.JobStatus.{WorkflowJobStatus}
use autonomous_enterprise_ai.Runs.Models.{RunStatus, WorkflowJobRecord}
use autonomous_enterprise_ai.Runs.Repository.{
  Repo, found_or_raise, or_value_error, get_run, set_run, utc_now,
}
use autonomous_enterprise_ai.Runs.Jobs.Records.{
  get_workflow_job_for_update, set_job, ensure_job_owned_by_worker, ensure_owner_if_given,
}

module _ (platform : Platform) where
  unfoldable pub heartbeat_workflow_job : (job_id worker_id : String) → Repo WorkflowJobRecord
  heartbeat_workflow_job job_id worker_id = do
    job ← get_workflow_job_for_update job_id
    ensure_job_owned_by_worker job worker_id
    now ← utc_now platform
    let updated = record job { heartbeat_at = some now; updated_at = now }
    set_job job_id updated
    pure updated

  unfoldable pub finish : String → WorkflowJobRecord → Repo WorkflowJobRecord
  finish job_id job = do
    now ← utc_now platform
    let completed = record job {
      status = WorkflowJobStatus.completed;
      updated_at = now;
      finished_at = some now;
    }
    set_job job_id completed
    pure completed

  unfoldable pub complete_workflow_job : String → Option String → Repo WorkflowJobRecord
  unfolding finish
  complete_workflow_job job_id worker_id = do
    job ← get_workflow_job_for_update job_id
    if JobStatus.is_completed job.status
        then pure job
        else do ensure_owner_if_given job worker_id; finish job_id job

  abbrev pub redacted_or : Option Fields → Fields → Option Fields
  redacted_or none old = some old
  redacted_or (some new) old = redact_fields platform new

  unfoldable pub update_workflow_job_result :
      String → WorkflowJobStatus → Option Fields → Option String → Repo WorkflowJobRecord
  update_workflow_job_result job_id status payload error_summary = do
    raise_if (not (JobStatus.is_result status)) (value_error "status")
    job ← get_workflow_job_for_update job_id
    now ← utc_now platform
    clean ← or_value_error (redacted_or payload job.payload)
    summary ← or_value_error (redact_optional platform error_summary)
    let updated = record job {
      status = status;
      payload = clean;
      error_summary = summary;
      updated_at = now;
      finished_at = some now;
    }
    set_job job_id updated
    pure updated

  -- `int(value)`; `none` is the ValueError or the TypeError.
  unfoldable pub int_of : Option Value → Option ℕ
  int_of none = some 0
  int_of (some (num n)) = some n
  int_of (some (bool true)) = some 1
  int_of (some (bool false)) = some 0
  int_of (some (str s)) = platform.int_of_text s
  int_of (some _) = none

  -- `if reason: payload[key] = redact_text(reason)`; `none` is the ValueError of the redaction.
  with_reason : String → Option String → Fields → Option Fields
  with_reason key none payload = some payload
  with_reason key (some reason) payload =
      if is_blank reason
      then some payload
      else Option.map (λ text. put key (str text) payload) (redact_text platform reason)

  unfoldable pub retried_payload : Fields → ℕ → ℕ → Option String → Option Fields
  unfolding with_reason
  retried_payload payload count now reason = with_reason "last_manual_retry_reason" reason (
      put "last_manual_retry_at" (str (platform.isoformat now))
        (put "manual_retry_count" (num (count + 1)) payload))

  unfoldable pub retry_dead_letter_workflow_job : String → Option String → Repo WorkflowJobRecord
  retry_dead_letter_workflow_job job_id reason = do
    job ← get_workflow_job_for_update job_id
    raise_if (not (JobStatus.is_dead_letter job.status)) (workflow_job_state job_id)
    now ← utc_now platform
    count ←
        found_or_raise (value_error "manual_retry_count")
          (int_of (get "manual_retry_count" job.payload))
    retried_fields ← or_value_error (retried_payload job.payload count now reason)
    let retried = record job {
      status = WorkflowJobStatus.queued;
      payload = retried_fields;
      max_attempts = max job.max_attempts (job.attempt_count + 1);
      worker_id = none;
      error_summary = none;
      heartbeat_at = none;
      finished_at = none;
      updated_at = now;
    }
    set_job job_id retried
    run ← get_run job.run_id
    set_run job.run_id
        (record run { status = RunStatus.pending; error_summary = none; updated_at = now })
    pure retried

  unfoldable pub dismissed_payload : Fields → ℕ → Option String → Option Fields
  unfolding with_reason
  dismissed_payload payload now reason =
      with_reason "dismissal_reason" reason
        (put "dismissed_at" (str (platform.isoformat now)) payload)

  unfoldable pub dismiss_dead_letter_workflow_job : String → Option String → Repo WorkflowJobRecord
  dismiss_dead_letter_workflow_job job_id reason = do
    job ← get_workflow_job_for_update job_id
    raise_if (not (JobStatus.is_dead_letter job.status)) (workflow_job_state job_id)
    now ← utc_now platform
    dismissed_fields ← or_value_error (dismissed_payload job.payload now reason)
    let dismissed = record job {
      status = WorkflowJobStatus.dismissed;
      payload = dismissed_fields;
      worker_id = none;
      heartbeat_at = none;
      finished_at = some now;
      updated_at = now;
    }
    set_job job_id dismissed
    pure dismissed
