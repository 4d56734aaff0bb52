-- ===== src/Runs/Jobs/Queue.antt =====
-- runs/repository.py: enqueue_workflow_job, list_workflow_jobs, get_workflow_job, and the claims.
use Prim.Native.String.{◌++◌}
use autonomous_enterprise_ai.Base.{
  ℕ, String, Bool, true, ◌&&◌, Option, none, some, List, [], ◌∷◌, keep, ltb, ◌==◌, pure, raise_if,
  ◌>>=◌, ◌>>◌, if◌then◌else◌,
}
use autonomous_enterprise_ai.Base.Text.{strip, is_blank}
use autonomous_enterprise_ai.Json.{Fields}
use autonomous_enterprise_ai.Platform.{Platform}
use autonomous_enterprise_ai.Redaction.{redact_fields}
use autonomous_enterprise_ai.Runs.Errors.{value_error}
use autonomous_enterprise_ai.Runs.JobStatus
use autonomous_enterprise_ai.Runs.JobStatus.{WorkflowJobStatus}
use autonomous_enterprise_ai.Runs.Models.{WorkflowJobRecord}
use autonomous_enterprise_ai.Runs.Repository.{Repo, or_value_error, get_run, utc_now, uuid4}
use autonomous_enterprise_ai.Runs.Jobs.Records.{
  get_workflow_job_for_update, job_at, set_job, append_order, read_order, normalized_name,
  name_fits, claimed,
}
use autonomous_enterprise_ai.Runs.Jobs.Recovery.{recover_timed_out_workflow_jobs}

-- `[self._workflow_jobs[job_id] for job_id in order]`
unfoldable pub jobs_at : List String → Repo (List WorkflowJobRecord)
jobs_at [] = pure []
jobs_at (job_id ∷ order) = do job ← job_at job_id; rest ← jobs_at order; pure (job ∷ rest)

abbrev has_run : Option String → WorkflowJobRecord → Bool
has_run none job = true
has_run (some run_id) job = job.run_id == run_id

abbrev has_status : Option WorkflowJobStatus → WorkflowJobRecord → Bool
has_status none job = true
has_status (some status) job = JobStatus.value job.status == JobStatus.value status

abbrev require_run : Option String → Repo (Unit {0})
require_run none = pure tt
require_run (some run_id) = do get_run run_id; pure tt

unfoldable pub list_workflow_jobs :
    Option String → Option WorkflowJobStatus → Repo (List WorkflowJobRecord)
list_workflow_jobs run_id status = do
  require_run run_id
  order ← read_order
  jobs ← jobs_at order
  pure (keep (has_status status) (keep (has_run run_id) jobs))

unfoldable pub get_workflow_job : String → Repo WorkflowJobRecord
get_workflow_job job_id = get_workflow_job_for_update job_id

-- The test of the loop in `claim_next_workflow_job`.
abbrev pub is_claimable : Option String → WorkflowJobRecord → Bool
is_claimable name job = JobStatus.is_queued job.status && name_fits name job

unfoldable pub new_job :
    (ident run_id workflow_name : String)
    → WorkflowJobStatus
    → Fields
    → (max_attempts now : ℕ) → WorkflowJobRecord
new_job ident run_id workflow_name status payload max_attempts now = record {
  ident = ident;
  run_id = run_id;
  workflow_name = workflow_name;
  status = status;
  payload = payload;
  attempt_count = 0;
  max_attempts = max_attempts;
  created_at = now;
  updated_at = now;
  worker_id = none;
  error_summary = none;
  started_at = none;
  finished_at = none;
  heartbeat_at = none;
}

-- The new job goes into the dictionary and to the end of the order.
unfoldable pub store : String → WorkflowJobRecord → Repo (Unit {0})
store job_id job = do set_job job_id job; append_order job_id

module _ (platform : Platform) where
  -- `job_id or f"job_{uuid4().hex}"`
  unfoldable pub fresh_id : Repo String
  fresh_id = do tail ← uuid4 platform; pure ("job_" ++ tail)

  unfoldable pub id_or_fresh : Option String → Repo String
  unfolding fresh_id
  id_or_fresh none = fresh_id
  id_or_fresh (some job_id) = if is_blank job_id then fresh_id else pure job_id

  -- `enqueue_workflow_job` under the lock, with the workflow's name stripped.
  unfoldable pub create_job :
      (run_id workflow_name : String) (payload : Fields) (max_attempts : ℕ) (job_id : Option String)
      → WorkflowJobStatus
      → Repo WorkflowJobRecord
  create_job run_id workflow_name payload max_attempts job_id status = do
    get_run run_id
    now ← utc_now platform
    ident ← id_or_fresh job_id
    clean ← or_value_error (redact_fields platform payload)
    let job = new_job ident run_id workflow_name status clean max_attempts now
    store ident job
    pure job

  unfoldable pub enqueue_workflow_job :
      (run_id workflow_name : String) (payload : Fields) (max_attempts : ℕ) (job_id : Option String)
      → WorkflowJobStatus
      → Repo WorkflowJobRecord
  enqueue_workflow_job run_id workflow_name payload max_attempts job_id status = do
    let normalized_workflow = strip workflow_name
    raise_if (is_blank normalized_workflow) (value_error "workflow_name")
    raise_if (ltb max_attempts 1) (value_error "max_attempts")
    raise_if (JobStatus.is_running status) (value_error "status")
    create_job run_id normalized_workflow payload max_attempts job_id status

  unfoldable pub claim : String → WorkflowJobRecord → String → Repo (Option WorkflowJobRecord)
  claim job_id job worker_id = do
    now ← utc_now platform
    set_job job_id (claimed job worker_id now)
    pure (some (claimed job worker_id now))

  -- The loop over the order in `claim_next_workflow_job`.
  unfoldable pub claim_first :
      Option String → String → List String → Repo (Option WorkflowJobRecord)
  claim_first name worker_id [] = pure none
  claim_first name worker_id (job_id ∷ order) = do
    job ← job_at job_id
    if is_claimable name job
        then claim job_id job worker_id
        else (λ r. claim_first name worker_id order r)

  unfoldable pub recover_if_stale : Option ℕ → Option String → Repo (Unit {0})
  recover_if_stale none name = pure tt
  recover_if_stale (some seconds) name = do
    recover_timed_out_workflow_jobs platform seconds name none
    pure tt

  unfoldable pub claim_next_workflow_job :
      String
      → (workflow_name : Option String) (stale_after_seconds : Option ℕ)
      → Repo (Option WorkflowJobRecord)
  claim_next_workflow_job worker_id workflow_name stale_after_seconds = do
    let name = normalized_name workflow_name
    recover_if_stale stale_after_seconds name
    order ← read_order
    claim_first name worker_id order

  -- What follows the recovery in `claim_workflow_job`.
  unfoldable pub claim_found : (job_id worker_id : String) → Repo (Option WorkflowJobRecord)
  claim_found job_id worker_id = do
    job ← get_workflow_job_for_update job_id
    if JobStatus.is_queued job.status then claim job_id job worker_id else pure none

  unfoldable pub claim_workflow_job :
      (job_id worker_id : String) → Option ℕ → Repo (Option WorkflowJobRecord)
  claim_workflow_job job_id worker_id stale_after_seconds = do
    recover_if_stale stale_after_seconds none
    claim_found job_id worker_id
