-- ===== src/Runs/Jobs/Records.antt =====
-- runs/repository.py: the parts of the job methods that read and write one job. Of the arguments that a
-- method takes by name, `None` is `none`.
use autonomous_enterprise_ai.Base.{
  ℕ, ◌+◌, String, Bool, true, false, not, Option, none, some, List, [], ◌∷◌, ◌==◌, return, pure,
  raise_if, ◌>>◌, if◌then◌else◌,
}
use mathlib.Core.List.{◌++◌ as append}
use autonomous_enterprise_ai.Base.Dict.{lookup, insert}
use autonomous_enterprise_ai.Base.Text.{strip, is_blank}
use autonomous_enterprise_ai.Runs.Errors.{
  workflow_job_not_found, workflow_job_ownership, workflow_job_state, key_error,
}
use autonomous_enterprise_ai.Runs.JobStatus
use autonomous_enterprise_ai.Runs.JobStatus.{WorkflowJobStatus}
use autonomous_enterprise_ai.Runs.Models.{WorkflowJobRecord}
use autonomous_enterprise_ai.Runs.Repository.{Repo, found_or_raise}

-- _get_workflow_job_for_update
abbrev pub get_workflow_job_for_update : String → Repo WorkflowJobRecord
get_workflow_job_for_update job_id r =
    found_or_raise (workflow_job_not_found job_id) (lookup job_id r.workflow_jobs) r

-- self._workflow_jobs[job_id] in a loop over the order
abbrev pub job_at : String → Repo WorkflowJobRecord
job_at job_id r = found_or_raise (key_error job_id) (lookup job_id r.workflow_jobs) r

-- self._workflow_jobs[job_id] = job
abbrev pub set_job : String → WorkflowJobRecord → Repo (Unit {0})
set_job job_id job r = (return tt, record r { workflow_jobs = insert job_id job r.workflow_jobs })

abbrev pub append_order : String → Repo (Unit {0})
append_order job_id r =
    (return tt, record r { workflow_job_order = append r.workflow_job_order (job_id ∷ []) })

abbrev pub read_order : Repo (List String)
read_order r = (return r.workflow_job_order, r)

-- `workflow_name.strip() if workflow_name else None`
unfoldable pub normalized_name : Option String → Option String
normalized_name none = none
normalized_name (some name) = if is_blank name then none else some (strip name)

-- `a or b` on optional texts and on an optional time
abbrev pub text_or : Option String → Option String → Option String
text_or none b = b
text_or (some a) b = if is_blank a then b else some a

abbrev pub time_or : Option ℕ → ℕ → ℕ
time_or none t = t
time_or (some s) t = s

-- Whether a filter by workflow name lets the job through.
abbrev pub name_fits : Option String → WorkflowJobRecord → Bool
name_fits none job = true
name_fits (some name) job = job.workflow_name == name

abbrev pub owned_by : Option String → String → Bool
owned_by none worker_id = false
owned_by (some owner) worker_id = owner == worker_id

-- _ensure_job_owned_by_worker
abbrev pub ensure_job_owned_by_worker : WorkflowJobRecord → String → Repo (Unit {0})
ensure_job_owned_by_worker job worker_id = do
  raise_if (not (JobStatus.is_running job.status)) (workflow_job_state job.ident)
  raise_if (not (owned_by job.worker_id worker_id)) (workflow_job_ownership job.ident)

-- `if worker_id is not None: _ensure_job_owned_by_worker(job, worker_id)`
abbrev pub ensure_owner_if_given : WorkflowJobRecord → Option String → Repo (Unit {0})
ensure_owner_if_given job none = pure tt
ensure_owner_if_given job (some worker_id) = ensure_job_owned_by_worker job worker_id

-- The claim of a queued job by a worker.
unfoldable pub claimed : WorkflowJobRecord → String → ℕ → WorkflowJobRecord
claimed job worker_id now = record job {
  status = WorkflowJobStatus.running;
  worker_id = some worker_id;
  attempt_count = job.attempt_count + 1;
  started_at = some (time_or job.started_at now);
  heartbeat_at = some now;
  updated_at = now;
}
