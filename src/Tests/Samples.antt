-- ===== src/Tests/Samples.antt =====
-- A platform whose texts hold no URL and no secret, a repository with one run, and its jobs.
use autonomous_enterprise_ai.Base.{
  ℕ, suc, String, false, Option, none, some, [], ◌∷◌, leb, ◌==◌, if◌then◌else◌,
}
use autonomous_enterprise_ai.Json.{end}
use autonomous_enterprise_ai.Platform.{Platform}
use autonomous_enterprise_ai.Runs.JobStatus.{WorkflowJobStatus}
use autonomous_enterprise_ai.Runs.Models.{RunStatus, RunRecord, WorkflowJobRecord}
use autonomous_enterprise_ai.Runs.Repository.{Repository, empty}

abbrev pub plain : Platform
plain = record {
  lower = λ s. s;
  replace = λ old new s. s;
  urlsplit = λ s. none;
  parse_qsl = λ s. [];
  urlencode = λ e. "";
  urlunsplit = λ scheme netloc path query fragment. path;
  url_fullmatch = λ s. false;
  url_sub = λ f s. some s;
  bearer_sub = λ f s. s;
  key_value_sub = λ f s. s;
  show = λ n. if leb n 0 then "0" else if leb n 1 then "1" else "2";
  show_value = λ v. "value";
  tick = suc;
  isoformat = λ n. "now";
  int_of_text = λ s. none;
  fnmatch = λ name pattern. name == pattern;
  current_trace_id = none;
}

abbrev pub run_1 : RunRecord
run_1 = record {
  ident = "run_1";
  task = "analyse";
  status = RunStatus.pending;
  metadata = end;
  created_at = 0;
  updated_at = 0;
  dataset_artifact_id = none;
  trace_id = none;
  error_summary = none;
}

abbrev pub with_run : Repository
with_run = record empty {
  runs = ("run_1", run_1) ∷ [];
  artifacts = ("run_1", []) ∷ [];
  graph_nodes = ("run_1", []) ∷ [];
  events = ("run_1", []) ∷ [];
}

-- A job of the run, with two attempts.
abbrev pub job_of : String → WorkflowJobStatus → ℕ → Option String → WorkflowJobRecord
job_of ident status attempts worker_id = record {
  ident = ident;
  run_id = "run_1";
  workflow_name = "procurement";
  status = status;
  payload = end;
  attempt_count = attempts;
  max_attempts = 2;
  created_at = 0;
  updated_at = 0;
  worker_id = worker_id;
  error_summary = none;
  started_at = none;
  finished_at = none;
  heartbeat_at = some 0;
}

abbrev pub with_job : WorkflowJobRecord → Repository
with_job job = record with_run {
  workflow_jobs = (job.ident, job) ∷ [];
  workflow_job_order = job.ident ∷ [];
  clock = 7;
}

abbrev pub queued_job : WorkflowJobRecord
queued_job = job_of "a" WorkflowJobStatus.queued 0 none

abbrev pub running_job : WorkflowJobRecord
running_job = job_of "a" WorkflowJobStatus.running 1 (some "w1")
