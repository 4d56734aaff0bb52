-- ===== src/Workflows/Worker.antt =====
-- workflows/worker.py: the worker. The two workflows, and the check of the evidence, are parameters:
-- what each does to the repository, and its status or exception.
use Prim.Native.String.{◌++◌}
use autonomous_enterprise_ai.Base.{
  ℕ, zero, suc, String, Bool, true, false, Option, none, some, List, [], ◌∷◌, Result, return, raise,
  pure, ◌==◌, ◌>>=◌, ◌>>◌, if◌then◌else◌,
}
use autonomous_enterprise_ai.Base.Text.{is_blank}
use autonomous_enterprise_ai.Platform.{Platform}
use autonomous_enterprise_ai.Runs.Errors.{Error}
use autonomous_enterprise_ai.Runs.JobStatus.{WorkflowJobStatus}
use autonomous_enterprise_ai.Runs.Models.{RunStatus, WorkflowJobRecord}
use autonomous_enterprise_ai.Runs.Repository.{Repo, get_run, update_status}
use autonomous_enterprise_ai.Workflows.Queue.{WorkflowQueueBackend, Queue, in_repository}

-- `execute_procurement` and `execute_dynamic` give the status of the workflow's result;
-- `verify_run` is there with an artifact store. `error_text` is `str(exc)`.
pub record WorkflowWorker (Store : Type 0) : Type 0 where
  pub queue : WorkflowQueueBackend Store
  pub execute_procurement : (run_id : String) → Repo RunStatus
  pub execute_dynamic : (run_id : String) → Repo RunStatus
  pub verify_run : Option (String → Repo (Unit {0}))
  pub worker_id : String
  pub claim_timeout_seconds : Option ℕ
  pub error_text : Error → String

abbrev pub procurement_workflow_name : String
procurement_workflow_name = "procurement"

abbrev pub dynamic_workflow_name : String
dynamic_workflow_name = "dynamic_analysis"

-- What the try block of `_process_claimed_job` gives: the status of a workflow, or the job of a
-- failure that it returns.
pub data Attempt : Type 0 where
  executed : RunStatus → Attempt
  settled : WorkflowJobRecord → Attempt

abbrev pub is_failed_run : RunStatus → Bool
is_failed_run RunStatus.failed = true
is_failed_run _ = false

-- `job.status in {FAILED, DEAD_LETTER}`
abbrev pub is_lost : WorkflowJobStatus → Bool
is_lost WorkflowJobStatus.failed = true
is_lost WorkflowJobStatus.dead_letter = true
is_lost _ = false

-- `error_summary or "Workflow execution failed."`
abbrev pub summary_or_default : Option String → String
summary_or_default none = "Workflow execution failed."
summary_or_default (some s) = if is_blank s then "Workflow execution failed." else s

-- The names in the order of the claims: `workflow_names[(first + offset) % 2]`.
unfoldable pub names_from : (next_workflow_index : ℕ) → List String
names_from zero = procurement_workflow_name ∷ dynamic_workflow_name ∷ []
names_from (suc zero) = dynamic_workflow_name ∷ procurement_workflow_name ∷ []
names_from (suc (suc n)) = names_from n

module _ {Store : Type 0} (platform : Platform) (worker : WorkflowWorker Store) where
  unfoldable pub retry_or_fail : WorkflowJobRecord → String → Queue Store WorkflowJobRecord
  retry_or_fail job error_summary = do
    updated ← worker.queue.fail job.ident worker.worker_id error_summary true
    if is_lost updated.status
        then (do
          in_repository (update_status platform job.run_id RunStatus.failed (some error_summary))
          pure updated)
        else pure updated

  unfoldable pub final_fail : WorkflowJobRecord → String → Queue Store WorkflowJobRecord
  final_fail job error_summary = do
    updated ← worker.queue.fail job.ident worker.worker_id error_summary false
    in_repository (update_status platform job.run_id RunStatus.failed (some error_summary))
    pure updated

  abbrev executing : Repo RunStatus → Queue Store Attempt
  executing m = do status ← in_repository m; pure (executed status)

  abbrev final_attempt : WorkflowJobRecord → String → Queue Store Attempt
  final_attempt job error_summary = do
    updated ← final_fail job error_summary
    pure (settled updated)

  -- The try block.
  unfoldable pub attempt : WorkflowJobRecord → Queue Store Attempt
  attempt job =
      if job.workflow_name == procurement_workflow_name
      then executing (worker.execute_procurement job.run_id)
      else if job.workflow_name == dynamic_workflow_name
      then executing (worker.execute_dynamic job.run_id)
      else final_attempt job ("Unsupported workflow: " ++ job.workflow_name)

  -- The check of the evidence, whose exceptions are only logged.
  unfoldable pub verify_best_effort : (run_id : String) → Queue Store (Unit {0})
  verify_best_effort run_id s = elim worker.verify_run [
    | none ↦ (return tt, s)
    | some verify ↦ let (answer, t) = in_repository (verify run_id) s in (return tt, t)
  ]

  -- What follows a workflow that returned.
  unfoldable pub after_execution : WorkflowJobRecord → RunStatus → Queue Store WorkflowJobRecord
  after_execution job status =
      if is_failed_run status
      then (do
        run ← in_repository (get_run job.run_id)
        final_fail job (summary_or_default run.error_summary))
      else (do verify_best_effort job.run_id; worker.queue.complete job.ident worker.worker_id)

  -- What follows the try block, with its exception.
  unfoldable pub conclude : WorkflowJobRecord → Result Error Attempt → Queue Store WorkflowJobRecord
  conclude job (raise e) = retry_or_fail job (worker.error_text e)
  conclude job (return (settled updated)) = pure updated
  conclude job (return (executed status)) = after_execution job status

  abbrev pub tried : Queue Store Attempt → Queue Store (Result Error Attempt)
  tried m s = let (answer, t) = m s in (return answer, t)

  unfoldable pub process_claimed_job : WorkflowJobRecord → Queue Store WorkflowJobRecord
  process_claimed_job job = do
    in_repository (get_run job.run_id)
    worker.queue.heartbeat job.ident worker.worker_id
    attempted ← tried (attempt job)
    conclude job attempted

  abbrev pub process_found :
      Option WorkflowJobRecord
      → Queue Store (Option WorkflowJobRecord)
      → Queue Store (Option WorkflowJobRecord)
  process_found none others = others
  process_found (some job) others = do updated ← process_claimed_job job; pure (some updated)

  -- The claims under the names, until one gives a job.
  unfoldable pub process_first : List String → Queue Store (Option WorkflowJobRecord)
  process_first [] = pure none
  process_first (name ∷ names) = do
    claimed ← worker.queue.claim_next worker.worker_id (some name) worker.claim_timeout_seconds
    process_found claimed (λ s. process_first names s)

  -- The next index, and what the call does.
  unfoldable pub process_next_job :
      (next_workflow_index : ℕ) → ℕ × Queue Store (Option WorkflowJobRecord)
  process_next_job next_workflow_index =
      (suc next_workflow_index, process_first (names_from next_workflow_index))
