-- ===== src/Workflows/Queue.antt =====
-- workflows/queue.py: the queue over the repository, and the queue with an index in Redis. Redis is
-- a parameter: what its two commands do to its data, with whatever they answer or raise.
pub mod Simulation
pub mod Refinement
pub mod Claims
use Prim.Native.String.{◌++◌}
use autonomous_enterprise_ai.Base.{
  ℕ, zero, suc, String, Bool, true, false, Option, none, some, List, [], ◌∷◌, Action, Result,
  return, raise, pure, throw, ◌>>=◌, ◌>>◌, if◌then◌else◌,
}
use autonomous_enterprise_ai.Base.Text.{is_blank}
use autonomous_enterprise_ai.Json.{Fields}
use autonomous_enterprise_ai.Platform.{Platform}
use autonomous_enterprise_ai.Runs.Errors.{Error, workflow_job_not_found}
use autonomous_enterprise_ai.Runs.JobStatus
use autonomous_enterprise_ai.Runs.JobStatus.{WorkflowJobStatus}
use autonomous_enterprise_ai.Runs.Models.{WorkflowJobRecord}
use autonomous_enterprise_ai.Runs.Repository.{Repository, Repo}
use autonomous_enterprise_ai.Runs.Jobs.Queue.{
  enqueue_workflow_job, claim_next_workflow_job, claim_workflow_job,
}
use autonomous_enterprise_ai.Runs.Jobs.Outcomes.{
  heartbeat_workflow_job, complete_workflow_job, retry_dead_letter_workflow_job,
  dismiss_dead_letter_workflow_job,
}
use autonomous_enterprise_ai.Runs.Jobs.Recovery.{fail_workflow_job, recover_timed_out_workflow_jobs}

-- The two commands of the Redis client, over the data that Redis keeps.
pub record Redis (Store : Type 0) : Type 0 where
  pub rpush : (key value : String) → Action Store Error (Unit {0})
  pub lpop : String → Action Store Error (Option String)

pub record QueueState (Store : Type 0) : Type 0 where
  pub repository : Repository
  pub store : Store

abbrev pub Queue : Type 0 → Type 0 → Type 0
Queue Store A = Action (QueueState Store) Error A

-- The fields of WorkflowQueueBackend.
pub record WorkflowQueueBackend (Store : Type 0) : Type 0 where
  pub enqueue :
      (run_id workflow_name : String) → Fields → (max_attempts : ℕ) → Queue Store WorkflowJobRecord
  pub claim_next :
      (worker_id : String) (workflow_name : Option String) (stale_after_seconds : Option ℕ)
      → Queue Store (Option WorkflowJobRecord)
  pub heartbeat : (job_id worker_id : String) → Queue Store WorkflowJobRecord
  pub complete : (job_id worker_id : String) → Queue Store WorkflowJobRecord
  pub fail :
      (job_id worker_id error_summary : String) (retry : Bool) → Queue Store WorkflowJobRecord
  pub recover_timed_out :
      (timeout_seconds : ℕ) → Option String → Queue Store (List WorkflowJobRecord)
  pub retry_dead_letter : (job_id : String) (reason : Option String) → Queue Store WorkflowJobRecord
  pub dismiss_dead_letter :
      (job_id : String) (reason : Option String) → Queue Store WorkflowJobRecord

module _ {Store : Type 0} where
  abbrev pub in_repository : {A : Type 0} → Repo A → Queue Store A
  in_repository m s = let (a, r) = m s.repository in (a, record s { repository = r })

  abbrev pub in_redis : {A : Type 0} → Action Store Error A → Queue Store A
  in_redis m s = let (a, t) = m s.store in (a, record s { store = t })

  -- `if job is not None: return job`, and what follows.
  abbrev pub or_else :
      Option WorkflowJobRecord
      → Queue Store (Option WorkflowJobRecord)
      → Queue Store (Option WorkflowJobRecord)
  or_else (some job) later = pure (some job)
  or_else none later = later

  -- `if job_id is None: break`, and what follows.
  abbrev pub break_if_empty :
      Option String
      → (String → Queue Store (Option WorkflowJobRecord))
      → Queue Store (Option WorkflowJobRecord)
  break_if_empty none later = pure none
  break_if_empty (some job_id) later = later job_id

-- RepositoryWorkflowQueue
module _ {Store : Type 0} (platform : Platform) where
  unfoldable pub repository_queue : WorkflowQueueBackend Store
  repository_queue = record {
    enqueue = λ run_id workflow_name payload max_attempts. in_repository (
        enqueue_workflow_job platform run_id workflow_name payload max_attempts none
          WorkflowJobStatus.queued);
    claim_next = λ worker_id workflow_name stale_after_seconds.
        in_repository
          (claim_next_workflow_job platform worker_id workflow_name stale_after_seconds);
    heartbeat =
        λ job_id worker_id. in_repository (heartbeat_workflow_job platform job_id worker_id);
    complete =
        λ job_id worker_id. in_repository (complete_workflow_job platform job_id (some worker_id));
    fail = λ job_id worker_id error_summary retry.
        in_repository (fail_workflow_job platform job_id error_summary retry (some worker_id));
    recover_timed_out = λ timeout_seconds workflow_name.
        in_repository (recover_timed_out_workflow_jobs platform timeout_seconds workflow_name none);
    retry_dead_letter =
        λ job_id reason. in_repository (retry_dead_letter_workflow_job platform job_id reason);
    dismiss_dead_letter =
        λ job_id reason. in_repository (dismiss_dead_letter_workflow_job platform job_id reason);
  }

-- `except WorkflowJobNotFoundError`, where the loop goes on.
abbrev pub none_if_missing :
    Result Error (Option WorkflowJobRecord) → Result Error (Option WorkflowJobRecord)
none_if_missing (raise (workflow_job_not_found job_id)) = return none
none_if_missing other = other

-- `if workflow_name`
abbrev pub given_name : Option String → Option String
given_name none = none
given_name (some name) = if is_blank name then none else some name

-- RedisWorkflowQueue
module _ {Store : Type 0} (platform : Platform) (redis : Redis Store) (key_prefix : String)
    (max_pop_attempts : ℕ) where
  abbrev queue_key : String → String
  queue_key workflow_name = key_prefix ++ (":queue:" ++ workflow_name)

  unfoldable pub push_job : WorkflowJobRecord → Queue Store (Unit {0})
  push_job job = in_redis (redis.rpush (queue_key job.workflow_name) job.ident)

  unfoldable pub push_if_queued : WorkflowJobRecord → Queue Store (Unit {0})
  push_if_queued job = if JobStatus.is_queued job.status then push_job job else pure tt

  unfoldable pub push_each : List WorkflowJobRecord → Queue Store (Unit {0})
  push_each [] = pure tt
  push_each (job ∷ jobs) = do push_if_queued job; push_each jobs

  unfoldable pub redis_enqueue :
      (run_id workflow_name : String) → Fields → (max_attempts : ℕ) → Queue Store WorkflowJobRecord
  redis_enqueue run_id workflow_name payload max_attempts = do
    job ← in_repository (
        enqueue_workflow_job platform run_id workflow_name payload max_attempts none
          WorkflowJobStatus.queued)
    push_job job
    pure job

  unfoldable pub redis_recover_timed_out :
      (timeout_seconds : ℕ) → Option String → Queue Store (List WorkflowJobRecord)
  redis_recover_timed_out timeout_seconds workflow_name = do
    recovered ←
        in_repository (recover_timed_out_workflow_jobs platform timeout_seconds workflow_name none)
    push_each recovered
    pure recovered

  -- The claim of a popped identifier; a job that is gone counts as no job.
  unfoldable pub claim_popped : (job_id worker_id : String) → Queue Store (Option WorkflowJobRecord)
  claim_popped job_id worker_id s =
      let (claimed, t) = in_repository (claim_workflow_job platform job_id worker_id none) s in
      (none_if_missing claimed, t)

  -- The loop of `claim_next`, with the rounds left.
  unfoldable pub claim_pops :
      (rounds : ℕ) (worker_id workflow_name : String) → Queue Store (Option WorkflowJobRecord)
  claim_pops zero worker_id workflow_name = pure none
  claim_pops (suc rounds) worker_id workflow_name = do
    popped ← in_redis (redis.lpop (queue_key workflow_name))
    break_if_empty popped (λ job_id. do
      claimed ← claim_popped job_id worker_id
      or_else claimed (λ s. claim_pops rounds worker_id workflow_name s))

  unfoldable pub redis_recover_if_stale : Option ℕ → Option String → Queue Store (Unit {0})
  redis_recover_if_stale none workflow_name = pure tt
  redis_recover_if_stale (some timeout_seconds) workflow_name = do
    redis_recover_timed_out timeout_seconds workflow_name
    pure tt

  unfoldable pub claim_from_index :
      (worker_id : String) → Option String → Queue Store (Option WorkflowJobRecord)
  claim_from_index worker_id workflow_name = elim (given_name workflow_name) [
    | none ↦ pure none
    | some name ↦ claim_pops max_pop_attempts worker_id name
  ]

  unfoldable pub redis_claim_next :
      (worker_id : String) (workflow_name : Option String) (stale_after_seconds : Option ℕ)
      → Queue Store (Option WorkflowJobRecord)
  redis_claim_next worker_id workflow_name stale_after_seconds = do
    redis_recover_if_stale stale_after_seconds workflow_name
    claimed ← claim_from_index worker_id workflow_name
    or_else claimed (in_repository (claim_next_workflow_job platform worker_id workflow_name none))

  unfoldable pub redis_fail :
      (job_id worker_id error_summary : String) (retry : Bool) → Queue Store WorkflowJobRecord
  redis_fail job_id worker_id error_summary retry = do
    job ← in_repository (fail_workflow_job platform job_id error_summary retry (some worker_id))
    push_if_queued job
    pure job

  unfoldable pub redis_retry_dead_letter :
      (job_id : String) (reason : Option String) → Queue Store WorkflowJobRecord
  redis_retry_dead_letter job_id reason = do
    job ← in_repository (retry_dead_letter_workflow_job platform job_id reason)
    push_job job
    pure job

  -- What RedisWorkflowQueue does not override is RepositoryWorkflowQueue's.
  unfoldable pub redis_queue : WorkflowQueueBackend Store
  redis_queue = record (repository_queue platform) {
    enqueue = redis_enqueue;
    claim_next = redis_claim_next;
    fail = redis_fail;
    recover_timed_out = redis_recover_timed_out;
    retry_dead_letter = redis_retry_dead_letter;
  }
