-- ===== src/Workflows/Queue/Refinement.antt =====
-- workflows/queue.py: the parts of a claim through the index in Redis do to the repository what
-- some calls of its job methods do.
use Prim.Native.String.{◌++◌}
use autonomous_enterprise_ai.Base.{ℕ, zero, suc, refl, String, Option, none, some, List, [], ◌∷◌}
use autonomous_enterprise_ai.Platform.{Platform}
use autonomous_enterprise_ai.Runs.JobStatus
use autonomous_enterprise_ai.Runs.JobStatus.{WorkflowJobStatus}
use autonomous_enterprise_ai.Runs.Models.{WorkflowJobRecord}
use autonomous_enterprise_ai.Runs.Jobs.Invariant.Steps.{Call, after, run_calls}
use autonomous_enterprise_ai.Workflows.Queue.{
  Queue, or_else, break_if_empty, Redis, push_job, push_if_queued, push_each, claim_popped,
  claim_pops, claim_from_index, redis_recover_timed_out, redis_recover_if_stale,
}
use autonomous_enterprise_ai.Workflows.Queue.Simulation.{
  Simulates, Simulates-pure, Simulates-in_redis, Simulates-in_repository, Simulates-if,
  Simulates-bind,
}

module _ {Store : Type 0} (platform : Platform) (redis : Redis Store) (key_prefix : String)
    (max_pop_attempts : ℕ) where
  push_job-Simulates :
      (job : WorkflowJobRecord)
      → Simulates platform (push_job platform redis key_prefix max_pop_attempts job)
  unfolding push_job
  push_job-Simulates job =
      Simulates-in_redis platform
        (redis.rpush (key_prefix ++ (":queue:" ++ job.workflow_name)) job.ident)

  push_if_queued-Simulates :
      (job : WorkflowJobRecord)
      → Simulates platform (push_if_queued platform redis key_prefix max_pop_attempts job)
  unfolding push_if_queued
  push_if_queued-Simulates job =
      Simulates-if platform (JobStatus.is_queued job.status) _ _ (push_job-Simulates job)
        (Simulates-pure platform tt)

  push_each-Simulates :
      (jobs : List WorkflowJobRecord)
      → Simulates platform (push_each platform redis key_prefix max_pop_attempts jobs)
  unfolding push_each
  push_each-Simulates [] = Simulates-pure platform tt
  push_each-Simulates (job ∷ jobs) =
      Simulates-bind platform _ _ (push_if_queued-Simulates job) (λ _. push_each-Simulates jobs)

  recover_timed_out-Simulates :
      (seconds : ℕ) (name : Option String)
      → Simulates platform
          (redis_recover_timed_out platform redis key_prefix max_pop_attempts seconds name)
  unfolding redis_recover_timed_out after
  recover_timed_out-Simulates seconds name =
      Simulates-bind platform _ _
        (Simulates-in_repository platform _ (Call.recover_timed_out seconds name none) (λ r. refl))
        (λ found.
          Simulates-bind platform _ _ (push_each-Simulates found)
            (λ _. Simulates-pure platform found))

  pub claim_popped-Simulates :
      (job_id worker_id : String)
      → Simulates platform
          (claim_popped platform redis key_prefix max_pop_attempts job_id worker_id)
  unfolding claim_popped after run_calls
  claim_popped-Simulates job_id worker_id = record {
    at = λ s. (Call.claim_one job_id worker_id none ∷ [], refl);
  }

  pub or_else-Simulates :
      (claimed : Option WorkflowJobRecord) (later : Queue Store (Option WorkflowJobRecord))
      → Simulates platform later
      → Simulates platform (or_else claimed later)
  or_else-Simulates none later h = h
  or_else-Simulates (some job) later h = Simulates-pure platform (some job)

  break_if_empty-Simulates :
      (popped : Option String) (later : String → Queue Store (Option WorkflowJobRecord))
      → ((job_id : String) → Simulates platform (later job_id))
      → Simulates platform (break_if_empty popped later)
  break_if_empty-Simulates none later h = Simulates-pure platform none
  break_if_empty-Simulates (some job_id) later h = h job_id

  claim_pops-Simulates :
      (rounds : ℕ) (worker_id name : String)
      → Simulates platform
          (claim_pops platform redis key_prefix max_pop_attempts rounds worker_id name)
  unfolding claim_pops
  claim_pops-Simulates zero worker_id name = Simulates-pure platform none
  claim_pops-Simulates (suc rounds) worker_id name =
      Simulates-bind platform _ _
        (Simulates-in_redis platform (redis.lpop (key_prefix ++ (":queue:" ++ name))))
        (λ popped. break_if_empty-Simulates popped _ (λ job_id.
          Simulates-bind platform _ _ (claim_popped-Simulates job_id worker_id)
            (λ claimed. or_else-Simulates claimed _ (claim_pops-Simulates rounds worker_id name))))

  pub claim_from_index-Simulates :
      (worker_id : String) (name : Option String)
      → Simulates platform
          (claim_from_index platform redis key_prefix max_pop_attempts worker_id name)
  unfolding claim_from_index
  claim_from_index-Simulates worker_id none = Simulates-pure platform none
  claim_from_index-Simulates worker_id (some String.[]) = Simulates-pure platform none
  claim_from_index-Simulates worker_id (some (String.◌∷◌ c s)) =
      claim_pops-Simulates max_pop_attempts worker_id (String.◌∷◌ c s)

  pub recover_if_stale-Simulates :
      (seconds : Option ℕ) (name : Option String)
      → Simulates platform
          (redis_recover_if_stale platform redis key_prefix max_pop_attempts seconds name)
  unfolding redis_recover_if_stale
  recover_if_stale-Simulates none name = Simulates-pure platform tt
  recover_if_stale-Simulates (some seconds) name =
      Simulates-bind platform _ _ (recover_timed_out-Simulates seconds name)
        (λ _. Simulates-pure platform tt)
