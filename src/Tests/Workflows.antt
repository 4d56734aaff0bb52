-- ===== src/Tests/Workflows.antt =====
-- workflows/queue.py: the queue with an index on a small repository. Redis is a dictionary of lists.
use mathlib.Core.List.{◌++◌ as append}
use autonomous_enterprise_ai.Base.{◌≡◌, refl, String, true, none, some, List, [], ◌∷◌, return}
use autonomous_enterprise_ai.Base.Dict.{Dict, lookup, insert}
use autonomous_enterprise_ai.Runs.JobStatus
use autonomous_enterprise_ai.Runs.Jobs.Records.{owned_by, claimed}
use autonomous_enterprise_ai.Runs.Jobs.Queue.{
  claim, claim_found, recover_if_stale, claim_workflow_job,
}
use autonomous_enterprise_ai.Workflows.Queue.{
  Redis, QueueState, redis_claim_next, redis_recover_if_stale, claim_from_index, claim_pops,
  claim_popped,
}
use autonomous_enterprise_ai.Workflows.Queue.Claims.{redis_claim_exclusive}
use autonomous_enterprise_ai.Runs.JobStatus.{WorkflowJobStatus}
use autonomous_enterprise_ai.Tests.Samples.{plain, with_run, with_job, queued_job}
use autonomous_enterprise_ai.Tests.Jobs.{with_job-IsValid, claimed_job}

abbrev Store : Type 0
Store = Dict (List String)

abbrev entries : String → Store → List String
entries key store = elim (lookup key store) [ none ↦ [] | some xs ↦ xs ]

abbrev lists : Redis Store
lists = record {
  rpush =
      λ key value store. (return tt, insert key (append (entries key store) (value ∷ [])) store);
  lpop = λ key store. elim (entries key store) [
    | [] ↦ (return none, store)
    | x ∷ xs ↦ (return (some x), insert key xs store)
  ];
}

abbrev start : QueueState Store
start = record { repository = with_run; store = [] }

abbrev indexed : QueueState Store
indexed = record {
  repository = with_job queued_job;
  store = ("aeai:queue:procurement", "gone" ∷ "a" ∷ []) ∷ [];
}

redis_claim_exclusive_example :
    (job_id : String) × (lookup job_id
        (redis_claim_next plain lists "aeai" 5 "w1"
          (some "procurement")
          none
          indexed).1.repository.workflow_jobs
      ≡ some claimed_job)
    × (JobStatus.is_running claimed_job.status ≡ true)
    × (owned_by claimed_job.worker_id "w1" ≡ true)
    × ((other : String)
        → claim_workflow_job plain job_id other none
            (redis_claim_next plain lists "aeai" 5 "w1"
              (some "procurement")
              none
              indexed).1.repository
          ≡ (
            return none,
            (redis_claim_next plain lists "aeai" 5 "w1"
                (some "procurement")
                none
                indexed).1.repository,
          ))
unfolding redis_claim_next redis_recover_if_stale claim_from_index claim_pops lookup claim_popped
    claim_workflow_job recover_if_stale claim_found insert claim claimed
redis_claim_exclusive_example =
    redis_claim_exclusive plain lists "aeai" 5 "w1" (some "procurement") none indexed
      (redis_claim_next plain lists "aeai" 5 "w1" (some "procurement") none indexed).1 claimed_job
      with_job-IsValid refl
