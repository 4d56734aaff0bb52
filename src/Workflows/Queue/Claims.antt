-- ===== src/Workflows/Queue/Claims.antt =====
-- workflows/queue.py: what a claim through the index in Redis returns.
use Prim.Native.String.{◌++◌}
use autonomous_enterprise_ai.Base.{
  ℕ, zero, suc, ◌≡◌, sym, ◌∙◌, ap, subst, inl, inr, String, true, Option, none, some, arith, eq_iff,
  Result, return, raise, pure, ◌>>=◌, >>=-eq-return,
}
use autonomous_enterprise_ai.Base.Dict.{lookup, lookup-insert-same}
use autonomous_enterprise_ai.Platform.{Platform}
use autonomous_enterprise_ai.Runs.Errors.{Error, workflow_job_not_found}
use autonomous_enterprise_ai.Runs.JobStatus
use autonomous_enterprise_ai.Runs.Models.{WorkflowJobRecord}
use autonomous_enterprise_ai.Runs.Repository.{Repository}
use autonomous_enterprise_ai.Runs.Jobs.Records.{owned_by, claimed}
use autonomous_enterprise_ai.Runs.Jobs.Queue.{
  claim, claim_next_workflow_job, claim_workflow_job, recover_if_stale, claim_found,
}
use autonomous_enterprise_ai.Runs.Jobs.Order.{claim_next-IsFirst}
use autonomous_enterprise_ai.Runs.Jobs.Ownership.{claim_exclusive}
use autonomous_enterprise_ai.Runs.Jobs.Invariant.{IsValid}
use autonomous_enterprise_ai.Runs.Jobs.Invariant.Steps.{run_calls-IsValid}
use autonomous_enterprise_ai.Workflows.Queue.{
  Redis, QueueState, Queue, in_repository, or_else, break_if_empty, none_if_missing, claim_popped,
  claim_pops, claim_from_index, redis_claim_next,
}
use autonomous_enterprise_ai.Workflows.Queue.Simulation.{IsCalls, Simulates, Simulates-in_redis}
use autonomous_enterprise_ai.Workflows.Queue.Refinement.{
  claim_popped-Simulates, claim_from_index-Simulates, recover_if_stale-Simulates,
}

-- The job is stored as it was returned, is running, and belongs to the worker.
abbrev pub IsClaimed : String → WorkflowJobRecord → Repository → Type 0
IsClaimed worker_id job r =
    (job_id : String) × (lookup job_id r.workflow_jobs ≡ some job)
    × (JobStatus.is_running job.status ≡ true)
    × (owned_by job.worker_id worker_id ≡ true)

claim_one-IsClaimed :
    (platform : Platform) (job_id worker_id : String) (r t : Repository) (job : WorkflowJobRecord)
    → claim_workflow_job platform job_id worker_id none r ≡ (return (some job), t)
    → IsClaimed worker_id job t
claim_one-IsClaimed platform job_id worker_id r t job h =
    let (_, stored, owned, running) =
      claim_exclusive platform job_id worker_id worker_id r t job h in
    (job_id, stored, running, owned)

claim_running :
    (platform : Platform) (job_id other : String) (r : Repository) {job : WorkflowJobRecord}
    → lookup job_id r.workflow_jobs ≡ some job
    → JobStatus.is_running job.status ≡ true
    → claim_workflow_job platform job_id other none r ≡ (return none, r)
unfolding claim_workflow_job recover_if_stale claim_found
claim_running platform job_id other r {job} stored running = rw stored (ground arith)

claim-IsClaimed :
    (platform : Platform) (job_id worker_id : String) (old : WorkflowJobRecord) (r t : Repository)
    (job : WorkflowJobRecord)
    → claim platform job_id old worker_id r ≡ (return (some job), t)
    → IsClaimed worker_id job t
unfolding claim claimed
claim-IsClaimed platform job_id worker_id old r t job h =
    let stored = lookup-insert-same job_id (claimed old worker_id r.clock) r.workflow_jobs in
    (job_id, ground (arith, stored), ground arith, ground (arith, eq_iff worker_id worker_id))

nothing :
    {S : Type 0} {s t : S} {job : WorkflowJobRecord}
    → ◌≡◌ {A = Result Error (Option WorkflowJobRecord) × S} (return none, s) (return (some job), t)
    → ⊥
nothing h = cc

claim_next-IsClaimed :
    (platform : Platform) (worker_id : String) (name : Option String) (r t : Repository)
    (job : WorkflowJobRecord)
    → IsValid r
    → claim_next_workflow_job platform worker_id name none r ≡ (return (some job), t)
    → IsClaimed worker_id job t
claim_next-IsClaimed platform worker_id name r t job valid h =
    elim (claim_next-IsFirst platform worker_id name r valid) [
      | inl (_, same) ↦ absurd (nothing (sym same ∙ h))
      | inr (job_id, old, _, same) ↦
          claim-IsClaimed platform job_id worker_id old r t job (sym same ∙ h)
    ]

module _ {Store : Type 0} (platform : Platform) (worker_id : String) where
  kept :
      (s t : QueueState Store) → IsCalls platform s t → IsValid s.repository → IsValid t.repository
  kept s t (calls, e) v = subst IsValid (sym e) (run_calls-IsValid platform calls s.repository v)

  -- A job that the action returns is claimed.
  record Claims (m : Queue Store (Option WorkflowJobRecord)) : Type 0 where
    at :
        (s t : QueueState Store) (job : WorkflowJobRecord)
        → IsValid s.repository
        → m s ≡ (return (some job), t)
        → IsClaimed worker_id job t.repository

  Claims-none : Claims (pure none)
  Claims-none = record { at = λ s t job v h. absurd (nothing h) }

  Claims-break :
      (popped : Option String) (later : String → Queue Store (Option WorkflowJobRecord))
      → ((job_id : String) → Claims (later job_id))
      → Claims (break_if_empty popped later)
  Claims-break none later h = Claims-none
  Claims-break (some job_id) later h = h job_id

  Claims-bind :
      {A : Type 0} (m : Queue Store A) (f : A → Queue Store (Option WorkflowJobRecord))
      → Simulates platform m
      → ((a : A) → Claims (f a))
      → Claims (m >>= f)
  Claims-bind m f sim c = record {
    at = λ s t job v h.
        let (a, u, e, g) = >>=-eq-return m f s h in
        (c a).at u t job
          (subst (λ w. IsValid w.repository) (ap (λ p. p.1) e) (kept s (m s).1 (sim.at s) v)) g;
  }

  -- A claim, and another where it gave no job.
  Claims-or_else :
      (m later : Queue Store (Option WorkflowJobRecord))
      → Simulates platform m
      → Claims m
      → Claims later
      → Claims (do found ← m; or_else found later)
  Claims-or_else m later sim first second = record {
    at = λ s t job v h.
        let (found, u, e, g) = >>=-eq-return m (λ found. or_else found later) s h in
        let valid =
          subst (λ w. IsValid w.repository) (ap (λ p. p.1) e) (kept s (m s).1 (sim.at s) v) in
        split found s t u job v valid e g;
  }
    where
      split :
          (found : Option WorkflowJobRecord) (s t u : QueueState Store) (job : WorkflowJobRecord)
          → IsValid s.repository
          → IsValid u.repository
          → m s ≡ (return found, u)
          → or_else found later u ≡ (return (some job), t)
          → IsClaimed worker_id job t.repository
      split none s t u job v valid e g = second.at u t job valid g
      split (some found) s t u job v valid e g = first.at s t job v (e ∙ g)

-- The job of a pop that gave one is the job of the claim.
popped_cases :
    (x : Result Error (Option WorkflowJobRecord)) {job : WorkflowJobRecord}
    → none_if_missing x ≡ return (some job)
    → x ≡ return (some job)
popped_cases (return o) h = h
popped_cases (raise (workflow_job_not_found k)) h = cc
popped_cases (raise _) h = cc

module _ {Store : Type 0} (platform : Platform) (redis : Redis Store) (key_prefix : String)
    (max_pop_attempts : ℕ) (worker_id : String) where
  claim_popped-Claims :
      (job_id : String)
      → Claims platform worker_id
          (claim_popped platform redis key_prefix max_pop_attempts job_id worker_id)
  unfolding claim_popped
  claim_popped-Claims job_id = record {
    at = λ s t job v h.
        let answer = claim_workflow_job platform job_id worker_id none s.repository in
        let same : answer.0 ≡ return (some job) = popped_cases answer.0 (ap (λ p. p.0) h) in
        claim_one-IsClaimed platform job_id worker_id s.repository t.repository job
          (λ i. (same i, (h i).1.repository));
  }

  claim_pops-Claims :
      (rounds : ℕ) (name : String)
      → Claims platform worker_id
          (claim_pops platform redis key_prefix max_pop_attempts rounds worker_id name)
  unfolding claim_pops
  claim_pops-Claims zero name = Claims-none platform worker_id
  claim_pops-Claims (suc rounds) name =
      Claims-bind platform worker_id _ _
        (Simulates-in_redis platform (redis.lpop (key_prefix ++ (":queue:" ++ name))))
        (λ popped. Claims-break platform worker_id popped _ (λ job_id.
          Claims-or_else platform worker_id _ _
            (claim_popped-Simulates platform redis key_prefix max_pop_attempts job_id worker_id)
            (claim_popped-Claims job_id) (claim_pops-Claims rounds name)))

  claim_from_index-Claims :
      (name : Option String)
      → Claims platform worker_id
          (claim_from_index platform redis key_prefix max_pop_attempts worker_id name)
  unfolding claim_from_index
  claim_from_index-Claims none = Claims-none platform worker_id
  claim_from_index-Claims (some String.[]) = Claims-none platform worker_id
  claim_from_index-Claims (some (String.◌∷◌ c s)) =
      claim_pops-Claims max_pop_attempts (String.◌∷◌ c s)

  fallback-Claims :
      (name : Option String)
      → Claims {Store = Store} platform worker_id
          (in_repository (claim_next_workflow_job platform worker_id name none))
  fallback-Claims name = record {
    at = λ s t job v h.
        claim_next-IsClaimed platform worker_id name s.repository t.repository job v
          (λ i. ((h i).0, (h i).1.repository));
  }

  claim_next-Claims :
      (name : Option String) (stale : Option ℕ)
      → Claims platform worker_id
          (redis_claim_next platform redis key_prefix max_pop_attempts worker_id name stale)
  unfolding redis_claim_next
  claim_next-Claims name stale =
      Claims-bind platform worker_id _ _
        (recover_if_stale-Simulates platform redis key_prefix max_pop_attempts stale name)
        (λ _.
          Claims-or_else platform worker_id _ _
            (claim_from_index-Simulates platform redis key_prefix max_pop_attempts worker_id name)
            (claim_from_index-Claims name) (fallback-Claims name))

-- Where the jobs are valid, a job that the queue hands to a worker is stored under its identifier
-- as running and owned by that worker, whatever Redis answered, lost, repeated or raised before.
-- And another claim_workflow_job of that job without a recovery timeout, by any worker and in the
-- state that this claim left, returns nothing and changes nothing.
pub redis_claim_exclusive :
    {Store : Type 0} (platform : Platform) (redis : Redis Store) (key_prefix : String)
    (max_pop_attempts : ℕ) (worker_id : String) (name : Option String) (stale : Option ℕ)
    (s t : QueueState Store) (job : WorkflowJobRecord)
    → IsValid s.repository
    → redis_claim_next platform redis key_prefix max_pop_attempts worker_id name stale s
      ≡ (return (some job), t)
    → (job_id : String) × (lookup job_id t.repository.workflow_jobs ≡ some job)
      × (JobStatus.is_running job.status ≡ true)
      × (owned_by job.worker_id worker_id ≡ true)
      × ((other : String)
          → claim_workflow_job platform job_id other none t.repository
            ≡ (return none, t.repository))
redis_claim_exclusive platform redis key_prefix n worker_id name stale s t job v h =
    let (job_id, stored, running, owned) =
      (claim_next-Claims platform redis key_prefix n worker_id name stale).at s t job v h in
    (
      job_id,
      stored,
      running,
      owned,
      λ other. claim_running platform job_id other t.repository stored running,
    )
