-- ===== src/Runs/Jobs/Invariant/Claims.antt =====
-- runs/repository.py: enqueue and the claims keep the invariant of the jobs, also where they
-- raise.
use Prim.Native.String.{◌++◌}
use autonomous_enterprise_ai.Base.{
  ℕ, suc, ◌≤◌, String, ◌≡◌, refl, ◌≢◌, inl, inr, true, false, Option, none, some, List, [], ◌∷◌,
  arith, Bool-cases, Option-cases, return, pure, ◌>>◌, raise_if, ltb, eq_iff,
}
use autonomous_enterprise_ai.Base.Dict.{Dict, lookup, insert, lookup-insert}
use autonomous_enterprise_ai.Base.Text.{strip, is_blank}
use autonomous_enterprise_ai.Json.{Fields}
use autonomous_enterprise_ai.Platform.{Platform}
use autonomous_enterprise_ai.Redaction.{redact_fields}
use autonomous_enterprise_ai.Runs.Errors.{value_error}
use autonomous_enterprise_ai.Runs.JobStatus
use autonomous_enterprise_ai.Runs.JobStatus.{WorkflowJobStatus}
use autonomous_enterprise_ai.Runs.Models.{RunRecord, WorkflowJobRecord}
use autonomous_enterprise_ai.Runs.Repository.{Repository}
use autonomous_enterprise_ai.Runs.Jobs.Records.{claimed, normalized_name}
use autonomous_enterprise_ai.Runs.Jobs.Queue.{
  fresh_id, id_or_fresh, new_job, create_job, enqueue_workflow_job, claim, claim_first,
  recover_if_stale, claim_next_workflow_job, claim_workflow_job, claim_found, store,
}
use autonomous_enterprise_ai.Runs.Jobs.Recovery.{recover_timed_out_workflow_jobs}
use autonomous_enterprise_ai.Runs.Jobs.Invariant.{
  IsValidJob, IsValid, insert-IsConsistent, append-IsConsistent, Keeps, Keeps-bind, Keeps-raise_if,
}
use autonomous_enterprise_ai.Runs.Jobs.Invariant.Failures.{recover_timed_out-Keeps}

module _ (platform : Platform) where
  claim-IsValid :
      (job_id : String) (job : WorkflowJobRecord) (worker_id : String) (r : Repository)
      → IsValid r
      → lookup job_id r.workflow_jobs ≡ some job
      → JobStatus.is_queued job.status ≡ true
      → IsValid (claim platform job_id job worker_id r).1
  unfolding claim claimed
  claim-IsValid job_id job worker_id r c e queued =
      insert-IsConsistent r.runs r.workflow_jobs r.workflow_job_order job_id
        (claimed job worker_id r.clock) c (ground (arith, c.valid job_id job e))

  claim_first-Keeps :
      (name : Option String) (worker_id : String) (order : List String)
      → Keeps (claim_first platform name worker_id order)
  unfolding claim_first
  claim_first-Keeps name worker_id [] r c = c
  claim_first-Keeps name worker_id (job_id ∷ order) r c =
      elim (Option-cases (lookup job_id r.workflow_jobs)) [
        | inl e ↦ ground arith
        | inr (job, e) ↦ ground (
          arith,
          claim-IsValid job_id job worker_id r c e,
          claim_first-Keeps name worker_id order r c,
        )
      ]

  recover_if_stale-Keeps :
      (stale : Option ℕ) (name : Option String) → Keeps (recover_if_stale platform stale name)
  unfolding recover_if_stale
  recover_if_stale-Keeps none name r c = c
  recover_if_stale-Keeps (some seconds) name r c =
      Keeps-bind (recover_timed_out_workflow_jobs platform seconds name none) (λ _. pure tt)
        (recover_timed_out-Keeps platform seconds name none) (λ _ s v. v) r c

  pub claim_next-Keeps :
      (worker_id : String) (name : Option String) (stale : Option ℕ)
      → Keeps (claim_next_workflow_job platform worker_id name stale)
  unfolding claim_next_workflow_job
  claim_next-Keeps worker_id name stale =
      Keeps-bind (recover_if_stale platform stale (normalized_name name))
        (λ _ s. claim_first platform (normalized_name name) worker_id s.workflow_job_order s)
        (recover_if_stale-Keeps stale (normalized_name name))
        (λ _ s c. claim_first-Keeps (normalized_name name) worker_id s.workflow_job_order s c)

  claim_found-Keeps : (job_id worker_id : String) → Keeps (claim_found platform job_id worker_id)
  unfolding claim_found
  claim_found-Keeps job_id worker_id r c = elim (Option-cases (lookup job_id r.workflow_jobs)) [
    | inl e ↦ ground arith
    | inr (job, e) ↦ ground (arith, claim-IsValid job_id job worker_id r c e)
  ]

  pub claim_one-Keeps :
      (job_id worker_id : String) (stale : Option ℕ)
      → Keeps (claim_workflow_job platform job_id worker_id stale)
  unfolding claim_workflow_job
  claim_one-Keeps job_id worker_id stale =
      Keeps-bind (recover_if_stale platform stale none) (λ _. claim_found platform job_id worker_id)
        (recover_if_stale-Keeps stale none) (λ _. claim_found-Keeps job_id worker_id)

  -- The end of `enqueue_workflow_job`: the new job, in the dictionary and at the end of the order.
  store-IsValid :
      (k : String) (job : WorkflowJobRecord) (r : Repository)
      → IsValid r
      → IsValidJob r.runs k job
      → IsValid (store k job r).1
  unfolding store
  store-IsValid k job r c v =
      append-IsConsistent r.runs (insert k job r.workflow_jobs) r.workflow_job_order k
        (insert-IsConsistent r.runs r.workflow_jobs r.workflow_job_order k job c v)
        (ground (arith, lookup-insert k k job r.workflow_jobs, eq_iff k k))

  new_job-IsValidJob :
      (runs : Dict RunRecord) (ident run_id name : String) (status : WorkflowJobStatus)
      (payload : Fields) (max_attempts now : ℕ)
      → 1 ≤ max_attempts
      → JobStatus.is_running status ≡ false
      → lookup run_id runs ≢ none
      → IsValidJob runs ident (new_job ident run_id name status payload max_attempts now)
  unfolding new_job
  new_job-IsValidJob runs ident run_id name status payload max_attempts now m s h = ground arith

  id_or_fresh_frame :
      (job_id : Option String) (s : Repository)
      → (i : String) × (d : ℕ) × (id_or_fresh platform job_id s
          ≡ (return i, record s { drawn = d }))
  unfolding id_or_fresh fresh_id
  id_or_fresh_frame none s = ("job_" ++ platform.show s.drawn, suc s.drawn, refl)
  id_or_fresh_frame (some i) s = elim (Bool-cases (is_blank i)) [
    | inl e ↦ ("job_" ++ platform.show s.drawn, suc s.drawn, rw e)
    | inr e ↦ (i, s.drawn, rw e)
  ]

  create_job-IsValid :
      (run_id name : String) (payload : Fields) (max_attempts : ℕ) (job_id : Option String)
      (status : WorkflowJobStatus) (r : Repository)
      → IsValid r
      → 1 ≤ max_attempts
      → JobStatus.is_running status ≡ false
      → IsValid (create_job platform run_id name payload max_attempts job_id status r).1
  unfolding create_job store
  create_job-IsValid run_id name payload max_attempts job_id status r c m s =
      elim (Option-cases (lookup run_id r.runs)) [
        | inl e ↦ rw e c
        | inr (run, e) ↦
            let (i, d, f) = id_or_fresh_frame job_id (record r { clock = platform.tick r.clock }) in
            elim (Option-cases (redact_fields platform payload)) [
              | inl g ↦ rw (e, f, g) c
              | inr (clean, g) ↦
                  let job = new_job i run_id name status clean max_attempts r.clock in
                  rw (e, f, g)
                    (store-IsValid i job (record r { clock = platform.tick r.clock; drawn = d }) c
                      (new_job-IsValidJob r.runs i run_id name status clean max_attempts r.clock m s
                        (λ absent. cc)))
            ]
      ]

  pub enqueue-Keeps :
      (run_id name : String) (payload : Fields) (max_attempts : ℕ) (job_id : Option String)
      (status : WorkflowJobStatus)
      → Keeps (enqueue_workflow_job platform run_id name payload max_attempts job_id status)
  unfolding enqueue_workflow_job
  enqueue-Keeps run_id name payload max_attempts job_id status r c =
      let create = create_job platform run_id (strip name) payload max_attempts job_id status in
      Keeps-raise_if (is_blank (strip name)) (value_error "workflow_name")
        (raise_if (ltb max_attempts 1) (value_error "max_attempts")
          >> (raise_if (JobStatus.is_running status) (value_error "status") >> create))
        (λ _.
          Keeps-raise_if (ltb max_attempts 1) (value_error "max_attempts")
            (raise_if (JobStatus.is_running status) (value_error "status") >> create)
            (λ m.
              Keeps-raise_if (JobStatus.is_running status) (value_error "status") create (λ s t d.
                create_job-IsValid run_id (strip name) payload max_attempts job_id status t d
                  (ground arith) s)))
        r c
