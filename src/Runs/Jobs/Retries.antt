-- ===== src/Runs/Jobs/Retries.antt =====
-- runs/repository.py: failures of a job, its retries and their end in a dead letter.
use autonomous_enterprise_ai.Base.{
  ℕ, zero, suc, ◌+◌, String, ◌≡◌, refl, Bool, true, false, Option, none, some, ltb, return, arith,
  eq_iff, subst,
}
use autonomous_enterprise_ai.Base.Dict.{lookup, insert, lookup-insert, lookup-insert-same}
use autonomous_enterprise_ai.Json.{Fields, Items, get, get-put, push}
use autonomous_enterprise_ai.Platform.{Platform}
use autonomous_enterprise_ai.Redaction.{redact_text}
use autonomous_enterprise_ai.Runs.JobStatus
use autonomous_enterprise_ai.Runs.JobStatus.{WorkflowJobStatus}
use autonomous_enterprise_ai.Runs.Models.{RunStatus, RunRecord, WorkflowJobRecord}
use autonomous_enterprise_ai.Runs.Repository.{Repository}
use autonomous_enterprise_ai.Runs.Jobs.Records.{claimed, text_or}
use autonomous_enterprise_ai.Runs.Jobs.Queue.{
  claim, claim_found, recover_if_stale, claim_workflow_job,
}
use autonomous_enterprise_ai.Runs.Jobs.Recovery.{
  history_items, append_workflow_failure, with_failure, failure_entry, written_payload, failed_job,
  fail_run, write_failure, fail_workflow_job, status_after_failure,
}

-- The failure history of a payload is one that Python's `list` takes: it is missing, or a list,
-- a text or a dictionary.
abbrev pub HasHistory : Fields → Type 0
HasHistory payload = (items : Items) × (history_items (get "failure_history" payload) ≡ some items)

-- A text that can be redacted, and whose redaction can: no URL in it has credentials and a port
-- that cannot be read.
abbrev pub CanRedact : Platform → String → Type 0
CanRedact platform summary =
    (once : String) × (twice : String) × (redact_text platform summary ≡ some once)
    × (redact_text platform once ≡ some twice)

written_history :
    (platform : Platform) (job : WorkflowJobRecord) (should_retry : Bool) (summary : String)
    (now : ℕ) (owner : Option String) (reason : String)
    → HasHistory job.payload
    → CanRedact platform summary
    → (payload : Fields) × (written_payload platform job should_retry summary now owner reason
        ≡ return payload)
      × HasHistory payload
unfolding written_payload append_workflow_failure with_failure history_items
written_history platform job should_retry summary now owner reason (items, e) (once, twice, o, t) =
    let entry =
      failure_entry platform job.attempt_count (status_after_failure should_retry) twice now owner
        reason in
    (
      with_failure job.payload entry items,
      ground (arith, o, e, t),
      (push items entry, simp get-put),
    )

-- A queued job with this many attempts left, a usable history and a run.
pub record IsRetryable (r : Repository) (job_id : String) (left : ℕ) : Type 0 where
  pub job : WorkflowJobRecord
  pub run : RunRecord
  pub present : lookup job_id r.workflow_jobs ≡ some job
  pub queued : JobStatus.is_queued job.status ≡ true
  pub budget : job.attempt_count + left ≡ job.max_attempts
  pub history : HasHistory job.payload
  pub has_run : lookup job.run_id r.runs ≡ some run

-- A dead letter: no attempt is left, and its run has failed.
pub record IsDeadLettered (r : Repository) (job_id : String) : Type 0 where
  pub job : WorkflowJobRecord
  pub run : RunRecord
  pub present : lookup job_id r.workflow_jobs ≡ some job
  pub dead : JobStatus.is_dead_letter job.status ≡ true
  pub exhausted : job.attempt_count ≡ job.max_attempts
  pub has_run : lookup job.run_id r.runs ≡ some run
  pub run_failed : run.status ≡ RunStatus.failed

module _ (platform : Platform) (job_id worker_id summary : String) where
  -- A worker claims the job and reports its failure.
  pub failed_attempt : Repository → Repository
  failed_attempt r =
      let claimed_state = (claim_workflow_job platform job_id worker_id none r).1 in
      (fail_workflow_job platform job_id summary true (some worker_id) claimed_state).1

  pub failed_attempts : ℕ → Repository → Repository
  failed_attempts zero r = r
  failed_attempts (suc n) r = failed_attempts n (failed_attempt r)

  claim_lem :
      (r : Repository) (job : WorkflowJobRecord)
      → lookup job_id r.workflow_jobs ≡ some job
      → JobStatus.is_queued job.status ≡ true
      → (claim_workflow_job platform job_id worker_id none r).1 ≡ record r {
        workflow_jobs = insert job_id (claimed job worker_id r.clock) r.workflow_jobs;
        clock = platform.tick r.clock;
      }
  unfolding claim_workflow_job recover_if_stale claim_found claim
  claim_lem r job e q = ground arith

  -- The report of the owner writes the failure.
  reported :
      (r : Repository) (job : WorkflowJobRecord) (should_retry : Bool)
      → lookup job_id r.workflow_jobs ≡ some job
      → JobStatus.is_running job.status ≡ true
      → job.worker_id ≡ some worker_id
      → ltb job.attempt_count job.max_attempts ≡ should_retry
      → fail_workflow_job platform job_id summary true (some worker_id) r
        ≡ write_failure platform job_id job should_retry summary r.clock
            (text_or (some worker_id) job.worker_id)
            "worker_failure"
            (record r { clock = platform.tick r.clock })
  unfolding fail_workflow_job
  reported r job should_retry e s o b = ground (arith, eq_iff worker_id worker_id)

  written_retry :
      (r : Repository) (job : WorkflowJobRecord) (payload : Fields) (now : ℕ)
      (owner : Option String) (reason : String)
      → written_payload platform job true summary now owner reason ≡ return payload
      → (write_failure platform job_id job true summary now owner reason r).1 ≡ record r {
        workflow_jobs =
            insert job_id (failed_job platform job true payload summary now) r.workflow_jobs;
      }
  unfolding write_failure fail_run failed_job
  written_retry r job payload now owner reason p = rw p refl

  -- The run of a dead letter fails.
  abbrev failed_run : RunRecord → String → ℕ → RunRecord
  failed_run run text now = record run {
    status = RunStatus.failed;
    error_summary = some text;
    updated_at = now;
  }

  written_end :
      (r : Repository) (job : WorkflowJobRecord) (run : RunRecord) (payload : Fields)
      (text : String) (now : ℕ) (owner : Option String) (reason : String)
      → written_payload platform job false summary now owner reason ≡ return payload
      → lookup job.run_id r.runs ≡ some run
      → redact_text platform summary ≡ some text
      → (write_failure platform job_id job false summary now owner reason r).1 ≡ record r {
        workflow_jobs =
            insert job_id (failed_job platform job false payload summary now) r.workflow_jobs;
        runs = insert job.run_id (failed_run run text now) r.runs;
      }
  unfolding write_failure fail_run failed_job
  written_end r job run payload text now owner reason p g o = rw (p, g, o) refl

  -- A failure of a running job with attempts left.
  fail-IsRetryable :
      (r : Repository) (job : WorkflowJobRecord) (run : RunRecord) (left : ℕ)
      → lookup job_id r.workflow_jobs ≡ some job
      → JobStatus.is_running job.status ≡ true
      → job.worker_id ≡ some worker_id
      → lookup job.run_id r.runs ≡ some run
      → HasHistory job.payload
      → job.attempt_count + suc left ≡ job.max_attempts
      → CanRedact platform summary
      → IsRetryable
          (fail_workflow_job platform job_id summary true (some worker_id) r).1
          job_id
          (suc left)
  unfolding failed_job
  fail-IsRetryable r job run left e s o g hist b can =
      let owner = text_or (some worker_id) job.worker_id in
      let (payload, p, kept) =
        written_history platform job true summary r.clock owner "worker_failure" hist can in
      let failed = failed_job platform job true payload summary r.clock in
      let ticked : Repository = record r { clock = platform.tick r.clock } in
      rw
        (
          reported r job true e s o (ground arith),
          written_retry ticked job payload r.clock owner "worker_failure" p,
        )
        (record {
          job = failed;
          run = run;
          present = lookup-insert-same job_id failed r.workflow_jobs;
          queued = refl;
          budget = b;
          history = kept;
          has_run = g;
        })

  -- A failure of a running job in its last attempt.
  fail-IsDeadLettered :
      (r : Repository) (job : WorkflowJobRecord) (run : RunRecord)
      → lookup job_id r.workflow_jobs ≡ some job
      → JobStatus.is_running job.status ≡ true
      → job.worker_id ≡ some worker_id
      → lookup job.run_id r.runs ≡ some run
      → HasHistory job.payload
      → job.attempt_count ≡ job.max_attempts
      → CanRedact platform summary
      → IsDeadLettered (fail_workflow_job platform job_id summary true (some worker_id) r).1 job_id
  unfolding failed_job
  fail-IsDeadLettered r job run e s o g hist b can =
      let owner = text_or (some worker_id) job.worker_id in
      let (payload, p, kept) =
        written_history platform job false summary r.clock owner "worker_failure" hist can in
      let failed = failed_job platform job false payload summary r.clock in
      let ticked : Repository = record r { clock = platform.tick r.clock } in
      rw
        (
          reported r job false e s o (ground arith),
          written_end ticked job run payload can.0 r.clock owner "worker_failure" p g can.2,
        )
        (record {
          job = failed;
          run = failed_run run can.0 r.clock;
          present = lookup-insert-same job_id failed r.workflow_jobs;
          dead = refl;
          exhausted = b;
          has_run = lookup-insert-same job.run_id (failed_run run can.0 r.clock) r.runs;
          run_failed = refl;
        })

  attempt-IsRetryable :
      (r : Repository) (left : ℕ)
      → IsRetryable r job_id (suc (suc left))
      → CanRedact platform summary
      → IsRetryable (failed_attempt r) job_id (suc left)
  unfolding failed_attempt claimed
  attempt-IsRetryable r left h can =
      rw (claim_lem r h.job h.present h.queued, failed_attempt)
        (fail-IsRetryable _ (claimed h.job worker_id r.clock) h.run left
          (ground (
            arith,
            lookup-insert job_id job_id (claimed h.job worker_id r.clock) r.workflow_jobs,
            eq_iff job_id job_id,
          ))
          refl refl h.has_run h.history (omega (arith, h.budget)) can)

  attempt-IsDeadLettered :
      (r : Repository)
      → IsRetryable r job_id 1
      → CanRedact platform summary
      → IsDeadLettered (failed_attempt r) job_id
  unfolding failed_attempt claimed
  attempt-IsDeadLettered r h can =
      rw (claim_lem r h.job h.present h.queued, failed_attempt)
        (fail-IsDeadLettered _ (claimed h.job worker_id r.clock) h.run
          (ground (
            arith,
            lookup-insert job_id job_id (claimed h.job worker_id r.clock) r.workflow_jobs,
            eq_iff job_id job_id,
          ))
          refl refl h.has_run h.history (omega (arith, h.budget)) can)

  module _ (can : CanRedact platform summary) where
    attempts-IsRetryable :
        (n left : ℕ) (r : Repository)
        → IsRetryable r job_id (n + suc left)
        → IsRetryable (failed_attempts n r) job_id (suc left)
    unfolding failed_attempts
    attempts-IsRetryable zero left r h = subst (IsRetryable r job_id) (omega arith) h
    attempts-IsRetryable (suc n) left r h = attempts-IsRetryable n left (failed_attempt r) (
        subst (IsRetryable (failed_attempt r) job_id) (omega arith)
          (attempt-IsRetryable r (n + left) (subst (IsRetryable r job_id) (omega arith) h) can))

    attempts-IsDeadLettered :
        (n : ℕ) (r : Repository)
        → IsRetryable r job_id (suc n)
        → IsDeadLettered (failed_attempts (suc n) r) job_id
    unfolding failed_attempts
    attempts-IsDeadLettered zero r h = attempt-IsDeadLettered r h can
    attempts-IsDeadLettered (suc n) r h =
        attempts-IsDeadLettered n (failed_attempt r) (attempt-IsRetryable r n h can)

-- A queued job with `n + 1` attempts left, a failure history that Python's `list` takes and a run,
-- where a worker claims the job for each attempt and reports its failure, with a summary whose
-- redaction, and the redaction of that, raises nothing: after any smaller number `k` of attempts
-- the job is queued again with `n + 1 - k` left, and after the last it is a dead letter with no
-- attempt left, whose run has failed.
pub retries_end :
    (platform : Platform) (job_id worker_id summary : String) (n : ℕ) (r : Repository)
    → IsRetryable r job_id (suc n)
    → CanRedact platform summary
    → ((k left : ℕ)
        → k + left ≡ n
        → IsRetryable (failed_attempts platform job_id worker_id summary k r) job_id (suc left))
      × IsDeadLettered (failed_attempts platform job_id worker_id summary (suc n) r) job_id
retries_end platform job_id worker_id summary n r h can = (
  λ k left e.
      attempts-IsRetryable platform job_id worker_id summary can k left r
        (subst (IsRetryable r job_id) (omega arith) h),
  attempts-IsDeadLettered platform job_id worker_id summary can n r h,
)
