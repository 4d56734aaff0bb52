-- ===== src/Tests/Jobs.antt =====
-- runs/repository.py: the job methods on small repositories.
use mathlib.Core.List.{Memᴰ}
use autonomous_enterprise_ai.Base.{
  ℕ, suc, ◌+◌, ◌≢◌, String, eq_iff, subst, inl, inr, Bool-cases, ◌==◌, ◌≡◌, refl, ◌⊎◌, true, none,
  some, List, [], ◌∷◌, All, return, arith,
}
use autonomous_enterprise_ai.Base.Dict.{lookup, insert}
use autonomous_enterprise_ai.Json.{end, nil, get}
use autonomous_enterprise_ai.Redaction.{redact_text}
use autonomous_enterprise_ai.Runs.JobStatus
use autonomous_enterprise_ai.Runs.JobStatus.{WorkflowJobStatus}
use autonomous_enterprise_ai.Runs.Models.{WorkflowJobRecord}
use autonomous_enterprise_ai.Runs.Jobs.Records.{owned_by, claimed, normalized_name}
use autonomous_enterprise_ai.Runs.Jobs.Queue.{
  claim, claim_found, recover_if_stale, claim_workflow_job, claim_next_workflow_job,
}
use autonomous_enterprise_ai.Runs.Jobs.Recovery.{
  recover_timed_out_workflow_jobs, recover_each, recover_if_timed_out, is_timed_out, is_stale,
  now_or_clock, history_items, recover, write_failure, written_payload, append_workflow_failure,
  failed_job, fail_run, with_failure, failure_entry, timeout_summary,
}
use autonomous_enterprise_ai.Runs.Jobs.Invariant.{IsValid, IsValidJob}
use autonomous_enterprise_ai.Runs.Jobs.Invariant.Steps.{
  Call, enqueue, claim_next, fail, run_calls, run_calls-IsValid,
}
use autonomous_enterprise_ai.Runs.Jobs.Ownership.{claim_exclusive}
use autonomous_enterprise_ai.Runs.Jobs.Order.{IsSkipped, IsFirst, claim_next-IsFirst}
use autonomous_enterprise_ai.Runs.Jobs.Retries.{
  IsRetryable, IsDeadLettered, failed_attempts, retries_end,
}
use autonomous_enterprise_ai.Runs.Jobs.Timeouts.{IsFresh, recovered-IsFresh}
use autonomous_enterprise_ai.Tests.Samples.{
  plain, run_1, with_run, with_job, queued_job, running_job,
}

with_run-IsValid : IsValid with_run
unfolding lookup
with_run-IsValid = record { valid = λ k job e. absurd (ground arith); listed = λ k m. elim m [ ] }

abbrev script : List Call
script =
    enqueue "run_1" "procurement" end 2 (some "a") WorkflowJobStatus.queued
    ∷ claim_next "w1" (some "procurement") (some 300)
    ∷ fail "a" "no data" true (some "w1")
    ∷ []

run_calls-IsValid_example : IsValid (run_calls plain script with_run)
run_calls-IsValid_example = run_calls-IsValid plain script with_run with_run-IsValid

abbrev pub claimed_job : WorkflowJobRecord
unfolding claimed
claimed_job = claimed queued_job "w1" 7

claim_exclusive_example :
    (claim_workflow_job plain "a" "w2" none
        (claim_workflow_job plain "a" "w1" none (with_job queued_job)).1
      ≡ (return none, (claim_workflow_job plain "a" "w1" none (with_job queued_job)).1))
    × (lookup "a" (claim_workflow_job plain "a" "w1" none (with_job queued_job)).1.workflow_jobs
        ≡ some claimed_job)
    × (owned_by claimed_job.worker_id "w1" ≡ true)
    × (JobStatus.is_running claimed_job.status ≡ true)
unfolding claim_workflow_job claim_found claim claimed recover_if_stale lookup insert claimed_job
claim_exclusive_example =
    claim_exclusive plain "a" "w1" "w2" (with_job queued_job)
      (claim_workflow_job plain "a" "w1" none (with_job queued_job)).1 claimed_job refl

queued_job-IsValidJob : IsValidJob with_run.runs "a" queued_job
unfolding lookup
queued_job-IsValidJob = ground arith

pub with_job-IsValid : IsValid (with_job queued_job)
unfolding lookup
with_job-IsValid = record {
  valid = λ k job e. elim (Bool-cases ("a" == k)) [
    | inl same ↦
        let found : queued_job ≡ job = ground arith in
        subst (λ j. IsValidJob with_run.runs j job) ((eq_iff "a" k).0 same)
          (subst (IsValidJob with_run.runs "a") found queued_job-IsValidJob)
    | inr other ↦ absurd (ground arith)
  ];
  listed = λ k m. found k m;
}
  where
    found : (k : String) → Memᴰ k ("a" ∷ []) → lookup k (("a", queued_job) ∷ []) ≢ none
    found k (Memᴰ.head e) = ground (arith, eq_iff "a" k)
    found k (Memᴰ.tail m) = elim m [ ]

claim_next-IsFirst_example :
    All (IsSkipped (normalized_name none) (with_job queued_job)) ("a" ∷ [])
      × (claim_next_workflow_job plain "w1" none none (with_job queued_job)
          ≡ (return none, with_job queued_job))
    ⊎ ((job_id : String) × (job : WorkflowJobRecord) × IsFirst
          (normalized_name none)
          (with_job queued_job)
          ("a" ∷ [])
          job_id
          job
        × (claim_next_workflow_job plain "w1" none none (with_job queued_job)
            ≡ claim plain job_id job "w1" (with_job queued_job)))
claim_next-IsFirst_example =
    claim_next-IsFirst plain "w1" none (with_job queued_job) with_job-IsValid

queued_job-IsRetryable : IsRetryable (with_job queued_job) "a" 2
unfolding lookup history_items get
queued_job-IsRetryable = record {
  job = queued_job;
  run = run_1;
  present = refl;
  queued = refl;
  budget = omega arith;
  history = (nil, refl);
  has_run = refl;
}

retries_end_example :
    ((k left : ℕ)
      → k + left ≡ 1
      → IsRetryable
          (failed_attempts plain "a" "w1" "no data" k (with_job queued_job))
          "a"
          (suc left))
    × IsDeadLettered (failed_attempts plain "a" "w1" "no data" 2 (with_job queued_job)) "a"
unfolding redact_text
retries_end_example =
    retries_end plain "a" "w1" "no data" 1 (with_job queued_job) queued_job-IsRetryable
      ("no data", "no data", refl, refl)

-- The running job after two seconds, with a timeout of one.
abbrev timed_out_job : WorkflowJobRecord
timed_out_job =
    failed_job plain running_job true
      (with_failure end
        (failure_entry plain 1 WorkflowJobStatus.queued (timeout_summary plain 1) 2000000
          (some "w1") "heartbeat_timeout")
        nil)
      (timeout_summary plain 1) 2000000

recovered-IsFresh_example :
    All
      (λ k.
        (job : WorkflowJobRecord)
        → lookup k
            (recover_timed_out_workflow_jobs plain 1 none
              (some 2000000)
              (with_job running_job)).1.workflow_jobs
          ≡ some job
        → IsFresh 1 2000000 (normalized_name none) job)
      ("a" ∷ [])
    × ((k : String) (job : WorkflowJobRecord)
        → lookup k (with_job running_job).workflow_jobs ≡ some job
        → IsFresh 1 2000000 (normalized_name none) job
        → lookup k
            (recover_timed_out_workflow_jobs plain 1 none
              (some 2000000)
              (with_job running_job)).1.workflow_jobs
          ≡ some job)
unfolding recover_timed_out_workflow_jobs recover_each recover_if_timed_out is_timed_out is_stale
    now_or_clock recover write_failure written_payload append_workflow_failure failed_job fail_run
    with_failure failure_entry lookup insert normalized_name history_items get timeout_summary
    redact_text
recovered-IsFresh_example =
    recovered-IsFresh plain 1 2000000 none (with_job running_job)
      (recover_timed_out_workflow_jobs plain 1 none (some 2000000) (with_job running_job)).1
      (timed_out_job ∷ []) refl
