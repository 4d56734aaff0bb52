-- ===== src/Runs/Jobs/Invariant/Failures.antt =====
-- runs/repository.py: fail_workflow_job and recover_timed_out_workflow_jobs keep the invariant of
-- the jobs, also where they raise.
use mathlib.Core.List.{◌++◌}
use autonomous_enterprise_ai.Base.{
  ℕ, ◌<◌, String, ◌≡◌, refl, inl, inr, Bool, true, false, ◌&&◌, Option, none, some, List, [], ◌∷◌,
  arith, Option-cases, Result-cases, pure, ◌>>=◌, ltb,
}
use autonomous_enterprise_ai.Base.Dict.{Dict, lookup, insert}
use autonomous_enterprise_ai.Json.{Fields}
use autonomous_enterprise_ai.Platform.{Platform}
use autonomous_enterprise_ai.Redaction.{redact_text}
use autonomous_enterprise_ai.Runs.Models.{RunStatus, RunRecord, WorkflowJobRecord}
use autonomous_enterprise_ai.Runs.Repository.{Repository}
use autonomous_enterprise_ai.Runs.Jobs.Records.{normalized_name, text_or}
use autonomous_enterprise_ai.Runs.Jobs.Recovery.{
  failed_job, fail_run, written_payload, write_failure, recover_if_timed_out, fail_workflow_job,
  timeout_summary, recover, recover_each, recover_timed_out_workflow_jobs,
}
use autonomous_enterprise_ai.Runs.Jobs.Invariant.{
  IsValidJob, IsValid, insert-IsConsistent, set_run-IsConsistent, Keeps, Keeps-bind,
}

failed_job-IsValidJob :
    (platform : Platform) (runs : Dict RunRecord) (k : String) (job : WorkflowJobRecord)
    (should_retry : Bool) (payload : Fields) (summary : String) (now : ℕ)
    → IsValidJob runs k job
    → (should_retry ≡ true → job.attempt_count < job.max_attempts)
    → IsValidJob runs k (failed_job platform job should_retry payload summary now)
unfolding failed_job
failed_job-IsValidJob platform runs k job true payload summary now v h = ground (arith, h refl)
failed_job-IsValidJob platform runs k job false payload summary now v h = ground arith

fail_run-Keeps :
    (platform : Platform) (job : WorkflowJobRecord) (summary : String) (now : ℕ)
    → Keeps (fail_run platform job summary now)
unfolding fail_run
fail_run-Keeps platform job summary now r c = elim (Option-cases (lookup job.run_id r.runs)) [
  | inl e ↦ ground arith
  | inr (run, e) ↦ elim (Option-cases (redact_text platform summary)) [
    | inl f ↦ ground arith
    | inr (text, f) ↦ ground (
      arith,
      set_run-IsConsistent r.runs r.workflow_jobs r.workflow_job_order job.run_id
          (record run { status = RunStatus.failed; error_summary = some text; updated_at = now }),
    )
  ]
]

module _ (platform : Platform) where
  write_failure-IsValid :
      (k : String) (job : WorkflowJobRecord) (should_retry : Bool) (summary : String) (now : ℕ)
      (owner : Option String) (reason : String) (r : Repository)
      → IsValid r
      → IsValidJob r.runs k job
      → (should_retry ≡ true → job.attempt_count < job.max_attempts)
      → IsValid (write_failure platform k job should_retry summary now owner reason r).1
  unfolding write_failure
  write_failure-IsValid k job should_retry summary now owner reason r c v h =
      elim (Result-cases (written_payload platform job should_retry summary now owner reason)) [
        | inr (error, e) ↦ rw e c
        | inl (payload, e) ↦
            let failed = failed_job platform job should_retry payload summary now in
            let valid =
              failed_job-IsValidJob platform r.runs k job should_retry payload summary now v h in
            let stored =
              insert-IsConsistent r.runs r.workflow_jobs r.workflow_job_order k failed c valid in
            ground (
              arith,
              fail_run-Keeps platform failed summary now
                  (record r { workflow_jobs = insert k failed r.workflow_jobs }) stored,
            )
      ]

  pub fail-Keeps :
      (job_id summary : String) (retry : Bool) (worker_id : Option String)
      → Keeps (fail_workflow_job platform job_id summary retry worker_id)
  unfolding fail_workflow_job
  fail-Keeps job_id summary retry worker_id r c =
      elim (Option-cases (lookup job_id r.workflow_jobs)) [
        | inl e ↦ ground arith
        | inr (job, e) ↦ ground (
          arith,
          write_failure-IsValid job_id job (retry && ltb job.attempt_count job.max_attempts) summary
              r.clock (text_or worker_id job.worker_id) "worker_failure"
              (record r { clock = platform.tick r.clock }) c (c.valid job_id job e),
        )
      ]

  recover_if_timed_out-Keeps :
      (timeout_seconds now : ℕ) (name : Option String) (job_id : String)
      → Keeps (recover_if_timed_out platform timeout_seconds now name job_id)
  unfolding recover_if_timed_out recover
  recover_if_timed_out-Keeps timeout_seconds now name job_id r c =
      elim (Option-cases (lookup job_id r.workflow_jobs)) [
        | inl e ↦ ground arith
        | inr (job, e) ↦ ground (
          arith,
          write_failure-IsValid job_id job (ltb job.attempt_count job.max_attempts)
              (timeout_summary platform timeout_seconds) now job.worker_id "heartbeat_timeout" r c
              (c.valid job_id job e),
        )
      ]

  recover_each-Keeps :
      (timeout_seconds now : ℕ) (name : Option String) (order : List String)
      → Keeps (recover_each platform timeout_seconds now name order)
  unfolding recover_each
  recover_each-Keeps timeout_seconds now name [] r c = c
  recover_each-Keeps timeout_seconds now name (job_id ∷ order) r c =
      Keeps-bind (recover_if_timed_out platform timeout_seconds now name job_id)
        (λ first.
          recover_each platform timeout_seconds now name order >>= λ rest. pure (first ++ rest))
        (recover_if_timed_out-Keeps timeout_seconds now name job_id)
        (λ first.
          Keeps-bind (recover_each platform timeout_seconds now name order)
            (λ rest. pure (first ++ rest)) (recover_each-Keeps timeout_seconds now name order)
            (λ rest s v. v))
        r c

  pub recover_timed_out-Keeps :
      (timeout_seconds : ℕ) (name : Option String) (now : Option ℕ)
      → Keeps (recover_timed_out_workflow_jobs platform timeout_seconds name now)
  unfolding recover_timed_out_workflow_jobs
  recover_timed_out-Keeps timeout_seconds name none r c = ground (
    arith,
    recover_each-Keeps timeout_seconds r.clock (normalized_name name) r.workflow_job_order
        (record r { clock = platform.tick r.clock }) c,
  )
  recover_timed_out-Keeps timeout_seconds name (some now) r c = ground (
    arith,
    recover_each-Keeps timeout_seconds now (normalized_name name) r.workflow_job_order r c,
  )
