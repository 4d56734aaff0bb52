-- ===== src/Runs/Jobs/Timeouts.antt =====
-- runs/repository.py: what `recover_timed_out_workflow_jobs` leaves behind.
use mathlib.Core.List.{◌++◌}
use autonomous_enterprise_ai.Base.{
  ℕ, String, ◌≡◌, inl, inr, Bool, true, false, Option, some, List, [], ◌∷◌, ltb, arith, Bool-cases,
  Option-cases, All, All-map, ◌+◌, ◌*◌, ◌<◌, return, pure, ◌>>=◌, >>=-eq-return, sym, ◌∙◌, subst,
  eq_iff, ◌==◌,
}
use autonomous_enterprise_ai.Base.Dict.{lookup, insert, lookup-insert}
use autonomous_enterprise_ai.Platform.{Platform}
use autonomous_enterprise_ai.Runs.JobStatus
use autonomous_enterprise_ai.Runs.Models.{WorkflowJobRecord}
use autonomous_enterprise_ai.Runs.Repository.{Repository}
use autonomous_enterprise_ai.Runs.Jobs.Records.{normalized_name, name_fits, time_or}
use autonomous_enterprise_ai.Runs.Jobs.Recovery.{
  failed_job, fail_run, write_failure, is_stale, is_timed_out, timeout_summary, recover,
  recover_if_timed_out, recover_each, recover_timed_out_workflow_jobs, now_or_clock,
}

-- The jobs after `write_failure` returned: one job was written, and is no longer running.
write_failure_frame :
    (platform : Platform) (k : String) (job : WorkflowJobRecord) (should_retry : Bool)
    (summary : String) (now : ℕ) (owner : Option String) (reason : String) (r s : Repository)
    (result : WorkflowJobRecord)
    → write_failure platform k job should_retry summary now owner reason r ≡ (return result, s)
    → (s.workflow_jobs ≡ insert k result r.workflow_jobs)
      × (JobStatus.is_running result.status ≡ false)
unfolding write_failure fail_run failed_job
write_failure_frame platform k job true summary now owner reason r s result h = ground arith
write_failure_frame platform k job false summary now owner reason r s result h = ground arith

module _ (platform : Platform) (seconds now : ℕ) (name : Option String) where
  -- The job under the identifier, if there is one, has not timed out.
  abbrev pub IsLive : Repository → String → Type 0
  IsLive r k =
      (job : WorkflowJobRecord)
      → lookup k r.workflow_jobs ≡ some job
      → is_timed_out platform seconds now name job ≡ false

  is_timed_out_of_rest :
      (job : WorkflowJobRecord)
      → JobStatus.is_running job.status ≡ false
      → is_timed_out platform seconds now name job ≡ false
  unfolding is_timed_out
  is_timed_out_of_rest job h = ground arith

  -- A round leaves its own job live, and every other job as it was.
  round-IsLive :
      (k : String) (r s : Repository) (found : List WorkflowJobRecord)
      → recover_if_timed_out platform seconds now name k r ≡ (return found, s)
      → IsLive s k
        × ((j : String) → (k == j) ≡ false → lookup j s.workflow_jobs ≡ lookup j r.workflow_jobs)
  unfolding recover_if_timed_out recover
  round-IsLive k r s found h = elim (Option-cases (lookup k r.workflow_jobs)) [
    | inl e ↦ absurd (ground arith)
    | inr (job, e) ↦ elim (Bool-cases (is_timed_out platform seconds now name job)) [
      | inl t ↦
          let (result, u, ran, same) =
            >>=-eq-return
              (write_failure platform k job (ltb job.attempt_count job.max_attempts)
                (timeout_summary platform seconds) now job.worker_id "heartbeat_timeout")
              (λ result. pure (result ∷ [])) r (rw (e, t) at h) in
          let (jobs, stopped) = write_failure_frame platform k job _ _ now _ _ r u result ran in
          (
            λ other p. ground (
              arith,
              jobs,
              same,
              lookup-insert k k result r.workflow_jobs,
              eq_iff k k,
              is_timed_out_of_rest result stopped,
            ),
            λ j d. ground (arith, jobs, same, lookup-insert k j result r.workflow_jobs),
          )
      | inr f ↦ (λ other p. ground arith, λ j d. ground arith)
    ]
  ]

  round_keeps_IsLive :
      (k j : String) (r s : Repository) (found : List WorkflowJobRecord)
      → recover_if_timed_out platform seconds now name k r ≡ (return found, s)
      → IsLive r j
      → IsLive s j
  round_keeps_IsLive k j r s found h live =
      let (own, others) = round-IsLive k r s found h in
      elim (Bool-cases (k == j)) [
        | inl same ↦ subst (IsLive s) ((eq_iff k j).0 same) own
        | inr other ↦ λ job e. live job (sym (others j other) ∙ e)
      ]

  each_keeps_IsLive :
      (order : List String) (j : String) (r s : Repository) (found : List WorkflowJobRecord)
      → recover_each platform seconds now name order r ≡ (return found, s)
      → IsLive r j
      → IsLive s j
  unfolding recover_each
  each_keeps_IsLive [] j r s found h live = λ job e. live job (ground arith)
  each_keeps_IsLive (k ∷ order) j r s found h live =
      let (first, t, ran, more) =
        >>=-eq-return (recover_if_timed_out platform seconds now name k)
          (λ first. recover_each platform seconds now name order >>= λ rest. pure (first ++ rest)) r
          h in
      let (rest, u, ran', same) =
        >>=-eq-return (recover_each platform seconds now name order) (λ rest. pure (first ++ rest))
          t more in
      let kept =
        each_keeps_IsLive order j t u rest ran' (round_keeps_IsLive k j r t first ran live) in
      λ job e. kept job (ground arith)

  each-IsLive :
      (order : List String) (r s : Repository) (found : List WorkflowJobRecord)
      → recover_each platform seconds now name order r ≡ (return found, s)
      → All (IsLive s) order
  unfolding recover_each
  each-IsLive [] r s found h = tt
  each-IsLive (k ∷ order) r s found h =
      let (first, t, ran, more) =
        >>=-eq-return (recover_if_timed_out platform seconds now name k)
          (λ first. recover_each platform seconds now name order >>= λ rest. pure (first ++ rest)) r
          h in
      let (rest, u, ran', same) =
        >>=-eq-return (recover_each platform seconds now name order) (λ rest. pure (first ++ rest))
          t more in
      let to_s : u ≡ s = ground arith in
      (
        subst (λ v. IsLive v k) to_s
            (each_keeps_IsLive order k t u rest ran' (round-IsLive k r t first ran).0),
        subst (λ v. All (IsLive v) order) to_s (each-IsLive order t u rest ran'),
      )

  round_untouched :
      (k j : String) (r s : Repository) (found : List WorkflowJobRecord) (job : WorkflowJobRecord)
      → recover_if_timed_out platform seconds now name k r ≡ (return found, s)
      → lookup j r.workflow_jobs ≡ some job
      → is_timed_out platform seconds now name job ≡ false
      → lookup j s.workflow_jobs ≡ some job
  unfolding recover_if_timed_out
  round_untouched k j r s found job h e f = elim (Bool-cases (k == j)) [
    | inl same ↦ ground (arith, (eq_iff k j).0 same)
    | inr other ↦ (round-IsLive k r s found h).1 j other ∙ e
  ]

  each_untouched :
      (order : List String) (j : String) (r s : Repository) (found : List WorkflowJobRecord)
      (job : WorkflowJobRecord)
      → recover_each platform seconds now name order r ≡ (return found, s)
      → lookup j r.workflow_jobs ≡ some job
      → is_timed_out platform seconds now name job ≡ false
      → lookup j s.workflow_jobs ≡ some job
  unfolding recover_each
  each_untouched [] j r s found job h e f = ground arith
  each_untouched (k ∷ order) j r s found job h e f =
      let (first, t, ran, more) =
        >>=-eq-return (recover_if_timed_out platform seconds now name k)
          (λ first. recover_each platform seconds now name order >>= λ rest. pure (first ++ rest)) r
          h in
      let (rest, u, ran', same) =
        >>=-eq-return (recover_each platform seconds now name order) (λ rest. pure (first ++ rest))
          t more in
      let kept =
        each_untouched order j t u rest job ran' (round_untouched k j r t first job ran e f) f in
      ground arith

-- A job whose heartbeat is younger than the timeout, at the given time, or that the recovery does
-- not look at: it is not running, or goes by another name.
abbrev pub IsFresh : (seconds now : ℕ) → Option String → WorkflowJobRecord → Type 0
IsFresh seconds now name job =
    JobStatus.is_running job.status ≡ true
    → name_fits name job ≡ true
    → now < time_or job.heartbeat_at job.updated_at + seconds * 1000000

IsFresh-of_live :
    (platform : Platform) (seconds now : ℕ) (name : Option String) (job : WorkflowJobRecord)
    → is_timed_out platform seconds now name job ≡ false
    → IsFresh seconds now name job
unfolding is_timed_out is_stale
IsFresh-of_live platform seconds now name job h running fits = ground arith

live_of_IsFresh :
    (platform : Platform) (seconds now : ℕ) (name : Option String) (job : WorkflowJobRecord)
    → IsFresh seconds now name job
    → is_timed_out platform seconds now name job ≡ false
unfolding is_timed_out is_stale
live_of_IsFresh platform seconds now name job h = ground arith

-- After a recovery for a given time that returned, every job of the order is fresh: it is not
-- running, or goes by another name, or its heartbeat is younger than the timeout. And a job that
-- was fresh before the recovery is the same after it.
pub recovered-IsFresh :
    (platform : Platform) (seconds now : ℕ) (name : Option String) (r s : Repository)
    (found : List WorkflowJobRecord)
    → recover_timed_out_workflow_jobs platform seconds name (some now) r ≡ (return found, s)
    → All
        (λ k.
          (job : WorkflowJobRecord)
          → lookup k s.workflow_jobs ≡ some job
          → IsFresh seconds now (normalized_name name) job)
        r.workflow_job_order
      × ((k : String) (job : WorkflowJobRecord)
          → lookup k r.workflow_jobs ≡ some job
          → IsFresh seconds now (normalized_name name) job
          → lookup k s.workflow_jobs ≡ some job)
unfolding recover_timed_out_workflow_jobs now_or_clock
recovered-IsFresh platform seconds now name r s found h = elim (Bool-cases (ltb seconds 1)) [
  | inl e ↦ absurd (ground arith)
  | inr e ↦
      let n = normalized_name name in
      let order = r.workflow_job_order in
      let ran : recover_each platform seconds now n order r ≡ (return found, s) = rw e at h in
      (
        All-map (IsLive platform seconds now n s) _ order
            (λ k live job p. IsFresh-of_live platform seconds now n job (live job p))
            (each-IsLive platform seconds now n order r s found ran),
        λ k job p fresh.
            each_untouched platform seconds now n order k r s found job ran p
              (live_of_IsFresh platform seconds now n job fresh),
      )
]
