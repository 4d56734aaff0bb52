-- ===== src/Runs/Jobs/Invariant/Steps.antt =====
-- runs/repository.py: the histories of calls on workflow jobs, and what holds after each.
use autonomous_enterprise_ai.Base.{ℕ, String, Bool, Option, List, [], ◌∷◌}
use autonomous_enterprise_ai.Json.{Fields}
use autonomous_enterprise_ai.Platform.{Platform}
use autonomous_enterprise_ai.Runs.JobStatus.{WorkflowJobStatus}
use autonomous_enterprise_ai.Runs.Repository.{Repository}
use autonomous_enterprise_ai.Runs.Jobs.Queue.{
  enqueue_workflow_job, claim_next_workflow_job, claim_workflow_job,
}
use autonomous_enterprise_ai.Runs.Jobs.Outcomes.{
  heartbeat_workflow_job, complete_workflow_job, update_workflow_job_result,
  retry_dead_letter_workflow_job, dismiss_dead_letter_workflow_job,
}
use autonomous_enterprise_ai.Runs.Jobs.Recovery.{fail_workflow_job, recover_timed_out_workflow_jobs}
use autonomous_enterprise_ai.Runs.Jobs.Invariant.{IsValid}
use autonomous_enterprise_ai.Runs.Jobs.Invariant.Outcomes.{
  heartbeat-IsValid, complete-IsValid, update_result-IsValid, retry_dead_letter-IsValid,
  dismiss-IsValid,
}
use autonomous_enterprise_ai.Runs.Jobs.Invariant.Failures.{fail-Keeps, recover_timed_out-Keeps}
use autonomous_enterprise_ai.Runs.Jobs.Invariant.Claims.{
  enqueue-Keeps, claim_next-Keeps, claim_one-Keeps,
}

-- A call of a method on workflow jobs, with its arguments.
pub data Call : Type 0 where
  enqueue :
      (run_id name : String) (payload : Fields) (max_attempts : ℕ) (job_id : Option String)
      (status : WorkflowJobStatus)
      → Call
  claim_next : (worker_id : String) (name : Option String) (stale : Option ℕ) → Call
  claim_one : (job_id worker_id : String) (stale : Option ℕ) → Call
  heartbeat : (job_id worker_id : String) → Call
  complete : (job_id : String) (worker_id : Option String) → Call
  fail : (job_id summary : String) (retry : Bool) (worker_id : Option String) → Call
  update_result :
      (job_id : String) (status : WorkflowJobStatus) (payload : Option Fields)
      (error_summary : Option String)
      → Call
  retry_dead_letter : (job_id : String) (reason : Option String) → Call
  dismiss_dead_letter : (job_id : String) (reason : Option String) → Call
  recover_timed_out : (seconds : ℕ) (name : Option String) (now : Option ℕ) → Call

module _ (platform : Platform) where
  -- The state after the call. An exception goes to the caller and leaves the state as it is.
  unfoldable pub after : Call → Repository → Repository
  after (enqueue run_id name payload max_attempts job_id status) r =
      (enqueue_workflow_job platform run_id name payload max_attempts job_id status r).1
  after (claim_next worker_id name stale) r =
      (claim_next_workflow_job platform worker_id name stale r).1
  after (claim_one job_id worker_id stale) r =
      (claim_workflow_job platform job_id worker_id stale r).1
  after (heartbeat job_id worker_id) r = (heartbeat_workflow_job platform job_id worker_id r).1
  after (complete job_id worker_id) r = (complete_workflow_job platform job_id worker_id r).1
  after (fail job_id summary retry worker_id) r =
      (fail_workflow_job platform job_id summary retry worker_id r).1
  after (update_result job_id status payload error_summary) r =
      (update_workflow_job_result platform job_id status payload error_summary r).1
  after (retry_dead_letter job_id reason) r =
      (retry_dead_letter_workflow_job platform job_id reason r).1
  after (dismiss_dead_letter job_id reason) r =
      (dismiss_dead_letter_workflow_job platform job_id reason r).1
  after (recover_timed_out seconds name now) r =
      (recover_timed_out_workflow_jobs platform seconds name now r).1

  unfoldable pub run_calls : List Call → Repository → Repository
  run_calls [] r = r
  run_calls (call ∷ calls) r = run_calls calls (after call r)

  pub after-IsValid : (call : Call) (r : Repository) → IsValid r → IsValid (after call r)
  unfolding after
  after-IsValid (enqueue run_id name payload n job_id status) r c =
      enqueue-Keeps platform run_id name payload n job_id status r c
  after-IsValid (claim_next worker_id name stale) r c =
      claim_next-Keeps platform worker_id name stale r c
  after-IsValid (claim_one job_id worker_id stale) r c =
      claim_one-Keeps platform job_id worker_id stale r c
  after-IsValid (heartbeat job_id worker_id) r c = heartbeat-IsValid platform job_id r c worker_id
  after-IsValid (complete job_id worker_id) r c = complete-IsValid platform job_id r c worker_id
  after-IsValid (fail job_id summary retry worker_id) r c =
      fail-Keeps platform job_id summary retry worker_id r c
  after-IsValid (update_result job_id status payload error_summary) r c =
      update_result-IsValid platform job_id r c status payload error_summary
  after-IsValid (retry_dead_letter job_id reason) r c =
      retry_dead_letter-IsValid platform job_id r c reason
  after-IsValid (dismiss_dead_letter job_id reason) r c = dismiss-IsValid platform job_id r c reason
  after-IsValid (recover_timed_out seconds name now) r c =
      recover_timed_out-Keeps platform seconds name now r c

-- From a state in which the jobs are valid, every sequence of calls of the ten methods that write
-- workflow jobs, with any arguments and also where calls raise, leads to a state in which they are
-- valid: no job passes its attempts, a queued job has one left, a running job has a worker, a
-- heartbeat and an attempt, each job has a run, and each identifier in the order has a job.
pub run_calls-IsValid :
    (platform : Platform) (calls : List Call) (r : Repository)
    → IsValid r
    → IsValid (run_calls platform calls r)
unfolding run_calls
run_calls-IsValid platform [] r c = c
run_calls-IsValid platform (call ∷ calls) r c =
    run_calls-IsValid platform calls (after platform call r) (after-IsValid platform call r c)
