-- ===== src/Runs/Jobs/Invariant.antt =====
-- runs/repository.py: what holds of the workflow jobs between two calls.
pub mod Outcomes
pub mod Failures
pub mod Claims
pub mod Steps
use autonomous_enterprise_ai.Base.{
  ℕ, suc, ◌+◌, ◌≤◌, ◌<◌, max, String, ◌≡◌, refl, ◌≢◌, inl, inr, Bool, true, false, Option, none,
  some, List, [], ◌∷◌, arith, Bool-cases, Option-cases, eq_iff, ◌==◌, if◌then◌else◌, Result, return,
  raise, ◌>>=◌, ◌>>◌, Action, and_then, raise_if,
}
use mathlib.Core.List.{Memᴰ, ◌++◌}
use autonomous_enterprise_ai.Base.Dict.{Dict, lookup, insert, lookup-insert}
use autonomous_enterprise_ai.Platform.{Platform}
use autonomous_enterprise_ai.Runs.Errors.{Error}
use autonomous_enterprise_ai.Runs.JobStatus
use autonomous_enterprise_ai.Runs.JobStatus.{WorkflowJobStatus}
use autonomous_enterprise_ai.Runs.Models.{RunRecord, WorkflowJobRecord}
use autonomous_enterprise_ai.Runs.Repository.{Repository, Repo, get_run, set_run}

-- A job stands under its own identifier and within its attempts. A queued job has one left, and a
-- running job is in an attempt, with a worker and a heartbeat.
pub record IsValidJob (runs : Dict RunRecord) (job_id : String) (job : WorkflowJobRecord)
    : Type 0 where
  pub named : job.ident ≡ job_id
  pub within : job.attempt_count ≤ job.max_attempts
  pub positive : 1 ≤ job.max_attempts
  pub attempt_left : JobStatus.is_queued job.status ≡ true → job.attempt_count < job.max_attempts
  pub attempted : JobStatus.is_running job.status ≡ true → 1 ≤ job.attempt_count
  pub owned : JobStatus.is_running job.status ≡ true → job.worker_id ≢ none
  pub alive : JobStatus.is_running job.status ≡ true → job.heartbeat_at ≢ none
  pub has_run : lookup job.run_id runs ≢ none

pub record IsConsistent (runs : Dict RunRecord) (jobs : Dict WorkflowJobRecord)
    (order : List String) : Type 0 where
  pub valid :
      (k : String) (job : WorkflowJobRecord) → lookup k jobs ≡ some job → IsValidJob runs k job
  pub listed : (k : String) → Memᴰ k order → lookup k jobs ≢ none

abbrev pub IsValid : Repository → Type 0
IsValid r = IsConsistent r.runs r.workflow_jobs r.workflow_job_order

pub insert-IsConsistent :
    (runs : Dict RunRecord) (jobs : Dict WorkflowJobRecord) (order : List String) (k : String)
    (job : WorkflowJobRecord)
    → IsConsistent runs jobs order
    → IsValidJob runs k job
    → IsConsistent runs (insert k job jobs) order
insert-IsConsistent runs jobs order k job c v = record {
  valid = λ j other e. elim (Bool-cases (k == j)) [
    | inl same ↦ ground (arith, lookup-insert k j job jobs, eq_iff k j)
    | inr other_key ↦ ground (arith, lookup-insert k j job jobs, c.valid j other)
  ];
  listed = λ j m. ground (arith, lookup-insert k j job jobs, c.listed j m);
}

pub set_run-IsConsistent :
    (runs : Dict RunRecord) (jobs : Dict WorkflowJobRecord) (order : List String) (k : String)
    (run : RunRecord)
    → IsConsistent runs jobs order
    → IsConsistent (insert k run runs) jobs order
set_run-IsConsistent runs jobs order k run c = record {
  valid = λ j job e.
      ground (arith, c.valid j job e, lookup-insert k job.run_id run runs, eq_iff k job.run_id);
  listed = c.listed;
}

-- One more job at the end of the order.
pub append-IsConsistent :
    (runs : Dict RunRecord) (jobs : Dict WorkflowJobRecord) (order : List String) (k : String)
    → IsConsistent runs jobs order
    → lookup k jobs ≢ none
    → IsConsistent runs jobs (order ++ k ∷ [])
append-IsConsistent runs jobs order k c present = record {
  valid = c.valid;
  listed = λ j m. listed_after order c.listed j m;
}
  where
    listed_after :
        (xs : List String)
        → ((j : String) → Memᴰ j xs → lookup j jobs ≢ none)
        → (j : String) → Memᴰ j (xs ++ k ∷ [])
        → lookup j jobs ≢ none
    listed_after [] h j (Memᴰ.head e) = rw e present
    listed_after [] h j (Memᴰ.tail m) = elim m [ ]
    listed_after (x ∷ xs) h j (Memᴰ.head e) = h j (Memᴰ.head e)
    listed_after (x ∷ xs) h j (Memᴰ.tail m) = listed_after xs (λ i n. h i (Memᴰ.tail n)) j m

-- The action keeps the invariant, whether it returns or raises.
abbrev pub Keeps {ℓ} : {A : Type ℓ} → Action Repository Error A → Type 0
Keeps m = (r : Repository) → IsValid r → IsValid (m r).1

pub Keeps-bind {ℓ κ} :
    {A : Type ℓ} {B : Type κ} (m : Action Repository Error A) (f : A → Action Repository Error B)
    → Keeps m
    → ((a : A) → Keeps (f a))
    → Keeps (m >>= f)
Keeps-bind {A} {B} m f km kf r c = after (m r).0 (m r).1 (km r c)
  where
    after : (x : Result Error A) (s : Repository) → IsValid s → IsValid (and_then x f s).1
    after (return a) s v = kf a s v
    after (raise e) s v = v

-- `if test: raise e`, and then the rest.
pub Keeps-raise_if {ℓ} :
    {A : Type ℓ} (b : Bool) (e : Error) (m : Action Repository Error A)
    → (b ≡ false → Keeps m)
    → Keeps (raise_if b e >> m)
Keeps-raise_if true e m km r c = c
Keeps-raise_if false e m km r c = km refl r c
