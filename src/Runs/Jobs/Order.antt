-- ===== src/Runs/Jobs/Order.antt =====
-- runs/repository.py: which job `claim_next_workflow_job` takes.
use mathlib.Core.List.{◌++◌}
use autonomous_enterprise_ai.Base.{
  String, ◌≡◌, refl, ap, ◌≢◌, ◌⊎◌, inl, inr, true, false, Option, none, some, List, [], ◌∷◌,
  Bool-cases, Option-cases, All, return,
}
use mathlib.Core.List.{Memᴰ}
use autonomous_enterprise_ai.Base.Dict.{lookup}
use autonomous_enterprise_ai.Platform.{Platform}
use autonomous_enterprise_ai.Runs.Models.{WorkflowJobRecord}
use autonomous_enterprise_ai.Runs.Repository.{Repository}
use autonomous_enterprise_ai.Runs.Jobs.Records.{normalized_name}
use autonomous_enterprise_ai.Runs.Jobs.Queue.{
  claim, claim_first, recover_if_stale, claim_next_workflow_job, is_claimable,
}
use autonomous_enterprise_ai.Runs.Jobs.Invariant.{IsValid}

-- The job under the identifier is not one that the claim looks for.
abbrev pub IsSkipped : Option String → Repository → String → Type 0
IsSkipped name r job_id =
    (job : WorkflowJobRecord) × (lookup job_id r.workflow_jobs ≡ some job)
    × (is_claimable name job ≡ false)

-- The first job in the order that is queued under the name.
pub record IsFirst (name : Option String) (r : Repository) (order : List String) (job_id : String)
    (job : WorkflowJobRecord) : Type 0 where
  pub before : List String
  pub rest : List String
  pub split : order ≡ before ++ job_id ∷ rest
  pub skipped : All (IsSkipped name r) before
  pub present : lookup job_id r.workflow_jobs ≡ some job
  pub claimable : is_claimable name job ≡ true

module _ (platform : Platform) (name : Option String) (worker_id : String) (r : Repository) where
  claim_first_cases :
      (order : List String)
      → ((k : String) → Memᴰ k order → lookup k r.workflow_jobs ≢ none)
      → All (IsSkipped name r) order
          × (claim_first platform name worker_id order r ≡ (return none, r))
        ⊎ ((job_id : String) × (job : WorkflowJobRecord) × IsFirst name r order job_id job
            × (claim_first platform name worker_id order r ≡ claim platform job_id job worker_id r))
  unfolding claim_first
  claim_first_cases [] listed = inl (tt, refl)
  claim_first_cases (k ∷ order) listed = elim (Option-cases (lookup k r.workflow_jobs)) [
    | inl e ↦ absurd (listed k (Memᴰ.head refl) e)
    | inr (job, e) ↦ elim (Bool-cases (is_claimable name job)) [
      | inl t ↦ inr (
        k,
        job,
        record {
          before = [];
          rest = order;
          split = refl;
          skipped = tt;
          present = e;
          claimable = t;
        },
        rw (e, t),
      )
      | inr f ↦ elim (claim_first_cases order (λ j m. listed j (Memᴰ.tail m))) [
        | inl (all, none_left) ↦ inl (((job, e, f), all), rw (e, f) none_left)
        | inr (j, other, first, same) ↦ inr (
          j,
          other,
          record {
            before = k ∷ first.before;
            rest = first.rest;
            split = ap (◌∷◌ k) first.split;
            skipped = ((job, e, f), first.skipped);
            present = first.present;
            claimable = first.claimable;
          },
          rw (e, f) same,
        )
      ]
    ]
  ]

-- With valid jobs and no recovery asked for, `claim_next_workflow_job` never raises. Either no job
-- in the order is queued under the name, and it returns nothing and changes nothing; or it claims,
-- for the worker, the first job in the order of enqueueing that is queued under the name.
pub claim_next-IsFirst :
    (platform : Platform) (worker_id : String) (name : Option String) (r : Repository)
    → IsValid r
    → All (IsSkipped (normalized_name name) r) r.workflow_job_order
        × (claim_next_workflow_job platform worker_id name none r ≡ (return none, r))
      ⊎ ((job_id : String) × (job : WorkflowJobRecord) × IsFirst
            (normalized_name name)
            r
            r.workflow_job_order
            job_id
            job
          × (claim_next_workflow_job platform worker_id name none r
              ≡ claim platform job_id job worker_id r))
unfolding claim_next_workflow_job recover_if_stale
claim_next-IsFirst platform worker_id name r c =
    claim_first_cases platform (normalized_name name) worker_id r r.workflow_job_order c.listed
