-- ===== src/Tests/Deployments.antt =====
-- deployments/approvals.py: a decision on a job that is no deployment.
use autonomous_enterprise_ai.Base.{◌≡◌, refl, String, true, none, some, raise}
use autonomous_enterprise_ai.Base.Dict.{lookup}
use autonomous_enterprise_ai.Runs.Errors.{deployment_approval_error}
use autonomous_enterprise_ai.Deployments.Approvals.{decide_deployment_approval}
use autonomous_enterprise_ai.Deployments.Approvals.Refusals.{decision_refused}
use autonomous_enterprise_ai.Runs.Repository.{Repository}
use autonomous_enterprise_ai.Tests.Samples.{plain, run_1, with_job, queued_job}

abbrev workflow : Repository
workflow = with_job queued_job

open_run : lookup "run_1" workflow.runs ≡ some run_1
unfolding lookup
open_run = refl

present_job : lookup "a" workflow.workflow_jobs ≡ some queued_job
unfolding lookup
present_job = refl

decision_refused_example :
    (message : String) × (decide_deployment_approval plain "run_1" "a" true "lead" none workflow
      ≡ (raise (deployment_approval_error message), workflow))
decision_refused_example =
    decision_refused plain workflow "run_1" "a" open_run present_job refl true "lead" none
