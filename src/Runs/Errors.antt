-- ===== src/Runs/Errors.antt =====
-- The exceptions of runs/repository.py and of its callers, with the identifier that the message
-- names. `key_error` and `type_error` are Python's
-- own.
use autonomous_enterprise_ai.Base.{String}

pub data Error : Type 0 where
  run_not_found : String → Error
  graph_node_not_found : String → Error
  artifact_not_found : String → Error
  run_checkpoint_not_found : String → Error
  workflow_job_not_found : String → Error
  workflow_job_ownership : String → Error
  workflow_job_state : String → Error
  orchestration_error : String → Error
  deployment_approval_error : String → Error
  value_error : String → Error
  key_error : String → Error
  type_error : String → Error
