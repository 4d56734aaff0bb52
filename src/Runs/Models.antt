-- ===== src/Runs/Models.antt =====
-- schemas/enums.py and runs/models.py. A time is a number of microseconds.
use autonomous_enterprise_ai.Base.{ℕ, String, Option, List}
use autonomous_enterprise_ai.Json.{Fields}
use autonomous_enterprise_ai.Runs.JobStatus.{WorkflowJobStatus}

pub data RunStatus : Type 0 where
  pending queued running waiting_for_approval completed failed : RunStatus

pub data GraphNodeStatus : Type 0 where
  pending running waiting_for_approval completed failed skipped : GraphNodeStatus

pub data ArtifactType : Type 0 where
  dataset schema_profile quality_report kpi_table chart dashboard report code evaluation
        deployment :
      ArtifactType

pub data AgentEventType : Type 0 where
  audit tool_call log evaluation approval_request approval_decision error : AgentEventType

pub record RunRecord : Type 0 where
  pub ident : String
  pub task : String
  pub status : RunStatus
  pub metadata : Fields
  pub created_at : ℕ
  pub updated_at : ℕ
  pub dataset_artifact_id : Option String
  pub trace_id : Option String
  pub error_summary : Option String

pub record WorkflowJobRecord : Type 0 where
  pub ident : String
  pub run_id : String
  pub workflow_name : String
  pub status : WorkflowJobStatus
  pub payload : Fields
  pub attempt_count : ℕ
  pub max_attempts : ℕ
  pub created_at : ℕ
  pub updated_at : ℕ
  pub worker_id : Option String
  pub error_summary : Option String
  pub started_at : Option ℕ
  pub finished_at : Option ℕ
  pub heartbeat_at : Option ℕ

pub record GraphNodeRecord : Type 0 where
  pub ident : String
  pub run_id : String
  pub agent_type : String
  pub status : GraphNodeStatus
  pub depends_on : List String
  pub required_tools : List String
  pub expected_artifacts : List String
  pub retry_count : ℕ
  pub created_at : ℕ
  pub updated_at : ℕ
  pub started_at : Option ℕ
  pub finished_at : Option ℕ

pub record ArtifactRecord : Type 0 where
  pub ident : String
  pub run_id : String
  pub type : ArtifactType
  pub uri : String
  pub metadata : Fields
  pub source_artifact_ids : List String
  pub created_at : ℕ
  pub producer_node_id : Option String
  pub content_type : Option String
  pub storage_backend : Option String
  pub storage_key : Option String
  pub size_bytes : Option ℕ

pub record AgentEventRecord : Type 0 where
  pub ident : String
  pub run_id : String
  pub node_id : String
  pub event_type : String
  pub payload : Fields
  pub created_at : ℕ

pub record RunCheckpointRecord : Type 0 where
  pub run_id : String
  pub state : Fields
  pub version : ℕ
  pub created_at : ℕ
  pub updated_at : ℕ
