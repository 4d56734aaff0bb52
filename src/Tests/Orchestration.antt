-- ===== src/Tests/Orchestration.antt =====
-- orchestration/service.py: a run of two nodes with one agent, and the theorems at it.
use autonomous_enterprise_ai.Base.{
  ◌≡◌, ◌≢◌, refl, String, false, none, List, [], ◌∷◌, All, return, pure, arith, subst,
}
use autonomous_enterprise_ai.Base.Dict.{lookup, insert}
use autonomous_enterprise_ai.Base.Text.{contains, is_space, strip}
use autonomous_enterprise_ai.Json.{
  Value, Fields, null, str, arr, obj, nil, item, end, field, get, dict_list, field_names, is_truthy,
  put, set_default, text_list, update,
}
use autonomous_enterprise_ai.Runs.Models.{GraphNodeStatus, GraphNodeRecord, RunStatus}
use autonomous_enterprise_ai.Runs.Repository.{Repository, update_status}
use autonomous_enterprise_ai.Security.Policy.{
  ToolPermission, ToolPermissionLevel, ToolRiskLevel, evaluate, build_context, matching_rules,
  decide, highest_priority_rule, decision_from_permission,
}
use autonomous_enterprise_ai.Orchestration.Service.{
  OrchestrationResult, OrchestratorService, Agent, dict_at, plan_item, plan_of, find_item,
  known_artifacts, all_texts, extension, record_event, enriched, timestamp, load_state,
  refresh_state_from_nodes, ordered_nodes, nodes_by_id, pick, statuses_of, result,
}
use autonomous_enterprise_ai.Orchestration.Service.Resume.{
  resume_run, with_nodes, stop_with, rounds, round,
}
use autonomous_enterprise_ai.Orchestration.Service.Authorization.{
  authorize_node_tools, authorize_tools, task_of, evaluate_tools, record_audits,
  record_tool_audit_event, audit_payload,
}
use autonomous_enterprise_ai.Orchestration.Service.Keeps.{KeepsNodes}
use autonomous_enterprise_ai.Orchestration.Service.Keeps.Tools.{LeavesNodes}
use autonomous_enterprise_ai.Orchestration.Service.Work.{work, are_distinct}
use autonomous_enterprise_ai.Orchestration.Service.Allowed.{IsAllowed, authorize-IsAllowed}
use autonomous_enterprise_ai.Orchestration.Service.Termination.{resume_run-ends}
use autonomous_enterprise_ai.Orchestration.Service.Context.{
  policy_context_for_tool, find_artifacts, find_artifact, first_value, merged_metadata,
  metadata_is_sensitive, tool_context,
}
use autonomous_enterprise_ai.Orchestration.Service.Decisions.{security_output, summarize_tool_input}
use autonomous_enterprise_ai.Runs.History.{add_event, list_graph_nodes}
use autonomous_enterprise_ai.Runs.Checkpoints.{get_checkpoint, save_checkpoint}
use autonomous_enterprise_ai.Orchestration.State.{sync_state_from_node_statuses, ids_with}
use autonomous_enterprise_ai.Orchestration.Service.Completed.{resume_run-HasCompleted}
use autonomous_enterprise_ai.Orchestration.Service.Reports.{HasCompleted}
use autonomous_enterprise_ai.Security.Policy.Contexts.{context_dump, sorted_set}
use autonomous_enterprise_ai.Redaction.{
  redact_fields, redact_value, redact_items, redact_text, redact_optional, is_sensitive_key,
}
use autonomous_enterprise_ai.Orchestration.Graph.{ExecutionGraph}
use autonomous_enterprise_ai.Orchestration.Service.Entry.{execute_run}
use autonomous_enterprise_ai.Orchestration.Service.Started.{execute_run-ends}
use autonomous_enterprise_ai.Tests.Samples.{run_1, plain, with_run}

abbrev query : ToolPermission
query = record {
  tool = "sql_query";
  permission_level = ToolPermissionLevel.read_only;
  risk = ToolRiskLevel.low;
  description = "Read tables.";
  approval_required = false;
  blocked = false;
  destructive = false;
}

abbrev worker : Agent
worker given = pure (record {
  status = "succeeded";
  summary = given.task;
  artifacts = [];
  events = [];
  metrics = end;
  errors = [];
})

abbrev service : OrchestratorService
service = record {
  agent_types = "sql" ∷ [];
  agents = ("sql", worker) ∷ [];
  max_attempts = 2;
  tool_permissions = record { permissions = ("sql_query", query) ∷ []; rules = [] };
  error_name = λ e. "Error";
  error_text = λ e. "failed";
  elapsed_ms = λ started now. null;
}

abbrev node : String → GraphNodeStatus → List String → GraphNodeRecord
node ident status depends_on = record {
  ident = ident;
  run_id = "run_1";
  agent_type = "sql";
  status = status;
  depends_on = depends_on;
  required_tools = "sql_query" ∷ [];
  expected_artifacts = [];
  retry_count = 0;
  created_at = 0;
  updated_at = 0;
  started_at = none;
  finished_at = none;
}

abbrev first : GraphNodeRecord
first = node "load" GraphNodeStatus.pending []

abbrev second : GraphNodeRecord
second = node "report" GraphNodeStatus.pending ("load" ∷ [])

abbrev plan_entry : String → Value
plan_entry ident = obj (field "id" (str ident) (field "task" (str "analyse") end))

abbrev state : Fields
state = field "plan" (arr (item (plan_entry "load") (item (plan_entry "report") nil))) (
    field "agent_outputs" (obj end) (
      field "approvals" (obj end) (
        field "artifacts" (obj end) (
          field "errors" (obj end) (
            field "completed_node_ids" (arr nil) (
              field "failed_node_ids" (arr nil)
                (field "waiting_for_approval_node_id" null end)))))))

abbrev start : Repository
start = record with_run {
  graph_nodes = ("run_1", first ∷ second ∷ []) ∷ [];
  checkpoints =
      (
        "run_1",
        record { run_id = "run_1"; state = state; version = 1; created_at = 0; updated_at = 0 },
      )
      ∷ [];
}

service-LeavesNodes : LeavesNodes service
unfolding lookup
service-LeavesNodes agent_type agent there given =
    let same : worker ≡ agent = ground (arith, there) in
    subst (λ a. KeepsNodes (a given)) same (record { at = λ r. refl })

resume_run-ends_example : (resume_run plain service "run_1" 5 start).0 ≢ return none
unfolding lookup are_distinct contains work
resume_run-ends_example =
    resume_run-ends plain service "run_1" 5 start (first ∷ second ∷ []) service-LeavesNodes refl
      (refl, (refl, tt)) refl (omega arith)

authorize-IsAllowed_example : All (IsAllowed plain service first state start) ("sql_query" ∷ [])
unfolding authorize_node_tools authorize_tools task_of evaluate_tools record_audits
    record_tool_audit_event audit_payload dict_at plan_item plan_of find_item known_artifacts
    all_texts record_event enriched timestamp get dict_list field_names is_truthy put set_default
    text_list update contains is_space strip lookup insert policy_context_for_tool find_artifacts
    find_artifact first_value merged_metadata metadata_is_sensitive tool_context security_output
    summarize_tool_input evaluate build_context matching_rules decide highest_priority_rule
    decision_from_permission add_event redact_fields redact_value redact_items is_sensitive_key
    redact_text extension context_dump sorted_set
authorize-IsAllowed_example =
    authorize-IsAllowed plain service first state start
      (authorize_node_tools plain service first state start).1 refl

abbrev finished : Repository
finished = record start {
  graph_nodes =
      (
        "run_1",
        node "load" GraphNodeStatus.completed []
            ∷ node "report" GraphNodeStatus.completed ("load" ∷ [])
            ∷ [],
      )
      ∷ [];
}

abbrev completed_result : OrchestrationResult
completed_result = record {
  run_id = "run_1";
  status = RunStatus.completed;
  state = put "waiting_for_approval_node_id" null (
      put "failed_node_ids" (arr nil) (
        put "completed_node_ids" (arr (item (str "load") (item (str "report") nil)))
          (put "pending_node_ids" (arr nil) state)));
  completed_node_ids = arr (item (str "load") (item (str "report") nil));
  failed_node_ids = arr nil;
  waiting_for_approval_node_id = null;
}

resume_run-HasCompleted_example :
    HasCompleted "run_1" completed_result
      (resume_run plain service "run_1" 1 finished).1.graph_nodes
unfolding resume_run load_state get_checkpoint lookup insert update_status rounds round
    refresh_state_from_nodes ordered_nodes list_graph_nodes plan_of dict_list get put nodes_by_id
    pick sync_state_from_node_statuses ids_with statuses_of with_nodes stop_with save_checkpoint
    result is_truthy redact_fields redact_value redact_items is_sensitive_key redact_text
    redact_optional
resume_run-HasCompleted_example =
    resume_run-HasCompleted plain service "run_1" 1 finished
      (resume_run plain service "run_1" 1 finished).1 completed_result refl refl

abbrev one_node : ExecutionGraph
one_node = record {
  run_id = "run_1";
  nodes =
      record {
        ident = "load";
        agent = "sql";
        task = "analyse";
        depends_on = [];
        required_tools = "sql_query" ∷ [];
        expected_artifacts = [];
        risk = "low";
      }
      ∷ [];
}

execute_run-ends_example : (execute_run plain service 3 "run_1" one_node with_run).0 ≢ return none
unfolding lookup work are_distinct
execute_run-ends_example =
    execute_run-ends plain service 3 "run_1" one_node with_run run_1 [] service-LeavesNodes refl
      refl tt refl (omega arith)
