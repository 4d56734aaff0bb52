-- ===== src/Orchestration/State.antt =====
-- orchestration/state.py: the state of a run as the dictionary that the checkpoints hold.
use autonomous_enterprise_ai.Base.{String, Bool, true, false, List, [], ◌∷◌, map, if◌then◌else◌}
use autonomous_enterprise_ai.Base.Dict.{Dict}
use autonomous_enterprise_ai.Json.{
  Value, Items, Fields, null, str, arr, obj, nil, item, end, field, put, texts,
}
use autonomous_enterprise_ai.Runs.Models.{RunRecord, GraphNodeStatus}
use autonomous_enterprise_ai.Orchestration.Graph.{ExecutionNode, ExecutionGraph, idents}
use autonomous_enterprise_ai.Agents.{AgentOutput}

unfoldable pub node_to_plan_item : ExecutionNode → Fields
node_to_plan_item node = field "id" (str node.ident) (
    field "agent" (str node.agent) (
      field "task" (str node.task) (
        field "depends_on" (arr (texts node.depends_on)) (
          field "required_tools" (arr (texts node.required_tools)) (
            field "expected_artifacts" (arr (texts node.expected_artifacts))
              (field "risk" (str node.risk) end))))))

abbrev pub dicts : List Fields → Items
dicts [] = nil
dicts (fs ∷ rest) = item (obj fs) (dicts rest)

unfoldable pub build_initial_state : RunRecord → ExecutionGraph → Fields
build_initial_state run graph = field "run_id" (str run.ident) (
    field "task" (str run.task) (
      field "plan" (arr (dicts (map node_to_plan_item graph.nodes))) (
        field "pending_node_ids" (arr (texts (idents graph.nodes))) (
          field "completed_node_ids" (arr nil) (
            field "failed_node_ids" (arr nil) (
              field "waiting_for_approval_node_id" null (
                field "agent_outputs" (obj end) (
                  field "artifacts" (obj end) (
                    field "approvals" (obj end)
                      (field "evaluation_results" (arr nil) (field "errors" (obj end) end)))))))))))

unfoldable pub output_to_state : AgentOutput → Fields
output_to_state output = field "status" (str output.status) (
    field "summary" (str output.summary) (
      field "artifacts" (arr (texts output.artifacts)) (
        field "events" (arr (dicts output.events))
          (field "metrics" (obj output.metrics) (field "errors" (arr (texts output.errors)) end)))))

abbrev pub is_pending : GraphNodeStatus → Bool
is_pending GraphNodeStatus.pending = true
is_pending _ = false

abbrev pub is_completed : GraphNodeStatus → Bool
is_completed GraphNodeStatus.completed = true
is_completed _ = false

abbrev pub is_failed : GraphNodeStatus → Bool
is_failed GraphNodeStatus.failed = true
is_failed _ = false

abbrev pub is_waiting : GraphNodeStatus → Bool
is_waiting GraphNodeStatus.waiting_for_approval = true
is_waiting _ = false

-- `[node_id for node_id, status in statuses.items() if test(status)]`
unfoldable pub ids_with : (GraphNodeStatus → Bool) → Dict GraphNodeStatus → List String
ids_with test [] = []
ids_with test ((node_id, status) ∷ statuses) =
    let rest = ids_with test statuses in if test status then node_id ∷ rest else rest

abbrev first_or_null : List String → Value
first_or_null [] = null
first_or_null (node_id ∷ rest) = str node_id

unfoldable pub sync_state_from_node_statuses : Fields → Dict GraphNodeStatus → Fields
sync_state_from_node_statuses state statuses =
    put "waiting_for_approval_node_id" (first_or_null (ids_with is_waiting statuses)) (
      put "failed_node_ids" (arr (texts (ids_with is_failed statuses))) (
        put "completed_node_ids" (arr (texts (ids_with is_completed statuses)))
          (put "pending_node_ids" (arr (texts (ids_with is_pending statuses))) state)))
