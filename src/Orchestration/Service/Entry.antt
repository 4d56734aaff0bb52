-- ===== src/Orchestration/Service/Entry.antt =====
-- orchestration/service.py: the start of a run, and the decisions of a person on a node. Each ends
-- in the loop, with its fuel.
use autonomous_enterprise_ai.Base.{
  ℕ, String, Bool, true, false, not, Option, none, some, List, [], ◌∷◌, map, pure, throw, raise_if,
  ◌>>=◌, ◌>>◌, if◌then◌else◌,
}
use Prim.Native.String.{◌++◌}
use autonomous_enterprise_ai.Base.Dict.{keys}
use autonomous_enterprise_ai.Base.Text.{contains}
use autonomous_enterprise_ai.Json.{Fields, null, bool, str, end, field, put, or_null}
use autonomous_enterprise_ai.Platform.{Platform}
use autonomous_enterprise_ai.Runs.Errors.{value_error, orchestration_error}
use autonomous_enterprise_ai.Runs.Models.{RunStatus, GraphNodeStatus, GraphNodeRecord}
use autonomous_enterprise_ai.Runs.Repository.{Repo, get_run, update_status, utc_now}
use autonomous_enterprise_ai.Runs.History.{upsert_graph_node, get_graph_node}
use autonomous_enterprise_ai.Runs.Checkpoints.{save_checkpoint}
use autonomous_enterprise_ai.Orchestration.Graph.{
  ExecutionNode, ExecutionGraph, Verdict, valid, validate,
}
use autonomous_enterprise_ai.Orchestration.State.{build_initial_state, is_failed, is_waiting}
use autonomous_enterprise_ai.Orchestration.Service.{
  OrchestratorService, OrchestrationResult, refresh_state_from_nodes, load_state, result,
  record_event, timestamp,
}
use autonomous_enterprise_ai.Orchestration.Service.Execution.{set_in, save_refreshed}
use autonomous_enterprise_ai.Orchestration.Service.Resume.{resume_run}

-- GraphValidationError is a ValueError.
abbrev pub raise_invalid : Verdict → Repo (Unit {0})
raise_invalid valid = pure tt
raise_invalid _ = throw (value_error "graph")

-- Some node's agent is not there.
abbrev pub is_missing_agent : List String → List ExecutionNode → Bool
is_missing_agent available [] = false
is_missing_agent available (node ∷ nodes) =
    if contains node.agent available then is_missing_agent available nodes else true

unfoldable pub new_node : (run_id : String) (now : ℕ) → ExecutionNode → GraphNodeRecord
new_node run_id now node = record {
  ident = node.ident;
  run_id = run_id;
  agent_type = node.agent;
  status = GraphNodeStatus.pending;
  depends_on = node.depends_on;
  required_tools = node.required_tools;
  expected_artifacts = node.expected_artifacts;
  retry_count = 0;
  created_at = now;
  updated_at = now;
  started_at = none;
  finished_at = none;
}

unfoldable pub upsert_each : List GraphNodeRecord → Repo (Unit {0})
upsert_each [] = pure tt
upsert_each (node ∷ nodes) = do upsert_graph_node node; upsert_each nodes

abbrev decision_text : Bool → String
decision_text true = "approved"
decision_text false = "denied"

module _ (platform : Platform) (service : OrchestratorService) where
  unfoldable pub execute_run :
      (fuel : ℕ) (run_id : String) → ExecutionGraph → Repo (Option OrchestrationResult)
  execute_run fuel run_id graph = do
    run ← get_run run_id
    raise_invalid (validate service.agent_types graph)
    raise_if (is_missing_agent (keys service.agents) graph.nodes) (orchestration_error "agents")
    now ← utc_now platform
    upsert_each (map (new_node run.ident now) graph.nodes)
    save_checkpoint platform run.ident (build_initial_state run graph)
    update_status platform run.ident RunStatus.running none
    resume_run platform service run.ident fuel

  -- What follows the denial of a node.
  unfoldable pub deny_node :
      (run_id node_id : String) → GraphNodeRecord → Fields → Repo OrchestrationResult
  deny_node run_id node_id node state = do
    finished ← utc_now platform
    updated ← utc_now platform
    upsert_graph_node (record node {
      status = GraphNodeStatus.failed;
      finished_at = some finished;
      updated_at = updated;
    })
    refreshed ← refresh_state_from_nodes run_id state
    save_checkpoint platform run_id refreshed
    update_status platform run_id RunStatus.failed (some ("Approval denied for node: " ++ node_id))
    result run_id RunStatus.failed refreshed

  unfoldable pub approve_node :
      (fuel : ℕ) (run_id node_id : String) (approved : Bool) (comment : Option String)
      → Repo (Option OrchestrationResult)
  approve_node fuel run_id node_id approved comment = do
    loaded ← load_state run_id
    node ← get_graph_node run_id node_id
    raise_if (not (is_waiting node.status)) (orchestration_error node_id)
    let decision = decision_text approved
    decided ← set_in platform service "approvals" node_id (str decision) loaded
    let state = put "waiting_for_approval_node_id" null decided
    now ← timestamp platform
    record_event platform run_id node_id "approval_decision" (
        field "agent" (str node.agent_type) (
          field "approved" (bool approved) (
            field "comment" (or_null comment)
              (field "decision" (str decision) (field "timestamp" now end)))))
    if not approved
        then (do answer ← deny_node run_id node_id node state; pure (some answer))
        else do
          updated ← utc_now platform
          upsert_graph_node (record node { status = GraphNodeStatus.pending; updated_at = updated })
          save_refreshed platform service run_id state
          resume_run platform service run_id fuel

  unfoldable pub retry_failed_node :
      (fuel : ℕ) (run_id node_id : String) → Repo (Option OrchestrationResult)
  retry_failed_node fuel run_id node_id = do
    state ← load_state run_id
    node ← get_graph_node run_id node_id
    raise_if (not (is_failed node.status)) (orchestration_error node_id)
    updated ← utc_now platform
    upsert_graph_node (record node {
      status = GraphNodeStatus.pending;
      retry_count = 0;
      finished_at = none;
      updated_at = updated;
    })
    save_refreshed platform service run_id state
    resume_run platform service run_id fuel
