-- ===== src/Orchestration/Service/Execution.antt =====
-- orchestration/service.py: the execution of one node.
use autonomous_enterprise_ai.Base.{
  ℕ, ◌+◌, String, Bool, true, false, Option, none, some, List, [], ◌∷◌, ltb, Result, return, raise,
  pure, ◌>>=◌, ◌>>◌, ◌==◌, if◌then◌else◌,
}
use Prim.Native.String.{◌++◌ as str_append}
use mathlib.Core.List.{◌++◌ as append}
use autonomous_enterprise_ai.Base.Dict.{lookup}
use autonomous_enterprise_ai.Base.Text.{is_blank}
use autonomous_enterprise_ai.Json.{
  Value, Fields, bool, num, str, arr, obj, end, field, get, put, texts, without, text_list,
}
use autonomous_enterprise_ai.Platform.{Platform}
use autonomous_enterprise_ai.Agents.{AgentInput, AgentOutput}
use autonomous_enterprise_ai.Runs.Errors.{Error, key_error, type_error}
use autonomous_enterprise_ai.Runs.Models.{GraphNodeStatus, GraphNodeRecord}
use autonomous_enterprise_ai.Runs.Repository.{Repo, found_or_raise, get_run, utc_now}
use autonomous_enterprise_ai.Runs.History.{upsert_graph_node}
use autonomous_enterprise_ai.Runs.Checkpoints.{save_checkpoint}
use autonomous_enterprise_ai.Orchestration.State.{output_to_state}
use autonomous_enterprise_ai.Orchestration.Service.{
  OrchestratorService, dict_at, known_artifacts, refresh_state_from_nodes, record_event,
  node_duration_ms, timestamp, node_status_name,
}
use autonomous_enterprise_ai.Orchestration.Service.Context.{display}
use autonomous_enterprise_ai.Orchestration.Service.Authorization.{authorize_node_tools, task_of}

-- `[approval] if approval else []`, of an entry that is a text.
abbrev approvals_given : Option Value → List String
approvals_given (some (str s)) = if is_blank s then [] else s ∷ []
approvals_given _ = []

-- `output.errors or [output.summary]`
abbrev errors_or_summary : AgentOutput → List String
errors_or_summary output = elim output.errors [ [] ↦ output.summary ∷ [] | e ∷ es ↦ e ∷ es ]

-- The texts of an entry of `errors`, or of a new one.
abbrev pub errors_so_far : Option Value → Option (List String)
errors_so_far none = some []
errors_so_far (some (arr xs)) = text_list xs
errors_so_far (some v) = none

module _ (platform : Platform) (service : OrchestratorService) where
  -- `except Exception` in `_call_agent`
  abbrev pub answer_or_failure : Result Error AgentOutput → Result Error AgentOutput
  answer_or_failure (return output) = return output
  answer_or_failure (raise e) = return (record {
    status = "failed";
    summary =
        str_append "Agent raised "
          (str_append (service.error_name e) (str_append ": " (service.error_text e)));
    artifacts = [];
    events = [];
    metrics = end;
    errors = service.error_text e ∷ [];
  })

  -- _call_agent
  unfoldable pub call_agent : GraphNodeRecord → Fields → Repo AgentOutput
  call_agent node state = do
    agent ← found_or_raise (key_error node.agent_type) (lookup node.agent_type service.agents)
    approvals ← dict_at "approvals" state
    task ← task_of platform state node.ident
    artifacts ← known_artifacts state
    let agent_input : AgentInput = record {
      run_id = node.run_id;
      node_id = node.ident;
      task = task;
      context = field "state" (obj state) end;
      artifacts = artifacts;
      approvals = approvals_given (get node.ident approvals);
    }
    λ r. let (answer, s) = agent agent_input r in (answer_or_failure answer, s)

  -- state[key][node_id] = value
  unfoldable pub set_in : (key node_id : String) → Value → Fields → Repo Fields
  set_in key node_id value state = do
    entries ← dict_at key state
    pure (put key (obj (put node_id value entries)) state)

  -- The refreshed state as the next checkpoint.
  unfoldable pub save_refreshed : (run_id : String) → Fields → Repo (Unit {0})
  save_refreshed run_id state = do
    refreshed ← refresh_state_from_nodes run_id state
    save_checkpoint platform run_id refreshed
    pure tt

  -- `str(event.get("event_type", AgentEventType.LOG))`
  abbrev event_type_of : Fields → String
  event_type_of event = elim (get "event_type" event) [ none ↦ "log" | some v ↦ display platform v ]

  -- The loop over the events of an output.
  unfoldable pub record_events : GraphNodeRecord → List Fields → Repo (Unit {0})
  record_events node [] = pure tt
  record_events node (event ∷ events) = do
    record_event platform node.run_id node.ident (event_type_of event) (without "event_type" event)
    record_events node events

  -- The records that the three ends of an attempt write.
  abbrev pub completed_node : GraphNodeRecord → (finished updated : ℕ) → GraphNodeRecord
  completed_node node finished updated = record node {
    status = GraphNodeStatus.completed;
    finished_at = some finished;
    updated_at = updated;
  }

  abbrev pub waiting_node : GraphNodeRecord → (updated : ℕ) → GraphNodeRecord
  waiting_node node updated = record node {
    status = GraphNodeStatus.waiting_for_approval;
    updated_at = updated;
  }

  abbrev pub status_after : (retryable : Bool) → GraphNodeStatus
  status_after true = GraphNodeStatus.pending
  status_after false = GraphNodeStatus.failed

  abbrev pub failed_node : GraphNodeRecord → (finished : Option ℕ) (updated : ℕ) → GraphNodeRecord
  failed_node node finished updated = record node {
    status = status_after (ltb (node.retry_count + 1) service.max_attempts);
    retry_count = node.retry_count + 1;
    finished_at = finished;
    updated_at = updated;
  }

  -- What `_complete_node` does after it reads the clock.
  unfoldable pub write_completed :
      (node completed : GraphNodeRecord) → Fields → AgentOutput → Repo GraphNodeStatus
  write_completed node completed state output = do
    with_output ← set_in "agent_outputs" node.ident (obj (output_to_state output)) state
    with_artifacts ← set_in "artifacts" node.ident (arr (texts output.artifacts)) with_output
    errors ← dict_at "errors" with_artifacts
    upsert_graph_node completed
    duration ← node_duration_ms platform service node
    now ← timestamp platform
    record_event platform node.run_id node.ident "log" (
        field "agent" (str node.agent_type) (
          field "message" (str "Node execution completed.") (
            field "summary" (str output.summary) (
              field "status" (str "completed") (
                field "artifacts" (arr (texts output.artifacts))
                  (field "duration_ms" duration (field "timestamp" now end)))))))
    save_refreshed node.run_id (put "errors" (obj (without node.ident errors)) with_artifacts)
    pure GraphNodeStatus.completed

  -- _complete_node
  unfoldable pub complete_node : GraphNodeRecord → Fields → AgentOutput → Repo GraphNodeStatus
  complete_node node state output = do
    finished ← utc_now platform
    updated ← utc_now platform
    write_completed node (completed_node node finished updated) state output

  -- What `_pause_for_approval` does after it reads the clock.
  unfoldable pub write_waiting :
      (node waiting : GraphNodeRecord) → Fields → AgentOutput → Repo GraphNodeStatus
  write_waiting node waiting state output = do
    with_output ← set_in "agent_outputs" node.ident (obj (output_to_state output)) state
    upsert_graph_node waiting
    duration ← node_duration_ms platform service node
    now ← timestamp platform
    record_event platform node.run_id node.ident "approval_request" (
        field "agent" (str node.agent_type) (
          field "summary" (str output.summary) (
            field "errors" (arr (texts output.errors)) (
              field "status" (str "waiting_for_approval")
                (field "duration_ms" duration (field "timestamp" now end))))))
    save_refreshed node.run_id (put "waiting_for_approval_node_id" (str node.ident) with_output)
    pure GraphNodeStatus.waiting_for_approval

  -- _pause_for_approval
  unfoldable pub pause_for_approval : GraphNodeRecord → Fields → AgentOutput → Repo GraphNodeStatus
  pause_for_approval node state output = do
    updated ← utc_now platform
    write_waiting node (waiting_node node updated) state output

  -- `None if retryable else utc_now()`
  abbrev pub time_unless : Bool → Repo (Option ℕ)
  time_unless true = pure none
  time_unless false = do now ← utc_now platform; pure (some now)

  -- What `_fail_node` does after it reads the clock.
  unfoldable pub write_failed :
      (node failed : GraphNodeRecord) (retryable : Bool)
      → Fields
      → AgentOutput
      → Repo GraphNodeStatus
  write_failed node failed retryable state output = do
    with_output ← set_in "agent_outputs" node.ident (obj (output_to_state output)) state
    errors ← dict_at "errors" with_output
    before ← found_or_raise (type_error "errors") (errors_so_far (get node.ident errors))
    let all_errors = append before (errors_or_summary output)
    upsert_graph_node failed
    duration ← node_duration_ms platform service node
    now ← timestamp platform
    record_event platform node.run_id node.ident "error" (
        field "agent" (str node.agent_type) (
          field "summary" (str output.summary) (
            field "errors" (arr (texts output.errors)) (
              field "status" (str (node_status_name failed.status)) (
                field "retryable" (bool retryable) (
                  field "retry_count" (num failed.retry_count)
                    (field "duration_ms" duration (field "timestamp" now end))))))))
    save_refreshed node.run_id
        (put "errors" (obj (put node.ident (arr (texts all_errors)) errors)) with_output)
    pure failed.status

  -- _fail_node
  unfoldable pub fail_node : GraphNodeRecord → Fields → AgentOutput → Repo GraphNodeStatus
  fail_node node state output = do
    let retryable = ltb (node.retry_count + 1) service.max_attempts
    finished ← time_unless retryable
    updated ← utc_now platform
    write_failed node (failed_node node finished updated) retryable state output

  -- The branch on the status of an output of the policy.
  unfoldable pub stop_node : GraphNodeRecord → Fields → AgentOutput → Repo GraphNodeStatus
  stop_node node state output =
      if output.status == "waiting_for_approval"
      then pause_for_approval node state output
      else fail_node node state output

  -- The branch on the status of an agent's output.
  unfoldable pub settle_node : GraphNodeRecord → Fields → AgentOutput → Repo GraphNodeStatus
  settle_node node state output =
      if output.status == "succeeded"
      then complete_node node state output
      else stop_node node state output

  -- What follows the authorization.
  unfoldable pub run_node : GraphNodeRecord → Fields → Option AgentOutput → Repo GraphNodeStatus
  run_node running state (some output) = do
    record_events running output.events
    stop_node running state output
  run_node running state none = do
    output ← call_agent running state
    record_events running output.events
    settle_node running state output

  abbrev pub running_node : GraphNodeRecord → (started : ℕ) → GraphNodeRecord
  running_node node started = record node {
    status = GraphNodeStatus.running;
    started_at = elim node.started_at [ none ↦ some started | some t ↦ some t ];
    updated_at = started;
  }

  -- _execute_node
  unfoldable pub execute_node : GraphNodeRecord → Fields → Repo GraphNodeStatus
  execute_node node state = do
    started ← utc_now platform
    get_run node.run_id
    let running = running_node node started
    upsert_graph_node running
    now ← timestamp platform
    record_event platform node.run_id node.ident "log" (
        field "agent" (str node.agent_type) (
          field "message" (str "Node execution started.") (
            field "attempt" (num (node.retry_count + 1))
              (field "status" (str "running") (field "timestamp" now end)))))
    save_refreshed node.run_id state
    security ← authorize_node_tools platform service running state
    run_node running state security
