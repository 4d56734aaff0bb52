-- ===== src/Orchestration/Service/Keeps/Tools.antt =====
-- orchestration/service.py: the authorization of tools and the call of an agent write no graph node.
use autonomous_enterprise_ai.Base.{◌≡◌, String, Bool, true, false, none, some, List, [], ◌∷◌}
use autonomous_enterprise_ai.Base.Dict.{lookup}
use autonomous_enterprise_ai.Json.{Value, Fields, str}
use autonomous_enterprise_ai.Platform.{Platform}
use autonomous_enterprise_ai.Agents.{AgentInput}
use autonomous_enterprise_ai.Runs.Models.{GraphNodeRecord}
use autonomous_enterprise_ai.Security.Policy.{ToolPolicyDecision}
use autonomous_enterprise_ai.Orchestration.Service.{OrchestratorService, Agent}
use autonomous_enterprise_ai.Orchestration.Service.Context.{
  find_artifact, find_artifacts, policy_context_for_tool,
}
use autonomous_enterprise_ai.Orchestration.Service.Authorization.{
  evaluate_tools, record_tool_audit_event, record_audits, as_text, task_of, authorize_tools,
  authorize_node_tools,
}
use autonomous_enterprise_ai.Orchestration.Service.Execution.{
  answer_or_failure, call_agent, set_in, save_refreshed, record_events, time_unless,
}
use autonomous_enterprise_ai.Orchestration.Service.Keeps.{
  KeepsNodes, KeepsNodes-pure, KeepsNodes-throw, KeepsNodes-bind, KeepsNodes-found,
  KeepsNodes-bind_found, KeepsNodes-record_event, KeepsNodes-dict_at, KeepsNodes-known_artifacts,
  KeepsNodes-get_artifact, service_rules,
}

KeepsNodes-find_artifact :
    (run_id artifact_id : String) → KeepsNodes (find_artifact run_id artifact_id)
unfolding find_artifact
KeepsNodes-find_artifact run_id artifact_id = record {
  at = (KeepsNodes-get_artifact run_id artifact_id).at;
}

KeepsNodes-find_artifacts :
    (run_id : String) (ids : List String) → KeepsNodes (find_artifacts run_id ids)
unfolding find_artifacts
KeepsNodes-find_artifacts run_id [] = KeepsNodes-pure []
KeepsNodes-find_artifacts run_id (artifact_id ∷ ids) =
    KeepsNodes-bind _ _ (KeepsNodes-find_artifact run_id artifact_id) (λ found.
      KeepsNodes-bind _ _ (KeepsNodes-find_artifacts run_id ids) (λ rest. KeepsNodes-pure _))

-- The named behaviour of agents: they leave the nodes of the graph to the service.
abbrev pub LeavesNodes : OrchestratorService → Type 0
LeavesNodes service =
    (agent_type : String) (agent : Agent)
    → lookup agent_type service.agents ≡ some agent
    → (given : AgentInput) → KeepsNodes (agent given)

module _ (platform : Platform) (service : OrchestratorService) where
  KeepsNodes-policy_context :
      (node : GraphNodeRecord) (state : Fields) (summary : String) (approved : Bool)
      → KeepsNodes (policy_context_for_tool platform node state summary approved)
  unfolding policy_context_for_tool
  KeepsNodes-policy_context node state summary approved =
      search (service_rules, KeepsNodes-find_artifacts)

  KeepsNodes-evaluate_tools :
      (node : GraphNodeRecord) (state : Fields) (summary : String) (approved : Bool)
      (tools : List String)
      → KeepsNodes (evaluate_tools platform service node state summary approved tools)
  unfolding evaluate_tools
  KeepsNodes-evaluate_tools node state summary approved [] = KeepsNodes-pure []
  KeepsNodes-evaluate_tools node state summary approved (tool ∷ tools) =
      KeepsNodes-bind _ _ (KeepsNodes-policy_context node state summary approved) (λ context.
        KeepsNodes-bind _ _ (KeepsNodes-found _ _) (λ decision.
          KeepsNodes-bind _ _ (KeepsNodes-evaluate_tools node state summary approved tools)
            (λ rest. KeepsNodes-pure _)))

  KeepsNodes-record_audit :
      (node : GraphNodeRecord) (decision : ToolPolicyDecision)
      → KeepsNodes (record_tool_audit_event platform node decision)
  unfolding record_tool_audit_event
  KeepsNodes-record_audit node decision = search service_rules

  KeepsNodes-record_audits :
      (node : GraphNodeRecord) (decisions : List ToolPolicyDecision)
      → KeepsNodes (record_audits platform node decisions)
  unfolding record_audits
  KeepsNodes-record_audits node [] = KeepsNodes-pure tt
  KeepsNodes-record_audits node (decision ∷ decisions) =
      KeepsNodes-bind _ _ (KeepsNodes-record_audit node decision)
        (λ done. KeepsNodes-record_audits node decisions)

  KeepsNodes-as_text : (v : Value) → KeepsNodes (as_text platform v)
  KeepsNodes-as_text (str s) = KeepsNodes-pure s
  KeepsNodes-as_text _ = KeepsNodes-throw _

  KeepsNodes-task_of :
      (state : Fields) (node_id : String) → KeepsNodes (task_of platform state node_id)
  unfolding task_of
  KeepsNodes-task_of state node_id = search (service_rules, KeepsNodes-as_text)

  KeepsNodes-authorize_tools :
      (node : GraphNodeRecord) (state : Fields) (tools : List String)
      → KeepsNodes (authorize_tools platform service node state tools)
  unfolding authorize_tools
  KeepsNodes-authorize_tools node state tools =
      search
        (service_rules, KeepsNodes-task_of, KeepsNodes-evaluate_tools, KeepsNodes-record_audits)

  pub KeepsNodes-authorize :
      (node : GraphNodeRecord) (state : Fields)
      → KeepsNodes (authorize_node_tools platform service node state)
  unfolding authorize_node_tools
  KeepsNodes-authorize node state = search (service_rules, KeepsNodes-authorize_tools)

  pub KeepsNodes-set_in :
      (key node_id : String) (value : Value) (state : Fields)
      → KeepsNodes (set_in platform service key node_id value state)
  unfolding set_in
  KeepsNodes-set_in key node_id value state = search service_rules

  pub KeepsNodes-save_refreshed :
      (run_id : String) (state : Fields) → KeepsNodes (save_refreshed platform service run_id state)
  unfolding save_refreshed
  KeepsNodes-save_refreshed run_id state = search service_rules

  pub KeepsNodes-record_events :
      (node : GraphNodeRecord) (events : List Fields)
      → KeepsNodes (record_events platform service node events)
  unfolding record_events
  KeepsNodes-record_events node [] = KeepsNodes-pure tt
  KeepsNodes-record_events node (event ∷ events) =
      KeepsNodes-bind _ _ (KeepsNodes-record_event platform _ _ _ _)
        (λ done. KeepsNodes-record_events node events)

  pub KeepsNodes-time_unless : (b : Bool) → KeepsNodes (time_unless platform service b)
  KeepsNodes-time_unless true = KeepsNodes-pure none
  KeepsNodes-time_unless false = search service_rules

  KeepsNodes-answer :
      (agent : Agent) (given : AgentInput)
      → KeepsNodes (agent given)
      → KeepsNodes
          (λ r. let (answer, s) = agent given r in (answer_or_failure platform service answer, s))
  KeepsNodes-answer agent given keeps = record { at = keeps.at }

  pub KeepsNodes-call_agent :
      (node : GraphNodeRecord) (state : Fields)
      → LeavesNodes service
      → KeepsNodes (call_agent platform service node state)
  unfolding call_agent
  KeepsNodes-call_agent node state leaves =
      KeepsNodes-bind_found _ (lookup node.agent_type service.agents) _ (λ agent there.
        KeepsNodes-bind _ _ (KeepsNodes-dict_at "approvals" state) (λ approvals.
          KeepsNodes-bind _ _ (KeepsNodes-task_of state node.ident) (λ task.
            KeepsNodes-bind _ _ (KeepsNodes-known_artifacts state)
              (λ artifacts. KeepsNodes-answer agent _ (leaves node.agent_type agent there _)))))
