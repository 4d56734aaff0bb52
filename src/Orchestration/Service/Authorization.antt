-- ===== src/Orchestration/Service/Authorization.antt =====
-- orchestration/service.py: the policy on the tools that a node requires.
use autonomous_enterprise_ai.Base.{
  String, Bool, true, false, Option, none, some, List, [], ◌∷◌, pure, throw, ◌>>=◌, ◌>>◌, ◌==◌,
  if◌then◌else◌,
}
use autonomous_enterprise_ai.Json.{Value, Fields, bool, str, obj, end, field, get, or_null}
use autonomous_enterprise_ai.Platform.{Platform}
use autonomous_enterprise_ai.Agents.{AgentOutput}
use autonomous_enterprise_ai.Runs.Errors.{type_error, value_error}
use autonomous_enterprise_ai.Runs.Models.{GraphNodeRecord}
use autonomous_enterprise_ai.Runs.Repository.{Repo, found_or_raise}
use autonomous_enterprise_ai.Security.Policy.{ToolPolicyDecision, evaluate, risk_name}
use autonomous_enterprise_ai.Security.Policy.Contexts.{
  decision_name, level_or_null, num_or_null, context_dump,
}
use autonomous_enterprise_ai.Orchestration.Service.Decisions.{summarize_tool_input, security_output}
use autonomous_enterprise_ai.Orchestration.Service.Context.{policy_context_for_tool}
use autonomous_enterprise_ai.Orchestration.Service.{
  OrchestratorService, value_at, dict_at, plan_item, record_event, timestamp,
}

module _ (platform : Platform) where
  unfoldable pub evaluate_tools :
      OrchestratorService
      → GraphNodeRecord
      → Fields
      → (input_summary : String) (approved : Bool) → List String
      → Repo (List ToolPolicyDecision)
  evaluate_tools service node state input_summary approved [] = pure []
  evaluate_tools service node state input_summary approved (tool ∷ tools) = do
    context ← policy_context_for_tool platform node state input_summary approved
    decision ←
        found_or_raise (value_error "input_summary")
          (evaluate platform service.tool_permissions tool input_summary approved (some context))
    rest ← evaluate_tools service node state input_summary approved tools
    pure (decision ∷ rest)

  -- The payload of the audit event of a decision.
  unfoldable pub audit_payload : GraphNodeRecord → ToolPolicyDecision → Value → Fields
  audit_payload node d now = field "agent" (str node.agent_type) (
      field "tool" (str d.tool) (
        field "policy_rule_id" (or_null d.policy_rule_id) (
          field "permission_level" (level_or_null d.permission_level) (
            field "risk" (str (risk_name d.risk)) (
              field "decision" (str (decision_name d.decision)) (
                field "input_summary" (str d.input_summary) (
                  field "reason" (str d.reason) (
                    field "approval_required" (bool d.approval_required) (
                      field "approved" (bool d.approved) (
                        field "destructive" (bool d.destructive) (
                          field "escalation_target" (or_null d.escalation_target) (
                            field "retry_after_seconds" (num_or_null d.retry_after_seconds) (
                              field "policy_context" (obj (context_dump d.context))
                                (field "timestamp" now end))))))))))))))

  -- _record_tool_audit_event
  unfoldable pub record_tool_audit_event : GraphNodeRecord → ToolPolicyDecision → Repo (Unit {0})
  record_tool_audit_event node decision = do
    now ← timestamp platform
    record_event platform node.run_id node.ident "tool_call" (audit_payload node decision now)

  unfoldable pub record_audits : GraphNodeRecord → List ToolPolicyDecision → Repo (Unit {0})
  record_audits node [] = pure tt
  record_audits node (decision ∷ decisions) = do
    record_tool_audit_event node decision
    record_audits node decisions

  -- `state["approvals"].get(node.id) == "approved"`
  abbrev pub is_approval : Option Value → Bool
  is_approval (some (str s)) = s == "approved"
  is_approval _ = false

  -- A text, where the code uses the value as one.
  abbrev pub as_text : Value → Repo String
  as_text (str s) = pure s
  as_text v = throw (type_error "str")

  -- The text of the plan item's task.
  unfoldable pub task_of : Fields → (node_id : String) → Repo String
  task_of state node_id = do
    found ← plan_item state node_id
    task ← value_at "task" found
    as_text task

  -- `_authorize_node_tools` for a node that requires tools.
  unfoldable pub authorize_tools :
      OrchestratorService → GraphNodeRecord → Fields → List String → Repo (Option AgentOutput)
  authorize_tools service node state tools = do
    approvals ← dict_at "approvals" state
    let approved = is_approval (get node.ident approvals)
    task ← task_of state node.ident
    decisions ← evaluate_tools service node state (summarize_tool_input node task) approved tools
    record_audits node decisions
    pure (security_output decisions)

  abbrev pub no_tools : List String → Bool
  no_tools [] = true
  no_tools (tool ∷ tools) = false

  -- _authorize_node_tools
  unfoldable pub authorize_node_tools :
      OrchestratorService → GraphNodeRecord → Fields → Repo (Option AgentOutput)
  authorize_node_tools service node state =
      if no_tools node.required_tools
      then pure none
      else authorize_tools service node state node.required_tools
