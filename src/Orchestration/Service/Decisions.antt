-- ===== src/Orchestration/Service/Decisions.antt =====
-- orchestration/service.py: what the decisions on the tools of a node make of the node.
use Prim.Native.String.{◌++◌, count}
use autonomous_enterprise_ai.Base.{
  ℕ, zero, suc, String, Bool, true, false, Option, none, some, List, [], ◌∷◌, map, keep, any_of,
  ltb, if◌then◌else◌,
}
use autonomous_enterprise_ai.Base.Text.{strip, is_blank}
use autonomous_enterprise_ai.Json.{Fields, str, arr, end, field, texts}
use autonomous_enterprise_ai.Agents.{AgentOutput}
use autonomous_enterprise_ai.Runs.Models.{GraphNodeRecord}
use autonomous_enterprise_ai.Security.Policy.{ToolPolicyDecision, ToolPolicyDecisionStatus}
use autonomous_enterprise_ai.Security.Policy.Contexts.{decision_dump}
use autonomous_enterprise_ai.Orchestration.State.{dicts}

-- s[:n]
abbrev take : ℕ → String → String
take zero s = String.[]
take (suc n) String.[] = String.[]
take (suc n) (String.◌∷◌ c s) = String.◌∷◌ c (take n s)

-- _summarize_tool_input
unfoldable pub summarize_tool_input : GraphNodeRecord → (task : String) → String
summarize_tool_input node task =
    let summary =
      "agent=" ++ (node.agent_type ++ ("; node=" ++ (node.ident ++ ("; task=" ++ strip task)))) in
    if ltb 240 (count summary) then take 237 summary ++ "..." else summary

abbrev pub is_block : ToolPolicyDecision → Bool
is_block d = elim d.decision [ ToolPolicyDecisionStatus.block ↦ true | _ ↦ false ]

abbrev pub is_retry : ToolPolicyDecision → Bool
is_retry d = elim d.decision [ ToolPolicyDecisionStatus.retry ↦ true | _ ↦ false ]

abbrev is_escalation : ToolPolicyDecision → Bool
is_escalation d = elim d.decision [ ToolPolicyDecisionStatus.escalate ↦ true | _ ↦ false ]

abbrev pub asks_approval : ToolPolicyDecision → Bool
asks_approval d = elim d.decision [
  | ToolPolicyDecisionStatus.approval_required ↦ true
  | ToolPolicyDecisionStatus.escalate ↦ true
  | _ ↦ false
]

-- `[x for x in xs if x]`, for texts that may be missing
abbrev given : List (Option String) → List String
given [] = []
given (none ∷ xs) = given xs
given (some s ∷ xs) = if is_blank s then given xs else s ∷ given xs

abbrev metrics_of : List ToolPolicyDecision → Fields
metrics_of decisions = field "tool_policy_decisions" (arr (dicts (map decision_dump decisions))) end

abbrev reasons : List ToolPolicyDecision → List String
reasons decisions = map (λ d. d.tool ++ (": " ++ d.reason)) decisions

-- The event of the request for approval.
unfoldable pub approval_event : List ToolPolicyDecision → Fields
approval_event required =
    let escalations = any_of is_escalation required in
    field "event_type" (str "approval_request") (
      field "message"
        (str (
          if escalations
          then "Tool permission policy requires escalation."
          else "Tool permission policy requires approval."))
        (field "tools" (arr (texts (map (λ d. d.tool) required))) (
          field "policy_rule_ids" (arr (texts (given (map (λ d. d.policy_rule_id) required)))) (
            field "escalation_targets"
              (arr (texts (given (map (λ d. d.escalation_target) required)))) end))))

-- The three answers of `_authorize_node_tools` that stop the node, in the order of the code.
unfoldable pub blocked_output :
    List ToolPolicyDecision → (blocked : List ToolPolicyDecision) → AgentOutput
blocked_output decisions blocked = record {
  status = "failed";
  summary = "Security policy blocked one or more required tools.";
  artifacts = [];
  events = [];
  metrics = metrics_of decisions;
  errors = reasons blocked;
}

unfoldable pub approval_output :
    List ToolPolicyDecision → (required : List ToolPolicyDecision) → AgentOutput
approval_output decisions required = record {
  status = "waiting_for_approval";
  summary =
      if any_of is_escalation required
      then "Security escalation is required for governed tool calls."
      else "Security approval is required for high-risk tool calls.";
  artifacts = [];
  events = approval_event required ∷ [];
  metrics = metrics_of decisions;
  errors = [];
}

unfoldable pub retry_output :
    List ToolPolicyDecision → (required : List ToolPolicyDecision) → AgentOutput
retry_output decisions required = record {
  status = "failed";
  summary = "Security policy requested retry before executing one or more tools.";
  artifacts = [];
  events = [];
  metrics = metrics_of decisions;
  errors = reasons required;
}

-- What the decisions make of the node: `none` lets its agent run.
unfoldable pub security_output : List ToolPolicyDecision → Option AgentOutput
security_output decisions =
    if any_of is_block decisions
    then some (blocked_output decisions (keep is_block decisions))
    else if any_of asks_approval decisions
    then some (approval_output decisions (keep asks_approval decisions))
    else if any_of is_retry decisions
    then some (retry_output decisions (keep is_retry decisions))
    else none
