-- ===== src/Security/Policy/Contexts.antt =====
-- What orchestration/service.py and deployments/approvals.py share to build the context of a
-- decision, and the dumps of the models of security/policy.py.
use Prim.Native.String.{◌++◌}
use autonomous_enterprise_ai.Base.{
  ℕ, String, Bool, false, Option, none, some, List, [], ◌∷◌, ◌==◌, if◌then◌else◌,
}
use autonomous_enterprise_ai.Base.Text.{strip, contains}
use autonomous_enterprise_ai.Json.{Value, Fields, null, bool, num, str, obj, end, field, or_null}
use autonomous_enterprise_ai.Platform.{Platform}
use autonomous_enterprise_ai.Runs.Models.{ArtifactType}
use autonomous_enterprise_ai.Security.Policy.{
  PolicyEvaluationContext, ToolPolicyDecision, ToolPermissionLevel, ToolPolicyDecisionStatus,
  level_name, risk_name, text_lt,
}

abbrev pub type_name : ArtifactType → String
type_name ArtifactType.dataset = "dataset"
type_name ArtifactType.schema_profile = "schema_profile"
type_name ArtifactType.quality_report = "quality_report"
type_name ArtifactType.kpi_table = "kpi_table"
type_name ArtifactType.chart = "chart"
type_name ArtifactType.dashboard = "dashboard"
type_name ArtifactType.report = "report"
type_name ArtifactType.code = "code"
type_name ArtifactType.evaluation = "evaluation"
type_name ArtifactType.deployment = "deployment"

-- A text put in its place in a sorted list without repetitions.
unfoldable pub place : String → List String → List String
place s [] = s ∷ []
place s (t ∷ ts) =
    let rest = place s ts in if s == t then t ∷ ts else if text_lt s t then s ∷ t ∷ ts else t ∷ rest

-- sorted(set(texts))
unfoldable pub sorted_set : List String → List String
sorted_set [] = []
sorted_set (s ∷ ss) = place s (sorted_set ss)

-- ",".join(texts)
unfoldable pub joined : List String → String
joined [] = ""
joined (s ∷ []) = s
joined (s ∷ t ∷ ts) = s ++ ("," ++ joined (t ∷ ts))

module _ (platform : Platform) where
  -- `value is True`, or a text that says so.
  unfoldable pub is_affirmative : Option Value → Bool
  is_affirmative (some (bool b)) = b
  is_affirmative (some (str s)) = contains (platform.lower (strip s)) ("1" ∷ "true" ∷ "yes" ∷ [])
  is_affirmative _ = false

abbrev pub decision_name : ToolPolicyDecisionStatus → String
decision_name ToolPolicyDecisionStatus.allow = "allow"
decision_name ToolPolicyDecisionStatus.approval_required = "approval_required"
decision_name ToolPolicyDecisionStatus.block = "block"
decision_name ToolPolicyDecisionStatus.retry = "retry"
decision_name ToolPolicyDecisionStatus.escalate = "escalate"

abbrev pub level_or_null : Option ToolPermissionLevel → Value
level_or_null none = null
level_or_null (some level) = str (level_name level)

abbrev pub num_or_null : Option ℕ → Value
num_or_null none = null
num_or_null (some n) = num n

-- A field that the dump leaves out where it is `None`.
abbrev optional_field : String → Option String → Fields → Fields
optional_field key none rest = rest
optional_field key (some s) rest = field key (str s) rest

-- context.model_dump(exclude_none=True)
unfoldable pub context_dump : PolicyEvaluationContext → Fields
context_dump c = field "input_summary" (str c.input_summary) (
    field "approved" (bool c.approved) (
      optional_field "agent_type" c.agent_type (
        optional_field "node_id" c.node_id (
          optional_field "run_id" c.run_id (
            optional_field "connector_id" c.connector_id (
              optional_field "credential_profile_id" c.credential_profile_id (
                optional_field "artifact_type" c.artifact_type (
                  field "artifact_sensitive" (bool c.artifact_sensitive) (
                    optional_field "destination" c.destination
                      (field "metadata" (obj c.metadata) end))))))))))

-- decision.model_dump()
unfoldable pub decision_dump : ToolPolicyDecision → Fields
decision_dump d = field "tool" (str d.tool) (
    field "policy_rule_id" (or_null d.policy_rule_id) (
      field "permission_level" (level_or_null d.permission_level) (
        field "risk" (str (risk_name d.risk)) (
          field "decision" (str (decision_name d.decision)) (
            field "reason" (str d.reason) (
              field "input_summary" (str d.input_summary) (
                field "approval_required" (bool d.approval_required) (
                  field "approved" (bool d.approved) (
                    field "destructive" (bool d.destructive) (
                      field "escalation_target" (or_null d.escalation_target) (
                        field "retry_after_seconds" (num_or_null d.retry_after_seconds)
                          (field "context" (obj (context_dump d.context)) end))))))))))))
