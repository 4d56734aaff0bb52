-- ===== src/Security/Policy/Defaults.antt =====
-- security/policy.py: the registry that `default_tool_permission_registry` builds.
use autonomous_enterprise_ai.Base.{String, true, false, Option, none, some, List, [], ◌∷◌}
use autonomous_enterprise_ai.Security.Policy.{
  ToolPermissionLevel, ToolRiskLevel, ToolPolicyDecisionStatus, ToolPermission, PolicyRule,
  ToolPermissionRegistry, register, register_rule,
}
use autonomous_enterprise_ai.Security.Policy.ToolPermissionLevel.{
  read_only, write, external_network, code_execution, deployment,
}
use autonomous_enterprise_ai.Security.Policy.ToolRiskLevel.{low, medium, high}

unfoldable pub register_all :
    List ToolPermission → ToolPermissionRegistry → Option ToolPermissionRegistry
register_all [] registry = some registry
register_all (permission ∷ permissions) registry = elim (register permission registry) [
  | none ↦ none
  | some registered ↦ register_all permissions registered
]

unfoldable pub register_rules :
    List PolicyRule → ToolPermissionRegistry → Option ToolPermissionRegistry
register_rules [] registry = some registry
register_rules (rule ∷ rules) registry = elim (register_rule rule registry) [
  | none ↦ none
  | some registered ↦ register_rules rules registered
]

-- `ToolPermissionRegistry(permissions, rules)`; `none` is the ValueError.
unfoldable pub new_registry : List ToolPermission → List PolicyRule → Option ToolPermissionRegistry
new_registry permissions rules =
    elim (register_all permissions (record { permissions = []; rules = [] })) [
      | none ↦ none
      | some registry ↦ register_rules rules registry
    ]

-- _permission, for a tool that needs nothing further
abbrev permission : String → ToolPermissionLevel → ToolRiskLevel → String → ToolPermission
permission tool level risk description = record {
  tool = tool;
  permission_level = level;
  risk = risk;
  description = description;
  approval_required = false;
  blocked = false;
  destructive = false;
}

abbrev approval : ToolPermission → ToolPermission
approval p = record p { approval_required = true }

abbrev destroying : ToolPermission → ToolPermission
destroying p = record p { blocked = true; destructive = true }

abbrev pub default_permissions : List ToolPermission
default_permissions =
    permission "dataset_reader" read_only low "Read local dataset artifacts."
    ∷ permission "schema_profiler" read_only low "Infer schema metadata from datasets."
    ∷ permission "quality_checker" read_only low "Compute dataset quality signals."
    ∷ permission "dataframe_query" read_only low "Read and aggregate dataset rows."
    ∷ permission "artifact_reader" read_only low "Read previously registered artifacts."
    ∷ permission "deterministic_evaluator" read_only low "Run deterministic evaluation checks."
    ∷ permission "python_analysis" code_execution medium
        "Accept statically validated analysis code artifacts."
    ∷ permission "code_artifact_writer" write medium "Write reproducible analysis code artifacts."
    ∷ permission "chart_renderer" write medium "Write chart artifacts."
    ∷ permission "dashboard_renderer" write medium "Write dashboard artifacts."
    ∷ permission "markdown_report_writer" write medium "Write Markdown report artifacts."
    ∷ permission "evaluation_writer" write medium "Write evaluation artifacts and records."
    ∷ approval (permission "external_http" external_network high "Call external HTTP services.")
    ∷ approval (
        permission "snowflake_query" external_network high "Query an external Snowflake warehouse.")
    ∷ approval (
        permission "deploy_artifact" deployment high
          "Deploy generated artifacts outside the local sandbox.")
    ∷ destroying (permission "delete_artifact" write high "Delete artifacts from storage.")
    ∷ destroying (permission "shell_exec" code_execution high "Execute arbitrary shell commands.")
    ∷ []

-- A rule with the defaults of its fields.
abbrev rule :
    (ident description : String) → ToolPolicyDecisionStatus → (reason : String) → PolicyRule
rule ident description decision reason = record {
  ident = ident;
  description = description;
  decision = decision;
  reason = reason;
  tool_patterns = "*" ∷ [];
  permission_levels = [];
  risk_levels = [];
  connector_ids = [];
  artifact_types = [];
  destinations = [];
  sensitive_artifact = none;
  metadata_keys = [];
  escalation_target = none;
  retry_after_seconds = none;
}

abbrev pub code_execution_approval : PolicyRule
code_execution_approval =
    record (rule "code-execution-approval"
      "Gate untrusted code execution tools before they can affect outputs."
      ToolPolicyDecisionStatus.approval_required
      "Untrusted code execution requires reviewer approval.") {
        tool_patterns = "untrusted_*" ∷ "dynamic_python_exec" ∷ [];
      }

abbrev pub deployment_promotion_approval : PolicyRule
deployment_promotion_approval =
    record (rule "deployment-promotion-approval"
      "Gate deployment promotion outside local artifact storage."
      ToolPolicyDecisionStatus.approval_required
      "Deployment promotion requires release approval.") { permission_levels = deployment ∷ [] }

abbrev pub external_connector_escalation : PolicyRule
external_connector_escalation =
    record (rule "external-connector-escalation"
      "Escalate external connector access to platform security." ToolPolicyDecisionStatus.escalate
      "External connector access requires platform-security review.") {
        permission_levels = external_network ∷ [];
        escalation_target = some "platform-security";
      }

abbrev pub sensitive_artifact_approval : PolicyRule
sensitive_artifact_approval =
    record (rule "sensitive-artifact-approval"
      "Gate access to artifacts marked sensitive or containing secret-like metadata."
      ToolPolicyDecisionStatus.approval_required "Sensitive artifact access requires approval.") {
        tool_patterns = "artifact_reader" ∷ "dataset_reader" ∷ [];
        sensitive_artifact = some true;
        metadata_keys = "pii" ∷ "contains_pii" ∷ "sensitive" ∷ "secret" ∷ [];
      }

abbrev pub destructive_action_deny : PolicyRule
destructive_action_deny =
    record (rule "destructive-action-deny" "Deny destructive tool use."
      ToolPolicyDecisionStatus.block "Destructive tool use is denied by governance policy.") {
        tool_patterns = "delete_*" ∷ "shell_exec" ∷ [];
      }

abbrev pub default_rules : List PolicyRule
default_rules =
    code_execution_approval ∷ deployment_promotion_approval ∷ external_connector_escalation
    ∷ sensitive_artifact_approval ∷ destructive_action_deny ∷ []

unfoldable pub default_tool_permission_registry : Option ToolPermissionRegistry
unfolding new_registry
default_tool_permission_registry = new_registry default_permissions default_rules

-- `permissions` replaces the default tools, and with them the default rules.
unfoldable pub build_policy_registry_from_rules :
    List PolicyRule → Option (List ToolPermission) → Option ToolPermissionRegistry
unfolding default_tool_permission_registry new_registry
build_policy_registry_from_rules rules permissions =
    let base : Option ToolPermissionRegistry = elim permissions [
      | none ↦ default_tool_permission_registry
      | some given ↦ new_registry given []
    ] in
    elim base [ none ↦ none | some registry ↦ register_rules rules registry ]
