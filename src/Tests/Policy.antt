-- ===== src/Tests/Policy.antt =====
-- The theorems on security/policy.py, at the default registry with a rule that would let the
-- shell run.
use mathlib.Core.List.{Memᴰ}
use autonomous_enterprise_ai.Base.{◌≡◌, refl, true, false, none, some, [], ◌∷◌, ◌++◌, map, All}
use autonomous_enterprise_ai.Base.Dict.{lookup, insert}
use autonomous_enterprise_ai.Json.{end, field_names}
use autonomous_enterprise_ai.Security.Policy.{
  ToolPermission, PolicyRule, PolicyEvaluationContext, ToolPolicyDecision, ToolPermissionRegistry,
  ToolPolicyDecisionStatus, ToolPermissionLevel, ToolRiskLevel, register, register_rule,
  matches_any, sensitivity_fits, rule_matches, matching_rules, build_context, evaluate,
  metadata_has_any_key, decide, highest_priority_rule, decision_from_permission,
}
use autonomous_enterprise_ai.Security.Policy.Defaults.{
  register_rules, register_all, new_registry, default_tool_permission_registry,
  build_policy_registry_from_rules, destructive_action_deny, sensitive_artifact_approval,
  default_rules,
}
use autonomous_enterprise_ai.Security.Policy.Decisions.{
  block_wins, allow_justified, sensitivity_ignored, IsPermissive, IsGranted,
}
use autonomous_enterprise_ai.Security.Policy.Destructive.{defaults, destructive_denied}
use autonomous_enterprise_ai.Tests.Samples.{plain}

abbrev shell_allowed : PolicyRule
shell_allowed = record destructive_action_deny {
  ident = "shell-allowed";
  decision = ToolPolicyDecisionStatus.allow;
}

abbrev registry : ToolPermissionRegistry
registry = record defaults { rules = map (λ r. (r.ident, r)) (default_rules ++ shell_allowed ∷ []) }

abbrev context : PolicyEvaluationContext
context = record {
  input_summary = "clean up";
  approved = true;
  agent_type = none;
  node_id = none;
  run_id = none;
  connector_id = none;
  credential_profile_id = none;
  artifact_type = none;
  artifact_sensitive = true;
  destination = none;
  metadata = end;
}

abbrev shell : ToolPermission
shell = record {
  tool = "shell_exec";
  permission_level = ToolPermissionLevel.code_execution;
  risk = ToolRiskLevel.high;
  description = "Execute arbitrary shell commands.";
  approval_required = false;
  blocked = true;
  destructive = true;
}

built : build_policy_registry_from_rules (shell_allowed ∷ []) none ≡ some registry
unfolding build_policy_registry_from_rules default_tool_permission_registry new_registry
    register_all register_rules register register_rule lookup insert
built = refl

given-Eq : build_context "" true (some context) ≡ some context
unfolding build_context
given-Eq = refl

destructive_denied_example :
    (decision : ToolPolicyDecision) × (evaluate plain registry "shell_exec" "" true (some context)
      ≡ some decision)
    × (decision.decision ≡ ToolPolicyDecisionStatus.block)
destructive_denied_example =
    destructive_denied plain (shell_allowed ∷ []) built "shell_exec" refl "" true (some context)
      given-Eq

shell_registered : lookup "shell_exec" registry.permissions ≡ some shell
unfolding lookup
shell_registered = refl

deny_matches_shell :
    Memᴰ destructive_action_deny (matching_rules plain registry "shell_exec" shell context)
unfolding matching_rules rule_matches matches_any sensitivity_fits metadata_has_any_key
deny_matches_shell = Memᴰ.head refl

block_wins_example :
    (decision : ToolPolicyDecision) × (evaluate plain registry "shell_exec" "" true (some context)
      ≡ some decision)
    × (decision.decision ≡ ToolPolicyDecisionStatus.block)
block_wins_example =
    block_wins plain registry "shell_exec" "" true (some context) context shell
      destructive_action_deny given-Eq shell_registered deny_matches_shell refl

-- The decision on `dataset_reader`, which needs no approval.
abbrev reading : ToolPolicyDecision
reading = record {
  tool = "dataset_reader";
  policy_rule_id = none;
  permission_level = some ToolPermissionLevel.read_only;
  risk = ToolRiskLevel.low;
  decision = ToolPolicyDecisionStatus.allow;
  reason = "Tool allowed.";
  input_summary = "clean up";
  approval_required = false;
  approved = false;
  destructive = false;
  escalation_target = none;
  retry_after_seconds = none;
  context = context;
}

-- The artifact is marked sensitive, and no rule asks for an approval.
sensitive_read : evaluate plain registry "dataset_reader" "" false (some context) ≡ some reading
unfolding evaluate decide build_context lookup matching_rules rule_matches matches_any
    sensitivity_fits metadata_has_any_key highest_priority_rule decision_from_permission field_names
sensitive_read = refl

allow_justified_example :
    (context' : PolicyEvaluationContext) × (permission : ToolPermission) × (build_context "" false
        (some context)
      ≡ some context')
    × (lookup "dataset_reader" registry.permissions ≡ some permission)
    × All IsPermissive (matching_rules plain registry "dataset_reader" permission context')
    × IsGranted permission false context'
        (matching_rules plain registry "dataset_reader" permission context')
allow_justified_example =
    allow_justified plain registry "dataset_reader" "" false (some context) reading sensitive_read
      refl

sensitivity_ignored_example :
    rule_matches plain sensitive_artifact_approval "dataset_reader" shell
      (record context { artifact_sensitive = false })
    ≡ rule_matches plain sensitive_artifact_approval "dataset_reader" shell context
sensitivity_ignored_example =
    sensitivity_ignored plain sensitive_artifact_approval "dataset_reader" shell context false refl
