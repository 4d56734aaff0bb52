-- ===== src/Security/Policy.antt =====
-- security/policy.py: permissions of tools, policy rules, and the decision on the use of a tool.
-- `fnmatch` is Python's. The records hold validated models; a context given as a `dict` is not
-- modelled.
pub mod Priority
pub mod Decisions
pub mod Defaults
pub mod Destructive
pub mod Contexts
use Prim.Native.Nat.{Ordering}
use Prim.Native.String.{◌++◌, count, compare}
use autonomous_enterprise_ai.Base.{
  ℕ, String, Bool, true, false, not, ◌&&◌, ◌||◌, Option, none, some, List, [], ◌∷◌, map, keep,
  any_of, ltb, if◌then◌else◌,
}
use autonomous_enterprise_ai.Base.Dict.{Dict, lookup, insert, values}
use autonomous_enterprise_ai.Base.Text.{contains, strip, is_blank}
use autonomous_enterprise_ai.Json.{Fields, field_names}
use autonomous_enterprise_ai.Platform.{Platform}

pub data ToolPermissionLevel : Type 0 where
  read_only write external_network code_execution deployment : ToolPermissionLevel

pub data ToolRiskLevel : Type 0 where
  low medium high : ToolRiskLevel

pub data ToolPolicyDecisionStatus : Type 0 where
  allow approval_required block retry escalate : ToolPolicyDecisionStatus

pub record ToolPermission : Type 0 where
  pub tool : String
  pub permission_level : ToolPermissionLevel
  pub risk : ToolRiskLevel
  pub description : String
  pub approval_required : Bool
  pub blocked : Bool
  pub destructive : Bool

pub record PolicyEvaluationContext : Type 0 where
  pub input_summary : String
  pub approved : Bool
  pub agent_type : Option String
  pub node_id : Option String
  pub run_id : Option String
  pub connector_id : Option String
  pub credential_profile_id : Option String
  pub artifact_type : Option String
  pub artifact_sensitive : Bool
  pub destination : Option String
  pub metadata : Fields

pub record PolicyRule : Type 0 where
  pub ident : String
  pub description : String
  pub decision : ToolPolicyDecisionStatus
  pub reason : String
  pub tool_patterns : List String
  pub permission_levels : List ToolPermissionLevel
  pub risk_levels : List ToolRiskLevel
  pub connector_ids : List String
  pub artifact_types : List String
  pub destinations : List String
  pub sensitive_artifact : Option Bool
  pub metadata_keys : List String
  pub escalation_target : Option String
  pub retry_after_seconds : Option ℕ

-- `context` is the dump of the context of the decision.
pub record ToolPolicyDecision : Type 0 where
  pub tool : String
  pub policy_rule_id : Option String
  pub permission_level : Option ToolPermissionLevel
  pub risk : ToolRiskLevel
  pub decision : ToolPolicyDecisionStatus
  pub reason : String
  pub input_summary : String
  pub approval_required : Bool
  pub approved : Bool
  pub destructive : Bool
  pub escalation_target : Option String
  pub retry_after_seconds : Option ℕ
  pub context : PolicyEvaluationContext

pub record ToolPermissionRegistry : Type 0 where
  pub permissions : Dict ToolPermission
  pub rules : Dict PolicyRule

-- `register`; `none` is the ValueError for a tool that is registered already.
unfoldable pub register : ToolPermission → ToolPermissionRegistry → Option ToolPermissionRegistry
register permission registry = elim (lookup permission.tool registry.permissions) [
  | some _ ↦ none
  | none ↦
      some
        (record registry { permissions = insert permission.tool permission registry.permissions })
]

unfoldable pub register_rule : PolicyRule → ToolPermissionRegistry → Option ToolPermissionRegistry
register_rule rule registry = elim (lookup rule.ident registry.rules) [
  | some _ ↦ none
  | none ↦ some (record registry { rules = insert rule.ident rule registry.rules })
]

abbrev pub is_high : ToolRiskLevel → Bool
is_high ToolRiskLevel.high = true
is_high _ = false

abbrev pub level_name : ToolPermissionLevel → String
level_name read_only = "read_only"
level_name write = "write"
level_name external_network = "external_network"
level_name code_execution = "code_execution"
level_name deployment = "deployment"

abbrev pub risk_name : ToolRiskLevel → String
risk_name low = "low"
risk_name medium = "medium"
risk_name high = "high"

-- `not xs or x in xs`, for a text that may be missing.
abbrev fits : List String → Option String → Bool
fits [] x = true
fits (y ∷ ys) none = false
fits (y ∷ ys) (some x) = contains x (y ∷ ys)

abbrev or_empty : Option String → String
or_empty none = ""
or_empty (some s) = s

abbrev same_bool : Bool → Bool → Bool
same_bool true b = b
same_bool false b = not b

-- The rule asks for the other sensitivity.
abbrev pub other_sensitivity : Option Bool → Bool → Bool
other_sensitivity none sensitive = false
other_sensitivity (some wanted) sensitive = not (same_bool sensitive wanted)

abbrev is_empty : List String → Bool
is_empty [] = true
is_empty (x ∷ xs) = false

module _ (platform : Platform) where
  -- `not patterns or any(fnmatch(value, pattern) for pattern in patterns)`
  unfoldable pub matches_any : List String → String → Bool
  matches_any patterns value = is_empty patterns || any_of (platform.fnmatch value) patterns

  -- _metadata_has_any_key
  unfoldable pub metadata_has_any_key : Fields → List String → Bool
  metadata_has_any_key metadata keys =
      not (is_empty keys)
      && any_of (λ k. contains (platform.lower k) (map platform.lower keys)) (field_names metadata)

  -- The last test of `_rule_matches`, on sensitivity and metadata.
  unfoldable pub sensitivity_fits : PolicyRule → PolicyEvaluationContext → Bool
  unfolding metadata_has_any_key
  sensitivity_fits rule context =
      let has_key = metadata_has_any_key context.metadata rule.metadata_keys in
      if other_sensitivity rule.sensitive_artifact context.artifact_sensitive
      then has_key
      else is_empty rule.metadata_keys || has_key

  unfoldable pub rule_matches :
      PolicyRule → String → ToolPermission → PolicyEvaluationContext → Bool
  unfolding matches_any sensitivity_fits
  rule_matches rule tool permission context =
      matches_any rule.tool_patterns tool
      && fits (map level_name rule.permission_levels)
          (some (level_name permission.permission_level))
      && fits (map risk_name rule.risk_levels) (some (risk_name permission.risk))
      && fits rule.connector_ids context.connector_id
      && fits rule.artifact_types context.artifact_type
      && matches_any rule.destinations (or_empty context.destination)
      && sensitivity_fits rule context

  unfoldable pub matching_rules :
      ToolPermissionRegistry → String → ToolPermission → PolicyEvaluationContext → List PolicyRule
  matching_rules registry tool permission context =
      keep (λ rule. rule_matches rule tool permission context) (values registry.rules)

abbrev pub priority : ToolPolicyDecisionStatus → ℕ
priority block = 0
priority retry = 1
priority escalate = 2
priority approval_required = 3
priority allow = 4

-- Python's `<` on texts
abbrev pub text_lt : String → String → Bool
text_lt s t = elim (compare s t) [ Ordering.lt ↦ true | _ ↦ false ]

-- The order of the sort keys `(priority[rule.decision], rule.id)`.
unfoldable pub comes_before : PolicyRule → PolicyRule → Bool
comes_before a b =
    ltb (priority a.decision) (priority b.decision)
    || (not (ltb (priority b.decision) (priority a.decision)) && text_lt a.ident b.ident)

-- The head of the sorted list: the least rule, and the first of equal ones.
unfoldable pub least : PolicyRule → List PolicyRule → PolicyRule
least best [] = best
least best (rule ∷ rules) = least (if comes_before rule best then rule else best) rules

unfoldable pub highest_priority_rule : List PolicyRule → Option PolicyRule
highest_priority_rule [] = none
highest_priority_rule (rule ∷ rules) = some (least rule rules)

abbrev pub needs_approval : ToolPolicyDecisionStatus → Bool
needs_approval approval_required = true
needs_approval escalate = true
needs_approval _ = false

-- _decision_from_rule
unfoldable pub decision_from_rule :
    String → ToolPermission → PolicyRule → PolicyEvaluationContext → ToolPolicyDecision
decision_from_rule tool permission rule context =
    let granted = needs_approval rule.decision && context.approved in
    record {
      tool = tool;
      policy_rule_id = some rule.ident;
      permission_level = some permission.permission_level;
      risk = permission.risk;
      decision = if granted then allow else rule.decision;
      reason = if granted then rule.reason ++ " Approval has been granted." else rule.reason;
      input_summary = context.input_summary;
      approval_required = needs_approval rule.decision;
      approved = granted;
      destructive = permission.destructive;
      escalation_target = rule.escalation_target;
      retry_after_seconds = if granted then none else rule.retry_after_seconds;
      context = context;
    }

unfoldable pub unregistered_decision : String → PolicyEvaluationContext → ToolPolicyDecision
unregistered_decision tool context = record {
  tool = tool;
  policy_rule_id = none;
  permission_level = none;
  risk = high;
  decision = block;
  reason = "Tool is not registered in the permission registry.";
  input_summary = context.input_summary;
  approval_required = false;
  approved = false;
  destructive = false;
  escalation_target = none;
  retry_after_seconds = none;
  context = context;
}

-- The decision of the permission alone, where no rule matches.
unfoldable pub decision_from_permission :
    String → ToolPermission → (approved : Bool) → PolicyEvaluationContext → ToolPolicyDecision
decision_from_permission tool permission approved context =
    let requires = permission.approval_required || is_high permission.risk in
    let base : ToolPolicyDecision = record {
      tool = tool;
      policy_rule_id = none;
      permission_level = some permission.permission_level;
      risk = permission.risk;
      decision = allow;
      reason = if approved && requires then "Tool execution approved." else "Tool allowed.";
      input_summary = context.input_summary;
      approval_required = requires;
      approved = approved && requires;
      destructive = permission.destructive;
      escalation_target = none;
      retry_after_seconds = none;
      context = context;
    } in
    if permission.blocked
    then record base {
      decision = block;
      reason =
          if permission.destructive
          then "Tool is blocked by policy because it is destructive."
          else "Tool is blocked by policy.";
      approval_required = false;
      approved = false;
    }
    else if requires && not approved
    then record base {
      decision = approval_required;
      reason = "Tool requires approval before execution.";
      approval_required = true;
      approved = false;
    }
    else base

-- `_build_context`, and the validation of the summary: 1 to 1000 characters, not blank. `none` is
-- the ValidationError.
unfoldable pub build_context :
    (input_summary : String) (approved : Bool)
    → Option PolicyEvaluationContext
    → Option PolicyEvaluationContext
build_context input_summary approved none =
    if is_blank (strip input_summary) || ltb 1000 (count input_summary)
    then none
    else some (record {
      input_summary = strip input_summary;
      approved = approved;
      agent_type = none;
      node_id = none;
      run_id = none;
      connector_id = none;
      credential_profile_id = none;
      artifact_type = none;
      artifact_sensitive = false;
      destination = none;
      metadata = Fields.end;
    })
build_context input_summary approved (some context) = some context

-- What follows the lookup of the permission in `evaluate`.
unfoldable pub decide :
    Platform
    → ToolPermissionRegistry
    → String
    → ToolPermission
    → (approved : Bool) → PolicyEvaluationContext
    → ToolPolicyDecision
decide platform registry tool permission approved context =
    elim (highest_priority_rule (matching_rules platform registry tool permission context)) [
      | some rule ↦ decision_from_rule tool permission rule context
      | none ↦ decision_from_permission tool permission approved context
    ]

unfoldable pub evaluate :
    Platform
    → ToolPermissionRegistry
    → String
    → (input_summary : String) (approved : Bool) → Option PolicyEvaluationContext
    → Option ToolPolicyDecision
unfolding unregistered_decision
evaluate platform registry tool input_summary approved context =
    elim (build_context input_summary approved context) [
      | none ↦ none
      | some evaluation_context ↦ elim (lookup tool registry.permissions) [
        | none ↦ some (unregistered_decision tool evaluation_context)
        | some permission ↦
            some (decide platform registry tool permission approved evaluation_context)
      ]
    ]
