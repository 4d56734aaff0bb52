-- ===== src/Security/Policy/Destructive.antt =====
-- security/policy.py: the deny rule of the default registry, under the rules that a deployment
-- adds to it.
use mathlib.Core.List.{Memᴰ}
use autonomous_enterprise_ai.Base.{
  some_injective, none≢some, ◌≡◌, refl, subst, inl, inr, String, Bool, true, ◌||◌, Option, none,
  some, List, [], ◌∷◌, map, arith, Option-cases, Memᴰ-keep,
}
use autonomous_enterprise_ai.Base.Dict.{lookup, insert, values, Memᴰ-values-insert}
use autonomous_enterprise_ai.Platform.{Platform}
use autonomous_enterprise_ai.Security.Policy.{
  ToolPermission, PolicyRule, PolicyEvaluationContext, ToolPolicyDecision, ToolPermissionRegistry,
  register, register_rule, matches_any, sensitivity_fits, rule_matches, matching_rules,
  build_context, evaluate, unregistered_decision,
}
use autonomous_enterprise_ai.Security.Policy.ToolPolicyDecisionStatus.{block}
use autonomous_enterprise_ai.Security.Policy.Defaults.{
  register_rules, register_all, new_registry, default_tool_permission_registry,
  build_policy_registry_from_rules, default_permissions, default_rules, destructive_action_deny,
}
use autonomous_enterprise_ai.Security.Policy.Decisions.{block_wins, evaluate_unregistered}

module _ (kept : PolicyRule) where
  register_rule_keeps :
      (rule : PolicyRule) (registry : ToolPermissionRegistry) {registered : ToolPermissionRegistry}
      → register_rule rule registry ≡ some registered
      → Memᴰ kept (values registry.rules)
      → Memᴰ kept (values registered.rules)
  unfolding register_rule
  register_rule_keeps rule registry h m = elim (Option-cases (lookup rule.ident registry.rules)) [
    | inl e ↦
        subst (λ r. Memᴰ kept (values r.rules)) (some_injective (rw (register_rule, e) at h))
          (Memᴰ-values-insert rule.ident rule registry.rules e m)
    | inr (other, e) ↦ absurd (none≢some (rw (register_rule, e) at h))
  ]

  register_rules_keep :
      (rules : List PolicyRule) (registry : ToolPermissionRegistry)
      {registered : ToolPermissionRegistry}
      → register_rules rules registry ≡ some registered
      → Memᴰ kept (values registry.rules)
      → Memᴰ kept (values registered.rules)
  unfolding register_rules
  register_rules_keep [] registry h m = subst (λ r. Memᴰ kept (values r.rules)) (some_injective h) m
  register_rules_keep (rule ∷ rules) registry h m =
      elim (Option-cases (register_rule rule registry)) [
        | inl e ↦ absurd (none≢some (rw (register_rules, e) at h))
        | inr (next, e) ↦
            register_rules_keep rules next (rw (register_rules, e) at h)
              (register_rule_keeps rule registry e m)
      ]

-- The registry that the defaults make: no tool and no rule is registered twice.
abbrev pub defaults : ToolPermissionRegistry
defaults = record {
  permissions = map (λ p. (p.tool, p)) default_permissions;
  rules = map (λ r. (r.ident, r)) default_rules;
}

default_registry-Eq : default_tool_permission_registry ≡ some defaults
unfolding default_tool_permission_registry new_registry register_all register_rules register
    register_rule lookup insert
default_registry-Eq = refl

default_deny : Memᴰ destructive_action_deny (values defaults.rules)
default_deny = Memᴰ.tail (Memᴰ.tail (Memᴰ.tail (Memᴰ.tail (Memᴰ.head refl))))

built_deny :
    (rules : List PolicyRule) {registry : ToolPermissionRegistry}
    → build_policy_registry_from_rules rules none ≡ some registry
    → Memᴰ destructive_action_deny (values registry.rules)
unfolding build_policy_registry_from_rules
built_deny rules h =
    register_rules_keep destructive_action_deny rules defaults
      (rw (build_policy_registry_from_rules, default_registry-Eq) at h) default_deny

deny_matches :
    (platform : Platform) (tool : String) (permission : ToolPermission)
    (context : PolicyEvaluationContext)
    → (platform.fnmatch tool "delete_*" || platform.fnmatch tool "shell_exec") ≡ true
    → rule_matches platform destructive_action_deny tool permission context ≡ true
unfolding rule_matches matches_any sensitivity_fits
deny_matches platform tool permission context h = ground arith

-- A registry of the default rules and any rules that were added to it blocks each tool that
-- matches `delete_*` or `shell_exec`: registered or not, approved or not, in every context.
pub destructive_denied :
    (platform : Platform) (rules : List PolicyRule) {registry : ToolPermissionRegistry}
    → build_policy_registry_from_rules rules none ≡ some registry
    → (tool : String)
    → (platform.fnmatch tool "delete_*" || platform.fnmatch tool "shell_exec") ≡ true
    → (input_summary : String) (approved : Bool) (given : Option PolicyEvaluationContext)
      {context : PolicyEvaluationContext}
    → build_context input_summary approved given ≡ some context
    → (decision : ToolPolicyDecision) × (evaluate platform registry tool input_summary approved
          given
        ≡ some decision)
      × (decision.decision ≡ block)
unfolding unregistered_decision matching_rules
destructive_denied platform rules {registry} h tool hit input_summary approved given {context} c =
    elim (Option-cases (lookup tool registry.permissions)) [
      | inl e ↦ (
        unregistered_decision tool context,
        evaluate_unregistered platform registry tool input_summary approved given c e,
        refl,
      )
      | inr (permission, e) ↦
          block_wins platform registry tool input_summary approved given context permission
            destructive_action_deny c e
            (Memᴰ-keep (λ r. rule_matches platform r tool permission context)
              (values registry.rules) (built_deny rules h)
              (deny_matches platform tool permission context hit))
            refl
    ]
