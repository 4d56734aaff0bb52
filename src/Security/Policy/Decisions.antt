-- ===== src/Security/Policy/Decisions.antt =====
-- security/policy.py: what `evaluate` decides.
use mathlib.Core.List.{Memᴰ}
use autonomous_enterprise_ai.Base.{
  some_injective, none≢some, ◌≡◌, ◌≢◌, refl, sym, subst, ◌∙◌, ap, ◌⊎◌, inl, inr, true, false,
  Option, none, some, List, [], ◌∷◌, String, Bool, ◌||◌, ◌&&◌, ◌≤◌, arith, All, All_at, All-map,
  Bool-cases, Option-cases,
}
use autonomous_enterprise_ai.Base.Dict.{lookup}
use autonomous_enterprise_ai.Platform.{Platform}
use autonomous_enterprise_ai.Security.Policy.{
  ToolPermission, PolicyRule, PolicyEvaluationContext, ToolPolicyDecision, ToolPermissionRegistry,
  ToolPolicyDecisionStatus, is_high, priority, needs_approval, matching_rules,
  highest_priority_rule, decision_from_rule, decision_from_permission, unregistered_decision,
  build_context, decide, evaluate, sensitivity_fits, metadata_has_any_key, other_sensitivity,
  rule_matches,
}
use autonomous_enterprise_ai.Security.Policy.ToolPolicyDecisionStatus.{allow, block, retry}
use autonomous_enterprise_ai.Security.Policy.Priority.{IsStricter, highest-IsStricter, none_highest}

-- The rule lets the tool run: it allows it, or its approval was given.
abbrev pub IsGranting : PolicyEvaluationContext → PolicyRule → Type 0
IsGranting context rule =
    (rule.decision ≡ allow) ⊎ (needs_approval rule.decision ≡ true) × (context.approved ≡ true)

-- No matching rule forbids the tool or puts it off.
abbrev pub IsPermissive : PolicyRule → Type 0
IsPermissive rule = (rule.decision ≢ block) × (rule.decision ≢ retry)

-- Why a registered tool may run: a matching rule grants it, or none matches and the permission is
-- enough.
abbrev pub IsGranted :
    ToolPermission → (approved : Bool) → PolicyEvaluationContext → List PolicyRule → Type 0
IsGranted permission approved context rules =
    ((rule : PolicyRule) × Memᴰ rule rules × IsGranting context rule)
    ⊎ (rules ≡ [])
      × (permission.blocked ≡ false)
      × ((permission.approval_required || is_high permission.risk) ≡ true → approved ≡ true)

module _ (tool : String) (permission : ToolPermission) (context : PolicyEvaluationContext) where
  rule_allows :
      (rule : PolicyRule)
      → (decision_from_rule tool permission rule context).decision ≡ allow
      → IsGranting context rule
  unfolding decision_from_rule
  rule_allows rule h = elim (Bool-cases (needs_approval rule.decision && context.approved)) [
    | inl t ↦ inr (ground arith, ground arith)
    | inr f ↦ inl (rw f at h)
  ]

  rule_blocks :
      (rule : PolicyRule)
      → rule.decision ≡ block
      → (decision_from_rule tool permission rule context).decision ≡ block
  unfolding decision_from_rule
  rule_blocks rule e = rw e refl

  permission_allows :
      (approved : Bool)
      → (decision_from_permission tool permission approved context).decision ≡ allow
      → (permission.blocked ≡ false)
        × ((permission.approval_required || is_high permission.risk) ≡ true → approved ≡ true)
  unfolding decision_from_permission
  permission_allows approved h = (ground arith, λ n. ground arith)

approval_rank : (d : ToolPolicyDecisionStatus) → needs_approval d ≡ true → 2 ≤ priority d
approval_rank allow h = cc
approval_rank ToolPolicyDecisionStatus.approval_required h = omega arith
approval_rank block h = cc
approval_rank retry h = cc
approval_rank ToolPolicyDecisionStatus.escalate h = omega arith

granting_rank :
    (context : PolicyEvaluationContext) (rule : PolicyRule)
    → IsGranting context rule
    → 2 ≤ priority rule.decision
granting_rank context rule (inl e) = omega (arith, ap priority e)
granting_rank context rule (inr (e, a)) = approval_rank rule.decision e

block-ne-allow : block ≢ allow
block-ne-allow e = cc

granting-IsPermissive :
    (context : PolicyEvaluationContext) (rule other : PolicyRule)
    → IsGranting context rule
    → IsStricter rule other
    → IsPermissive other
granting-IsPermissive context rule other g s =
    let rank : 2 ≤ priority rule.decision = granting_rank context rule g in
    (λ e. omega (arith, rank, s, ap priority e), λ e. omega (arith, rank, s, ap priority e))

rank_zero : (d : ToolPolicyDecisionStatus) → priority d ≤ 0 → d ≡ block
rank_zero allow h = ground arith
rank_zero ToolPolicyDecisionStatus.approval_required h = ground arith
rank_zero block h = refl
rank_zero retry h = ground arith
rank_zero ToolPolicyDecisionStatus.escalate h = ground arith

first_block :
    (first rule : PolicyRule)
    → IsStricter first rule
    → rule.decision ≡ block
    → first.decision ≡ block
first_block first rule s b = rank_zero first.decision (omega (arith, s, ap priority b))

module _ (platform : Platform) (registry : ToolPermissionRegistry) (tool : String) where
  -- A decision to allow rests on a registered permission, and where a rule matches, none of the
  -- matching rules forbids.
  decide_allows :
      (permission : ToolPermission) (approved : Bool) (context : PolicyEvaluationContext)
      → (decide platform registry tool permission approved context).decision ≡ allow
      → All IsPermissive (matching_rules platform registry tool permission context)
        × IsGranted permission approved context
            (matching_rules platform registry tool permission context)
  unfolding decide
  decide_allows permission approved context h =
      let rules = matching_rules platform registry tool permission context in
      elim (Option-cases (highest_priority_rule rules)) [
        | inl e ↦
            let permitted =
              permission_allows tool permission context approved (rw (decide, e) at h) in
            (
              subst (λ rs. All IsPermissive rs) (sym (none_highest rules e)) tt,
              inr (none_highest rules e, permitted.0, permitted.1),
            )
        | inr (rule, e) ↦
            let found = highest-IsStricter rules e in
            let grants = rule_allows tool permission context rule (rw (decide, e) at h) in
            (
              All-map (IsStricter rule) IsPermissive rules
                  (λ other. granting-IsPermissive context rule other grants) found.1,
              inl (rule, found.0, grants),
            )
      ]

  decide_by :
      (permission : ToolPermission) (approved : Bool) (context : PolicyEvaluationContext)
      (rule : PolicyRule)
      → highest_priority_rule (matching_rules platform registry tool permission context) ≡ some rule
      → decide platform registry tool permission approved context
        ≡ decision_from_rule tool permission rule context
  unfolding decide
  decide_by permission approved context rule e = rw (decide, e) refl

  decide_blocks :
      (permission : ToolPermission) (approved : Bool) (context : PolicyEvaluationContext)
      (rule : PolicyRule)
      → Memᴰ rule (matching_rules platform registry tool permission context)
      → rule.decision ≡ block
      → (decide platform registry tool permission approved context).decision ≡ block
  decide_blocks permission approved context rule m b =
      let rules = matching_rules platform registry tool permission context in
      elim (Option-cases (highest_priority_rule rules)) [
        | inl e ↦ elim (subst (λ rs. Memᴰ rule rs) (none_highest rules e) m) [ ]
        | inr (first, e) ↦
            let strict = All_at (IsStricter first) rules (highest-IsStricter rules e).1 m in
            ap (λ d. d.decision) (decide_by permission approved context first e)
            ∙ rule_blocks tool permission context first (first_block first rule strict b)
      ]

  evaluate_at :
      (input_summary : String) (approved : Bool) (given : Option PolicyEvaluationContext)
      {context : PolicyEvaluationContext} {permission : ToolPermission}
      → build_context input_summary approved given ≡ some context
      → lookup tool registry.permissions ≡ some permission
      → evaluate platform registry tool input_summary approved given
        ≡ some (decide platform registry tool permission approved context)
  unfolding evaluate
  evaluate_at input_summary approved given c p = rw (evaluate, c, p) refl

  evaluate_invalid :
      (input_summary : String) (approved : Bool) (given : Option PolicyEvaluationContext)
      → build_context input_summary approved given ≡ none
      → evaluate platform registry tool input_summary approved given ≡ none
  unfolding evaluate
  evaluate_invalid input_summary approved given c = rw (evaluate, c) refl

  pub evaluate_unregistered :
      (input_summary : String) (approved : Bool) (given : Option PolicyEvaluationContext)
      {context : PolicyEvaluationContext}
      → build_context input_summary approved given ≡ some context
      → lookup tool registry.permissions ≡ none
      → evaluate platform registry tool input_summary approved given
        ≡ some (unregistered_decision tool context)
  unfolding evaluate
  evaluate_unregistered input_summary approved given c p = rw (evaluate, c, p) refl

  unregistered_denied :
      (input_summary : String) (approved : Bool) (given : Option PolicyEvaluationContext)
      {context : PolicyEvaluationContext} {decision : ToolPolicyDecision}
      → build_context input_summary approved given ≡ some context
      → lookup tool registry.permissions ≡ none
      → evaluate platform registry tool input_summary approved given ≡ some decision
      → decision.decision ≢ allow
  unfolding unregistered_decision
  unregistered_denied input_summary approved given {context} {decision} c p h a =
      let same : unregistered_decision tool context ≡ decision =
        some_injective (sym (evaluate_unregistered input_summary approved given c p) ∙ h) in
      block-ne-allow (ap (λ d. d.decision) same ∙ a)

  -- Where a matching rule blocks, the tool is blocked, whatever was approved and whatever the
  -- other rules say.
  pub block_wins :
      (input_summary : String) (approved : Bool) (given : Option PolicyEvaluationContext)
      (context : PolicyEvaluationContext) (permission : ToolPermission) (rule : PolicyRule)
      → build_context input_summary approved given ≡ some context
      → lookup tool registry.permissions ≡ some permission
      → Memᴰ rule (matching_rules platform registry tool permission context)
      → rule.decision ≡ block
      → (decision : ToolPolicyDecision) × (evaluate platform registry tool input_summary approved
            given
          ≡ some decision)
        × (decision.decision ≡ block)
  block_wins input_summary approved given context permission rule c p m b = (
    decide platform registry tool permission approved context,
    evaluate_at input_summary approved given c p,
    decide_blocks permission approved context rule m b,
  )

  -- `evaluate` allows a tool only if the tool is registered, no matching rule blocks it or asks
  -- to retry, and either a matching rule allows it or had its approval given, or no rule matches
  -- and the permission is not blocked and has the approval that it or its high risk asks for.
  pub allow_justified :
      (input_summary : String) (approved : Bool) (given : Option PolicyEvaluationContext)
      (decision : ToolPolicyDecision)
      → evaluate platform registry tool input_summary approved given ≡ some decision
      → decision.decision ≡ allow
      → (context : PolicyEvaluationContext) × (permission : ToolPermission) × (build_context
            input_summary approved given
          ≡ some context)
        × (lookup tool registry.permissions ≡ some permission)
        × All IsPermissive (matching_rules platform registry tool permission context)
        × IsGranted permission approved context
            (matching_rules platform registry tool permission context)
  allow_justified input_summary approved given decision h a =
      elim (Option-cases (build_context input_summary approved given)) [
        | inl c ↦ absurd (none≢some (sym (evaluate_invalid input_summary approved given c) ∙ h))
        | inr (context, c) ↦ elim (Option-cases (lookup tool registry.permissions)) [
          | inl p ↦ absurd (unregistered_denied input_summary approved given c p h a)
          | inr (permission, p) ↦
              let same : decide platform registry tool permission approved context ≡ decision =
                some_injective (sym (evaluate_at input_summary approved given c p) ∙ h) in
              let allowed =
                decide_allows permission approved context (ap (λ d. d.decision) same ∙ a) in
              (context, permission, c, p, allowed.0, allowed.1)
        ]
      ]

module _ (platform : Platform) (rule : PolicyRule) (tool : String)
    (permission : ToolPermission) where
  sensitivity_fits_lem :
      (context : PolicyEvaluationContext) {key : String} {keys : List String}
      → rule.metadata_keys ≡ key ∷ keys
      → sensitivity_fits platform rule context
        ≡ metadata_has_any_key platform context.metadata rule.metadata_keys
  unfolding sensitivity_fits
  sensitivity_fits_lem context e =
      elim (Bool-cases (other_sensitivity rule.sensitive_artifact context.artifact_sensitive)) [
        | inl t ↦ rw t refl
        | inr f ↦ rw (f, e) refl
      ]

  -- A rule with metadata keys takes no notice of the sensitivity of the artifact: whether it
  -- matches is the same for a sensitive artifact and for another.
  pub sensitivity_ignored :
      (context : PolicyEvaluationContext) (sensitive : Bool) {key : String} {keys : List String}
      → rule.metadata_keys ≡ key ∷ keys
      → rule_matches platform rule tool permission
          (record context { artifact_sensitive = sensitive })
        ≡ rule_matches platform rule tool permission context
  unfolding rule_matches
  sensitivity_ignored context sensitive e =
      let other = record context { artifact_sensitive = sensitive } in
      rw (sensitivity_fits_lem other e, sensitivity_fits_lem context e) refl
