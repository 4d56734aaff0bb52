-- ===== src/Deployments/Policy.antt =====
-- deployments/approvals.py: the decision of the tool policy on a deployment. A summary of more than
-- 1000 characters is a ValidationError, which is a ValueError.
use Prim.Native.String.{◌++◌, count}
use autonomous_enterprise_ai.Base.{
  String, Bool, false, Option, none, some, List, [], ◌∷◌, map, length, any_of, ltb, pure, raise_if,
  ◌>>=◌, ◌>>◌,
}
use autonomous_enterprise_ai.Base.Text.{strip}
use autonomous_enterprise_ai.Json.{bool, str, arr, end, field, get, texts}
use autonomous_enterprise_ai.Platform.{Platform}
use autonomous_enterprise_ai.Runs.Errors.{value_error}
use autonomous_enterprise_ai.Runs.Models.{ArtifactRecord}
use autonomous_enterprise_ai.Runs.Repository.{Repo, found_or_raise}
use autonomous_enterprise_ai.Runs.Artifacts.{get_artifact}
use autonomous_enterprise_ai.Security.Policy.{
  PolicyEvaluationContext, ToolPolicyDecision, ToolPermissionRegistry, evaluate,
}
use autonomous_enterprise_ai.Security.Policy.Contexts.{
  type_name, sorted_set, joined, is_affirmative,
}
use autonomous_enterprise_ai.Deployments.Approvals.{normalize_optional}

-- `_normalize_optional(requested_by) or "system"`
unfoldable pub requester : Option String → String
requester requested_by = elim (normalize_optional requested_by) [ none ↦ "system" | some s ↦ s ]

-- `[repository.get_artifact(run_id, artifact_id) for artifact_id in artifact_ids]`
unfoldable pub artifacts_named :
    (run_id : String) (artifact_ids : List String) → Repo (List ArtifactRecord)
artifacts_named run_id [] = pure []
artifacts_named run_id (artifact_id ∷ artifact_ids) = do
  artifact ← get_artifact run_id artifact_id
  rest ← artifacts_named run_id artifact_ids
  pure (artifact ∷ rest)

module _ (platform : Platform) where
  -- _artifact_is_sensitive
  unfoldable pub artifact_is_sensitive : ArtifactRecord → Bool
  artifact_is_sensitive artifact =
      any_of (λ key. is_affirmative platform (get key artifact.metadata))
        ("sensitive" ∷ "pii" ∷ "contains_pii" ∷ "secret" ∷ "credential_profile_id" ∷ [])

  unfoldable pub deployment_context :
      (run_id destination summary requested_by : String) (artifact_ids : List String)
      → List ArtifactRecord
      → PolicyEvaluationContext
  deployment_context run_id destination summary requested_by artifact_ids artifacts =
      let types = map (λ artifact. type_name artifact.type) artifacts in
      let sensitive = any_of artifact_is_sensitive artifacts in
      record {
        input_summary = strip summary;
        approved = false;
        agent_type = none;
        node_id = none;
        run_id = some run_id;
        connector_id = none;
        credential_profile_id = none;
        artifact_type = some (joined (sorted_set types));
        artifact_sensitive = sensitive;
        destination = some destination;
        metadata = field "artifact_ids" (arr (texts artifact_ids)) (
            field "artifact_types" (arr (texts types))
              (field "requested_by" (str requested_by) (field "sensitive" (bool sensitive) end)));
      }

  -- _evaluate_deployment_policy
  unfoldable pub evaluate_deployment_policy :
      (run_id : String) (artifact_ids : List String) (destination : String)
      → Option String
      → ToolPermissionRegistry
      → Repo ToolPolicyDecision
  evaluate_deployment_policy run_id artifact_ids destination requested_by policy_registry = do
    artifacts ← artifacts_named run_id artifact_ids
    let who = requester requested_by
    let summary =
        "deploy "
        ++ (platform.show (length artifact_ids)
            ++ (" artifact(s) to " ++ (destination ++ ("; requested_by=" ++ who))))
    raise_if (ltb 1000 (count summary)) (value_error "input_summary")
    let context = deployment_context run_id destination summary who artifact_ids artifacts
    found_or_raise (value_error "input_summary")
        (evaluate platform policy_registry "deploy_artifact" summary false (some context))
