-- ===== src/Orchestration/Service/Context.antt =====
-- orchestration/service.py: the context of a decision on a tool.
use mathlib.Core.List.{◌++◌ as append}
use autonomous_enterprise_ai.Base.{
  String, Bool, ◌||◌, Option, none, some, List, [], ◌∷◌, map, any_of, Result, return, raise, pure,
  ◌>>=◌, if◌then◌else◌,
}
use autonomous_enterprise_ai.Base.Text.{strip, is_blank, contains}
use autonomous_enterprise_ai.Json.{
  Value, Fields, num, str, arr, end, field, get, texts, is_truthy, update,
}
use autonomous_enterprise_ai.Platform.{Platform}
use autonomous_enterprise_ai.Runs.Errors.{Error, artifact_not_found}
use autonomous_enterprise_ai.Runs.Models.{GraphNodeRecord, ArtifactRecord}
use autonomous_enterprise_ai.Runs.Repository.{Repo, get_run}
use autonomous_enterprise_ai.Runs.Artifacts.{get_artifact}
use autonomous_enterprise_ai.Security.Policy.{PolicyEvaluationContext}
use autonomous_enterprise_ai.Security.Policy.Contexts.{
  type_name, sorted_set, joined, is_affirmative,
}
use autonomous_enterprise_ai.Orchestration.Service.{known_artifacts}

-- The identifier of the dataset at the end, where it is not in the list.
abbrev pub with_dataset : Option String → List String → List String
with_dataset none ids = ids
with_dataset (some dataset) ids =
    if is_blank dataset || contains dataset ids then ids else append ids (dataset ∷ [])

-- `except ArtifactNotFoundError: continue`
abbrev found_or_skipped : Result Error ArtifactRecord → Result Error (List ArtifactRecord)
found_or_skipped (return artifact) = return (artifact ∷ [])
found_or_skipped (raise (artifact_not_found artifact_id)) = return []
found_or_skipped (raise e) = raise e

unfoldable pub find_artifact : (run_id artifact_id : String) → Repo (List ArtifactRecord)
find_artifact run_id artifact_id r =
    let (answer, s) = get_artifact run_id artifact_id r in (found_or_skipped answer, s)

unfoldable pub find_artifacts : String → List String → Repo (List ArtifactRecord)
find_artifacts run_id [] = pure []
find_artifacts run_id (artifact_id ∷ ids) = do
  found ← find_artifact run_id artifact_id
  rest ← find_artifacts run_id ids
  pure (append found rest)

-- `x or y`, for values that may be missing
abbrev or_value : Option Value → Option Value → Option Value
or_value none y = y
or_value (some v) y = if is_truthy v then some v else y

-- The first truthy value of the key in the metadata, or the last value.
unfoldable pub first_value : String → Option Value → List ArtifactRecord → Option Value
first_value key found [] = found
first_value key found (artifact ∷ artifacts) =
    first_value key (or_value found (get key artifact.metadata)) artifacts

unfoldable pub merged_metadata : Fields → List ArtifactRecord → Fields
merged_metadata metadata [] = metadata
merged_metadata metadata (artifact ∷ artifacts) =
    merged_metadata (update metadata artifact.metadata) artifacts

module _ (platform : Platform) where
  -- `str` of a value
  abbrev pub display : Value → String
  display (str s) = s
  display (num n) = platform.show n
  display v = platform.show_value v

  -- `str(value) if value else None`
  abbrev text_if_truthy : Option Value → Option String
  text_if_truthy none = none
  text_if_truthy (some v) = if is_truthy v then some (display v) else none

  -- _metadata_is_sensitive
  unfoldable pub metadata_is_sensitive : Fields → Bool
  metadata_is_sensitive metadata =
      any_of (λ key. is_affirmative platform (get key metadata))
        ("sensitive" ∷ "pii" ∷ "contains_pii" ∷ "secret" ∷ [])

  unfoldable pub tool_context :
      GraphNodeRecord
      → (input_summary : String) (approved : Bool) → List ArtifactRecord
      → PolicyEvaluationContext
  tool_context node input_summary approved artifacts =
      let types = sorted_set (map (λ artifact. type_name artifact.type) artifacts) in
      record {
        input_summary = strip input_summary;
        approved = approved;
        agent_type = some node.agent_type;
        node_id = some node.ident;
        run_id = some node.run_id;
        connector_id = text_if_truthy (first_value "connector_id" none artifacts);
        credential_profile_id = text_if_truthy (first_value "credential_profile_id" none artifacts);
        artifact_type = elim types [ [] ↦ none | t ∷ ts ↦ some (joined (t ∷ ts)) ];
        artifact_sensitive = any_of (λ artifact. metadata_is_sensitive artifact.metadata) artifacts;
        destination = none;
        metadata =
            merged_metadata (field "required_tools" (arr (texts node.required_tools)) end)
              artifacts;
      }

  -- _policy_context_for_tool
  unfoldable pub policy_context_for_tool :
      GraphNodeRecord
      → Fields
      → (input_summary : String) (approved : Bool) → Repo PolicyEvaluationContext
  policy_context_for_tool node state input_summary approved = do
    known ← known_artifacts state
    run ← get_run node.run_id
    artifacts ← find_artifacts node.run_id (with_dataset run.dataset_artifact_id known)
    pure (tool_context node input_summary approved artifacts)
