-- ===== src/Deployments/Approvals.antt =====
-- deployments/approvals.py: the decision on a deployment that waits for approval.
pub mod Refusals
use Prim.Native.String.{◌++◌}
use autonomous_enterprise_ai.Base.{
  ℕ, String, Bool, true, false, not, Option, none, some, List, [], ◌∷◌, length, pure, throw,
  raise_if, ◌>>=◌, ◌>>◌, ◌==◌, if◌then◌else◌,
}
use autonomous_enterprise_ai.Base.Text.{strip, strip_or_none, is_blank, contains}
use autonomous_enterprise_ai.Json.{
  Fields, Value, Items, null, bool, num, str, arr, obj, nil, item, end, field, get, put, or_null,
}
use autonomous_enterprise_ai.Platform.{Platform}
use autonomous_enterprise_ai.Runs.Errors.{key_error, type_error, deployment_approval_error}
use autonomous_enterprise_ai.Runs.JobStatus
use autonomous_enterprise_ai.Runs.JobStatus.{WorkflowJobStatus}
use autonomous_enterprise_ai.Runs.Models.{
  RunStatus, WorkflowJobRecord, ArtifactRecord, ArtifactType, AgentEventRecord,
}
use autonomous_enterprise_ai.Runs.Repository.{
  Repo, found_or_raise, get_run, update_status, utc_now, uuid4,
}
use autonomous_enterprise_ai.Runs.Jobs.Queue.{get_workflow_job}
use autonomous_enterprise_ai.Runs.Jobs.Outcomes.{update_workflow_job_result}
use autonomous_enterprise_ai.Runs.Jobs.Recovery.{history_items}
use autonomous_enterprise_ai.Runs.Artifacts.{StorageMetadata, add_artifact, get_artifact}
use autonomous_enterprise_ai.Runs.History.{add_event}

pub record DeploymentDecisionResult : Type 0 where
  pub job : WorkflowJobRecord
  pub deployment_artifact : Option ArtifactRecord

-- _normalize_required
unfoldable pub normalize_required : (value message : String) → Repo String
normalize_required value message = do
  let normalized = strip value
  raise_if (is_blank normalized) (deployment_approval_error message)
  pure normalized

-- _normalize_optional
unfoldable pub normalize_optional : Option String → Option String
normalize_optional none = none
normalize_optional (some value) = strip_or_none value

-- The request type of the payload is another text, or no text.
abbrev pub is_other_request : Option Value → Bool
is_other_request (some (str s)) = not (s == "deployment_approval")
is_other_request _ = true

-- _assert_deployment_job
unfoldable pub assert_deployment_job : WorkflowJobRecord → String → Repo (Unit {0})
assert_deployment_job job run_id = do
  raise_if (not (job.run_id == run_id)) (deployment_approval_error "not found for run")
  raise_if (not (job.workflow_name == "deployment")) (deployment_approval_error "not a deployment")
  raise_if (is_other_request (get "request_type" job.payload))
      (deployment_approval_error "no approval payload")

-- The loop of `_validate_artifact_ids`, with the identifiers seen so far.
unfoldable pub validate_each : String → (seen artifact_ids : List String) → Repo (List String)
validate_each run_id seen [] = pure []
validate_each run_id seen (artifact_id ∷ artifact_ids) =
    let normalized = strip artifact_id in
    let skip = validate_each run_id seen artifact_ids in
    let keep : Repo (List String) = (do
      get_artifact run_id normalized
      rest ← validate_each run_id (normalized ∷ seen) artifact_ids
      pure (normalized ∷ rest)) in
    if is_blank normalized then skip else if contains normalized seen then skip else keep

abbrev none_left : List String → Bool
none_left [] = true
none_left (x ∷ xs) = false

unfoldable pub validate_artifact_ids :
    (run_id : String) (artifact_ids : List String) → Repo (List String)
validate_artifact_ids run_id artifact_ids = do
  normalized_artifact_ids ← validate_each run_id [] artifact_ids
  raise_if (none_left normalized_artifact_ids) (deployment_approval_error "no artifact")
  pure normalized_artifact_ids

abbrev decision_name : Bool → String
decision_name true = "approved"
decision_name false = "denied"

-- payload[key]
abbrev required : String → Fields → Repo Value
required key payload = found_or_raise (key_error key) (get key payload)

-- list(payload["artifact_ids"])
unfoldable pub artifact_ids_of : Fields → Repo Items
artifact_ids_of payload = do
  ids ← required "artifact_ids" payload
  found_or_raise (type_error "artifact_ids") (history_items (some ids))

-- The identifiers in the list: a request writes texts only.
abbrev texts : Items → List String
texts nil = []
texts (item (str s) xs) = s ∷ texts xs
texts (item v xs) = texts xs

-- `payload.get("metadata") or {}`
abbrev or_empty_dict : Option Value → Value
or_empty_dict none = obj end
or_empty_dict (some null) = obj end
or_empty_dict (some (bool false)) = obj end
or_empty_dict (some (num ℕ.zero)) = obj end
or_empty_dict (some (str String.[])) = obj end
or_empty_dict (some (arr nil)) = obj end
or_empty_dict (some v) = v

abbrev get_or_null : String → Fields → Value
get_or_null key payload = elim (get key payload) [ none ↦ null | some v ↦ v ]

module _ (platform : Platform) where
  -- `str` of a value
  abbrev display : Value → String
  display (str s) = s
  display (num n) = platform.show n
  display v = platform.show_value v

  -- The payload with the decision.
  unfoldable pub decided_payload :
      Fields → (approved : Bool) (approver : String) → Option String → (now : ℕ) → Fields
  decided_payload payload approved approver rationale now =
      let decision = decision_name approved in
      put "approval"
        (obj (
          field "decision" (str decision) (
            field "approved" (bool approved) (
              field "approver" (str approver) (
                field "rationale" (or_null rationale)
                  (field "decided_at" (str (platform.isoformat now)) end))))))
        (put "deployment_status" (str decision) payload)

  -- The artifact of an approved deployment.
  unfoldable pub add_deployment_artifact :
      (run_id : String)
      → WorkflowJobRecord
      → (payload : Fields) (approver : String) → Option String
      → (now : ℕ) → Repo ArtifactRecord
  add_deployment_artifact run_id job payload approver rationale now = do
    destination ← required "destination" payload
    artifact_ids ← artifact_ids_of payload
    let metadata = field "workflow_job_id" (str job.ident) (
        field "deployment_status" (str "approved") (
          field "destination" destination (
            field "artifact_ids" (arr artifact_ids) (
              field "requested_by" (get_or_null "requested_by" payload) (
                field "request_rationale" (get_or_null "request_rationale" payload) (
                  field "approved_by" (str approver) (
                    field "approval_rationale" (or_null rationale) (
                      field "approved_at" (str (platform.isoformat now))
                        (field "metadata" (or_empty_dict (get "metadata" payload)) end)))))))))
    let uri = "deployment://" ++ (display destination ++ ("/" ++ job.ident))
    add_artifact platform run_id ArtifactType.deployment uri metadata (texts artifact_ids)
        (some "deployment") none
        (record {
          content_type = none;
          storage_backend = none;
          storage_key = none;
          size_bytes = none;
        })

  -- The two branches on `approved`: the artifact, and the payload, status and summary of the job.
  unfoldable pub carry_out :
      (run_id : String)
      → WorkflowJobRecord
      → (payload : Fields) (approved : Bool) (approver : String) → Option String
      → (now : ℕ) → Repo (Option ArtifactRecord × Fields × WorkflowJobStatus × Option String)
  carry_out run_id job payload true approver rationale now = do
    artifact ← add_deployment_artifact run_id job payload approver rationale now
    update_status platform run_id RunStatus.completed none
    pure (
      some artifact,
      put "deployment_artifact_id" (str artifact.ident) payload,
      WorkflowJobStatus.completed,
      none,
    )
  carry_out run_id job payload false approver rationale now = do
    let error_summary = some "Deployment approval denied."
    update_status platform run_id RunStatus.failed error_summary
    pure (none, payload, WorkflowJobStatus.failed, error_summary)

  abbrev artifact_ident : Option ArtifactRecord → Value
  artifact_ident none = null
  artifact_ident (some artifact) = str artifact.ident

  -- The event of the decision.
  unfoldable pub add_decision_event :
      (run_id : String)
      → WorkflowJobRecord
      → Option ArtifactRecord
      → (payload : Fields) (approved : Bool) (approver : String) → Option String
      → (now : ℕ) → Repo AgentEventRecord
  add_decision_event run_id job artifact payload approved approver rationale now = do
    tail ← uuid4 platform
    artifact_ids ← artifact_ids_of payload
    destination ← required "destination" payload
    let decision = decision_name approved
    add_event platform (record {
      ident = "event_" ++ tail;
      run_id = run_id;
      node_id = "deployment";
      event_type = "approval_decision";
      payload = field "message" (str ("Deployment " ++ (decision ++ "."))) (
          field "workflow_job_id" (str job.ident) (
            field "deployment_job_id" (str job.ident) (
              field "deployment_artifact_id" (artifact_ident artifact) (
                field "artifact_ids" (arr artifact_ids) (
                  field "destination" destination (
                    field "decision" (str decision) (
                      field "approved" (bool approved) (
                        field "approver" (str approver) (
                          field "rationale" (or_null rationale)
                            (field "timestamp" (str (platform.isoformat now)) end))))))))));
      created_at = now;
    })

  -- From the clock on: the approver, the decision and its records.
  unfoldable pub decide_on :
      (run_id : String)
      → WorkflowJobRecord
      → (approved : Bool) (approver : String) → Option String
      → Repo DeploymentDecisionResult
  decide_on run_id job approved approver rationale = do
    now ← utc_now platform
    normalized_approver ← normalize_required approver "approver"
    let normalized_rationale = normalize_optional rationale
    let decided = decided_payload job.payload approved normalized_approver normalized_rationale now
    (artifact, payload, status, error_summary) ←
        carry_out run_id job decided approved normalized_approver normalized_rationale now
    updated_job ← update_workflow_job_result platform job.ident status (some payload) error_summary
    add_decision_event run_id job artifact payload approved normalized_approver normalized_rationale
        now
    pure (record { job = updated_job; deployment_artifact = artifact })

  unfoldable pub decide_deployment_approval :
      (run_id job_id : String) (approved : Bool) (approver : String)
      → Option String
      → Repo DeploymentDecisionResult
  decide_deployment_approval run_id job_id approved approver rationale = do
    get_run run_id
    job ← get_workflow_job job_id
    assert_deployment_job job run_id
    raise_if (not (JobStatus.is_waiting job.status)) (deployment_approval_error "not waiting")
    decide_on run_id job approved approver rationale
