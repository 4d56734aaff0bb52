-- ===== src/Runs/Artifacts/Added.antt =====
-- runs/repository.py: what the repository returns for the artifacts of a run after add_artifact.
use mathlib.Core.List.{◌++◌}
use autonomous_enterprise_ai.Base.{◌≡◌, String, some, List, [], ◌∷◌, return, if◌then◌else◌}
use autonomous_enterprise_ai.Base.Dict.{lookup}
use autonomous_enterprise_ai.Json.{Fields}
use autonomous_enterprise_ai.Platform.{Platform}
use autonomous_enterprise_ai.Redaction.{redact_fields, redact_uri}
use autonomous_enterprise_ai.Redaction.Clean.{HasCleanFields}
use autonomous_enterprise_ai.Runs.Models.{RunRecord, ArtifactRecord, ArtifactType}
use autonomous_enterprise_ai.Runs.Repository.{Repository}
use autonomous_enterprise_ai.Runs.Artifacts.{is_dataset, list_artifacts}

-- The artifact stands at the end of the artifacts of the run, which were `artifacts`, with the
-- redactions of the URI and of the metadata, and the dataset of the run is the artifact, if that is
-- a dataset, and otherwise the one that it was.
abbrev pub IsAdded :
    Platform
    → (run_id : String) → RunRecord
    → List ArtifactRecord
    → ArtifactType
    → (uri : String) → Fields
    → ArtifactRecord
    → Repository
    → Type 0
IsAdded platform run_id run artifacts artifact_type uri metadata artifact s =
    (list_artifacts run_id s ≡ (return (artifacts ++ artifact ∷ []), s))
    × (redact_uri platform uri ≡ some artifact.uri)
    × (redact_fields platform metadata ≡ some artifact.metadata)
    × HasCleanFields platform artifact.metadata
    × ((now : RunRecord) × (lookup run_id s.runs ≡ some now)
        × (now.dataset_artifact_id
            ≡ (if is_dataset artifact_type then some artifact.ident else run.dataset_artifact_id)))
