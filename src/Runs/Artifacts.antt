-- ===== src/Runs/Artifacts.antt =====
-- runs/repository.py: the artifacts of a run. A missing list is Python's KeyError. The span that
-- traces the write is left out.
pub mod Added
use Prim.Native.String.{◌++◌ as str_append}
use mathlib.Core.List.{◌++◌}
use mathlib.Core.Option
use autonomous_enterprise_ai.Base.{
  ℕ, String, Bool, true, false, Option, none, some, List, [], ◌∷◌, return, pure, throw, ◌>>=◌, ◌>>◌,
  ◌==◌, if◌then◌else◌,
}
use autonomous_enterprise_ai.Base.Dict.{lookup, insert}
use autonomous_enterprise_ai.Base.Text.{is_blank, strip_or_none}
use autonomous_enterprise_ai.Json.{Value, Fields, null, bool, num, str, arr, obj, get}
use autonomous_enterprise_ai.Platform.{Platform}
use autonomous_enterprise_ai.Redaction.{redact_fields, redact_uri}
use autonomous_enterprise_ai.Runs.Errors.{key_error, artifact_not_found}
use autonomous_enterprise_ai.Runs.Models.{RunRecord, ArtifactRecord, ArtifactType}
use autonomous_enterprise_ai.Runs.Repository.{
  Repo, found_or_raise, or_value_error, get_run, set_run, utc_now, uuid4,
}

-- What the caller of `add_artifact` gives about the storage.
pub record StorageMetadata : Type 0 where
  pub content_type : Option String
  pub storage_backend : Option String
  pub storage_key : Option String
  pub size_bytes : Option ℕ

-- `a or b`, for a text that may be missing.
abbrev text_or_else : Option String → Option String → Option String
text_or_else none b = b
text_or_else (some s) b = if is_blank s then b else some s

abbrev size_or_else : Option ℕ → Option ℕ → Option ℕ
size_or_else none b = b
size_or_else (some n) b = some n

abbrev pub is_dataset : ArtifactType → Bool
is_dataset ArtifactType.dataset = true
is_dataset _ = false

-- self._artifacts[run_id]
abbrev pub artifacts_of : String → Repo (List ArtifactRecord)
artifacts_of run_id r = found_or_raise (key_error run_id) (lookup run_id r.artifacts) r

abbrev pub set_artifacts : String → List ArtifactRecord → Repo (Unit {0})
set_artifacts run_id artifacts r =
    (return tt, record r { artifacts = insert run_id artifacts r.artifacts })

-- The loop of `get_artifact`.
unfoldable pub artifact_named : String → List ArtifactRecord → Option ArtifactRecord
artifact_named artifact_id [] = none
artifact_named artifact_id (artifact ∷ artifacts) =
    if artifact.ident == artifact_id then some artifact else artifact_named artifact_id artifacts

unfoldable pub get_artifact : (run_id artifact_id : String) → Repo ArtifactRecord
get_artifact run_id artifact_id = do
  get_run run_id
  artifacts ← artifacts_of run_id
  found_or_raise (artifact_not_found artifact_id) (artifact_named artifact_id artifacts)

unfoldable pub list_artifacts : String → Repo (List ArtifactRecord)
list_artifacts run_id = do get_run run_id; artifacts_of run_id

module _ (platform : Platform) where
  -- _optional_string
  unfoldable pub optional_string : Option Value → Option String
  optional_string none = none
  optional_string (some null) = none
  optional_string (some (str s)) = strip_or_none s
  optional_string (some (num n)) = strip_or_none (platform.show n)
  optional_string (some v) = strip_or_none (platform.show_value v)

  -- _optional_int
  unfoldable pub optional_int : Option Value → Option ℕ
  optional_int (some (num n)) = some n
  optional_int (some (bool b)) = some (if b then 1 else 0)
  optional_int (some (str s)) = if is_blank s then none else platform.int_of_text s
  optional_int _ = none

  -- `redact_uri(key) if key else None`; the outer `none` is the ValueError of the redaction.
  unfoldable pub redacted_key : Option String → Option (Option String)
  redacted_key none = some none
  redacted_key (some key) =
      if is_blank key then some none else Option.map some (redact_uri platform key)

  -- _artifact_storage_metadata
  unfoldable pub artifact_storage_metadata : Fields → StorageMetadata → Option StorageMetadata
  unfolding optional_string optional_int redacted_key
  artifact_storage_metadata metadata given =
      let text : Option String → String → Option String =
        λ value key. text_or_else value (optional_string (get key metadata)) in
      Option.map
        (λ key. record {
          content_type = text given.content_type "content_type";
          storage_backend = text given.storage_backend "storage_backend";
          storage_key = key;
          size_bytes = size_or_else given.size_bytes (optional_int (get "size_bytes" metadata));
        })
        (redacted_key (text given.storage_key "storage_key"))

  next_artifact_id : Repo String
  next_artifact_id = do tail ← uuid4 platform; pure (str_append "artifact_" tail)

  unfoldable pub artifact_id_or_next : Option String → Repo String
  unfolding next_artifact_id
  artifact_id_or_next none = next_artifact_id
  artifact_id_or_next (some artifact_id) =
      if is_blank artifact_id then next_artifact_id else pure artifact_id

  -- The record, of a redacted URI, redacted metadata and resolved storage.
  unfoldable pub new_artifact :
      (ident run_id : String)
      → ArtifactType
      → (uri : String) → Fields
      → List String
      → Option String
      → StorageMetadata
      → (now : ℕ) → ArtifactRecord
  new_artifact ident run_id artifact_type uri metadata source_artifact_ids producer_node_id storage
        now =
      record {
        ident = ident;
        run_id = run_id;
        type = artifact_type;
        uri = uri;
        metadata = metadata;
        source_artifact_ids = source_artifact_ids;
        created_at = now;
        producer_node_id = producer_node_id;
        content_type = storage.content_type;
        storage_backend = storage.storage_backend;
        storage_key = storage.storage_key;
        size_bytes = storage.size_bytes;
      }

  -- A dataset becomes the dataset of the run.
  unfoldable pub note_dataset : RunRecord → ArtifactRecord → Repo (Unit {0})
  note_dataset run artifact =
      if is_dataset artifact.type
      then (do
        now ← utc_now platform
        set_run artifact.run_id
            (record run { dataset_artifact_id = some artifact.ident; updated_at = now }))
      else pure tt

  unfoldable pub add_artifact :
      (run_id : String)
      → ArtifactType
      → (uri : String) → Fields
      → (source_artifact_ids : List String) (producer_node_id artifact_id : Option String)
      → StorageMetadata
      → Repo ArtifactRecord
  unfolding new_artifact
  add_artifact run_id artifact_type uri metadata source_artifact_ids producer_node_id artifact_id
        given =
      do
        run ← get_run run_id
        ident ← artifact_id_or_next artifact_id
        normalized_metadata ← or_value_error (redact_fields platform metadata)
        storage ← or_value_error (artifact_storage_metadata normalized_metadata given)
        redacted_uri ← or_value_error (redact_uri platform uri)
        now ← utc_now platform
        let artifact =
            new_artifact ident run_id artifact_type redacted_uri normalized_metadata
              source_artifact_ids producer_node_id storage now
        artifacts ← artifacts_of run_id
        set_artifacts run_id (artifacts ++ artifact ∷ [])
        note_dataset run artifact
        pure artifact
