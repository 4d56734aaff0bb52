-- ===== src/Runs/Checkpoints.antt =====
-- runs/repository.py: save_checkpoint and get_checkpoint.
use mathlib.Core.List.{◌++◌}
use autonomous_enterprise_ai.Base.{
  ℕ, ◌+◌, ◌≡◌, refl, sym, subst, String, Option, none, some, List, [], ◌∷◌, All, length, arith,
  return, pure, ◌>>=◌, ◌>>◌,
}
use autonomous_enterprise_ai.Base.Dict.{lookup, insert, lookup-insert-same}
use autonomous_enterprise_ai.Json.{Fields}
use autonomous_enterprise_ai.Platform.{Platform}
use autonomous_enterprise_ai.Redaction.{redact_fields}
use autonomous_enterprise_ai.Redaction.Clean.{HasCleanFields, redact_fields-HasCleanFields}
use autonomous_enterprise_ai.Runs.Errors.{run_checkpoint_not_found}
use autonomous_enterprise_ai.Runs.Models.{RunRecord, RunCheckpointRecord}
use autonomous_enterprise_ai.Runs.Repository.{
  Repository, Repo, found_or_raise, or_value_error, get_run, utc_now,
}

-- self._checkpoints.get(run_id)
abbrev checkpoint_of : String → Repo (Option RunCheckpointRecord)
checkpoint_of run_id r = (return (lookup run_id r.checkpoints), r)

abbrev pub set_checkpoint : String → RunCheckpointRecord → Repo (Unit {0})
set_checkpoint run_id checkpoint r =
    (return tt, record r { checkpoints = insert run_id checkpoint r.checkpoints })

-- `existing.version + 1 if existing else 1`
unfoldable pub next_version : Option RunCheckpointRecord → ℕ
next_version none = 1
next_version (some existing) = existing.version + 1

-- `existing.created_at if existing else now`
unfoldable pub first_created : Option RunCheckpointRecord → ℕ → ℕ
first_created none now = now
first_created (some existing) now = existing.created_at

-- The record, of a redacted state.
abbrev pub new_checkpoint :
    String → Fields → Option RunCheckpointRecord → (now : ℕ) → RunCheckpointRecord
new_checkpoint run_id state existing now = record {
  run_id = run_id;
  state = state;
  version = next_version existing;
  created_at = first_created existing now;
  updated_at = now;
}

unfoldable pub save_checkpoint : Platform → String → Fields → Repo RunCheckpointRecord
save_checkpoint platform run_id state = do
  get_run run_id
  now ← utc_now platform
  existing ← checkpoint_of run_id
  clean ← or_value_error (redact_fields platform state)
  let checkpoint = new_checkpoint run_id clean existing now
  set_checkpoint run_id checkpoint
  pure checkpoint

unfoldable pub get_checkpoint : String → Repo RunCheckpointRecord
get_checkpoint run_id = do
  get_run run_id
  existing ← checkpoint_of run_id
  found_or_raise (run_checkpoint_not_found run_id) existing

-- The redaction of the state raises nothing.
abbrev pub CanSave : Platform → Fields → Type 0
CanSave platform state = (clean : Fields) × (redact_fields platform state ≡ some clean)

module _ (platform : Platform) (run_id : String) where
  -- The states are saved one after the other.
  pub save_each : List Fields → Repository → Repository
  save_each [] r = r
  save_each (state ∷ states) r = save_each states (save_checkpoint platform run_id state r).1

  -- The repository after a save.
  abbrev saved : RunCheckpointRecord → Repository → Repository
  saved checkpoint r = record r {
    clock = platform.tick r.clock;
    checkpoints = insert run_id checkpoint r.checkpoints;
  }

  save_lem :
      (state clean : Fields) (existing : Option RunCheckpointRecord) (r : Repository)
      {run : RunRecord}
      → lookup run_id r.runs ≡ some run
      → lookup run_id r.checkpoints ≡ existing
      → redact_fields platform state ≡ some clean
      → (save_checkpoint platform run_id state r).1
        ≡ saved (new_checkpoint run_id clean existing r.clock) r
  unfolding save_checkpoint
  save_lem state clean existing r present there e = rw (present, e, there) refl

  -- What is read from the repository.
  abbrev Reads : Repository → Fields → (version created_at : ℕ) → Type 0
  Reads s clean version created_at =
      (checkpoint : RunCheckpointRecord) × (get_checkpoint run_id s ≡ (return checkpoint, s))
      × (checkpoint.state ≡ clean)
      × (checkpoint.version ≡ version)
      × (checkpoint.created_at ≡ created_at)

  saved-Reads :
      (checkpoint : RunCheckpointRecord) (r : Repository) {run : RunRecord}
      → lookup run_id r.runs ≡ some run
      → Reads (saved checkpoint r) checkpoint.state checkpoint.version checkpoint.created_at
  unfolding get_checkpoint
  saved-Reads checkpoint r present = (
    checkpoint,
    rw (present, lookup-insert-same run_id checkpoint r.checkpoints) refl,
    refl,
    refl,
    refl,
  )

  save-Reads :
      (states : List Fields) (old : RunCheckpointRecord) (r : Repository) {run : RunRecord}
      → lookup run_id r.runs ≡ some run
      → lookup run_id r.checkpoints ≡ some old
      → All (CanSave platform) states
      → (last clean : Fields) → redact_fields platform last ≡ some clean
      → Reads
          (save_each (states ++ last ∷ []) r)
          clean
          (old.version + (length states + 1))
          old.created_at
  unfolding save_each next_version first_created
  save-Reads [] old r present there can last clean e =
      let checkpoint = new_checkpoint run_id clean (some old) r.clock in
      subst (λ s. Reads s clean (old.version + 1) old.created_at)
        (sym (save_lem last clean (some old) r present there e)) (saved-Reads checkpoint r present)
  save-Reads (state ∷ states) old r present there ((next, ok), rest) last clean e =
      let checkpoint = new_checkpoint run_id next (some old) r.clock in
      let version = old.version + (length (state ∷ states) + 1) in
      subst (λ s. Reads (save_each (states ++ last ∷ []) s) clean version old.created_at)
        (sym (save_lem state next (some old) r present there ok))
        (subst
          (λ n. Reads (save_each (states ++ last ∷ []) (saved checkpoint r)) clean n old.created_at)
          (omega arith)
          (save-Reads states checkpoint (saved checkpoint r) present
            (lookup-insert-same run_id checkpoint r.checkpoints) rest last clean e))

  first_save-Reads :
      (states : List Fields) (r : Repository) {run : RunRecord}
      → lookup run_id r.runs ≡ some run
      → lookup run_id r.checkpoints ≡ none
      → All (CanSave platform) states
      → (last clean : Fields) → redact_fields platform last ≡ some clean
      → Reads (save_each (states ++ last ∷ []) r) clean (length states + 1) r.clock
  unfolding save_each next_version first_created
  first_save-Reads [] r present absent can last clean e =
      subst (λ s. Reads s clean 1 r.clock) (sym (save_lem last clean none r present absent e))
        (saved-Reads (new_checkpoint run_id clean none r.clock) r present)
  first_save-Reads (state ∷ states) r present absent ((next, ok), rest) last clean e =
      let checkpoint = new_checkpoint run_id next none r.clock in
      let version = length (state ∷ states) + 1 in
      subst (λ s. Reads (save_each (states ++ last ∷ []) s) clean version r.clock)
        (sym (save_lem state next none r present absent ok))
        (subst (λ n. Reads (save_each (states ++ last ∷ []) (saved checkpoint r)) clean n r.clock)
          (omega arith)
          (save-Reads states checkpoint (saved checkpoint r) present
            (lookup-insert-same run_id checkpoint r.checkpoints) rest last clean e))

-- In a repository that has the run and no checkpoint of it, saves of states whose redaction raises
-- nothing, one after the other: what is read afterwards is the redaction of the last state, with
-- nothing but the mark under a sensitive key. Its version is the number of saves, and its time of
-- creation is that of the first save.
pub get-save :
    (platform : Platform) (run_id : String) (states : List Fields) (last clean : Fields)
    (r : Repository) {run : RunRecord}
    → lookup run_id r.runs ≡ some run
    → lookup run_id r.checkpoints ≡ none
    → All (CanSave platform) states
    → redact_fields platform last ≡ some clean
    → let s = save_each platform run_id (states ++ last ∷ []) r in
      (checkpoint : RunCheckpointRecord) × (get_checkpoint run_id s ≡ (return checkpoint, s))
      × (checkpoint.state ≡ clean)
      × HasCleanFields platform checkpoint.state
      × (checkpoint.version ≡ length states + 1)
      × (checkpoint.created_at ≡ r.clock)
get-save platform run_id states last clean r present absent can e =
    let (checkpoint, read, same, version, created) =
      first_save-Reads platform run_id states r present absent can last clean e in
    (
      checkpoint,
      read,
      same,
      subst (HasCleanFields platform) (sym same)
          (redact_fields-HasCleanFields platform last clean e),
      version,
      created,
    )
