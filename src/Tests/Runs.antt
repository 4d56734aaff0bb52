-- ===== src/Tests/Runs.antt =====
-- The theorems on the graph nodes, artifacts and checkpoints of runs/repository.py, at a run without
-- any.
use autonomous_enterprise_ai.Base.{◌≡◌, refl, false, none, some, [], ◌∷◌, return, ◌==◌}
use autonomous_enterprise_ai.Base.Dict.{lookup}
use autonomous_enterprise_ai.Json.{Fields, end, field, num, str}
use autonomous_enterprise_ai.Runs.Models.{GraphNodeRecord, GraphNodeStatus, RunCheckpointRecord}
use autonomous_enterprise_ai.Runs.Repository.{Repository}
use autonomous_enterprise_ai.Runs.Artifacts.{StorageMetadata}
use autonomous_enterprise_ai.Redaction.{redacted, redact_fields, redact_value, is_sensitive_key}
use autonomous_enterprise_ai.Redaction.Clean.{HasCleanFields}
use autonomous_enterprise_ai.Runs.Checkpoints.{get_checkpoint, save_each, get-save}
use autonomous_enterprise_ai.Runs.History.{upsert_graph_node, get_graph_node}
use autonomous_enterprise_ai.Runs.History.Nodes.{upserted, get-upsert}
use autonomous_enterprise_ai.Tests.Samples.{plain, run_1, with_run}

abbrev node_1 : GraphNodeRecord
node_1 = record {
  ident = "profile";
  run_id = "run_1";
  agent_type = "schema";
  status = GraphNodeStatus.running;
  depends_on = [];
  required_tools = [];
  expected_artifacts = [];
  retry_count = 0;
  created_at = 0;
  updated_at = 0;
  started_at = none;
  finished_at = none;
}

open_run : lookup "run_1" with_run.runs ≡ some run_1
unfolding lookup
open_run = refl

open_nodes : lookup "run_1" with_run.graph_nodes ≡ some []
unfolding lookup
open_nodes = refl

get-upsert_example :
    (upsert_graph_node node_1 with_run
      ≡ (return node_1, upserted with_run node_1 open_run open_nodes))
    × (get_graph_node "run_1" "profile" (upserted with_run node_1 open_run open_nodes)
        ≡ (return node_1, upserted with_run node_1 open_run open_nodes))
    × (("profile" == "report") ≡ false
        → (get_graph_node "run_1" "report" (upserted with_run node_1 open_run open_nodes)).0
          ≡ (get_graph_node "run_1" "report" with_run).0)
get-upsert_example = get-upsert with_run node_1 open_run open_nodes "report"

abbrev nothing : StorageMetadata
nothing = record {
  content_type = none;
  storage_backend = none;
  storage_key = none;
  size_bytes = none;
}

no_checkpoint : lookup "run_1" with_run.checkpoints ≡ none
unfolding lookup
no_checkpoint = refl

-- Two saves; the second state has a password.
abbrev step : Fields
step = field "step" (num 1) end

abbrev secret : Fields
secret = field "step" (num 2) (field "password" (str "hunter2") end)

abbrev hidden : Fields
hidden = field "step" (num 2) (field "password" (str redacted) end)

get-save_example :
    let s = save_each plain "run_1" (step ∷ secret ∷ []) with_run in
    (checkpoint : RunCheckpointRecord) × (get_checkpoint "run_1" s ≡ (return checkpoint, s))
    × (checkpoint.state ≡ hidden)
    × HasCleanFields plain checkpoint.state
    × (checkpoint.version ≡ 2)
    × (checkpoint.created_at ≡ 0)
unfolding redact_fields redact_value is_sensitive_key
get-save_example =
    get-save plain "run_1" (step ∷ []) secret hidden with_run open_run no_checkpoint
      ((step, refl), tt) refl
