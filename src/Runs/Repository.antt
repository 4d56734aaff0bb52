-- ===== src/Runs/Repository.antt =====
-- runs/repository.py, `InMemoryRunRepository`: the state, the clock and the identifiers that it
-- draws, and the operations on runs. A method is an action on the state that may raise. The
-- repository's lock makes each method one step.
use Prim.Native.String.{◌++◌, count}
use autonomous_enterprise_ai.Base.{
  ℕ, suc, String, Option, none, some, List, [], ltb, Action, return, pure, throw, raise_if, ◌>>=◌,
  ◌>>◌,
}
use autonomous_enterprise_ai.Base.Dict.{Dict, lookup, insert}
use autonomous_enterprise_ai.Base.Text.{strip, strip_or_none}
use autonomous_enterprise_ai.Json.{Fields}
use autonomous_enterprise_ai.Platform.{Platform}
use autonomous_enterprise_ai.Redaction.{redact_fields, redact_optional}
use autonomous_enterprise_ai.Runs.Errors.{Error, run_not_found, value_error}
use autonomous_enterprise_ai.Runs.Models.{
  RunStatus, RunRecord, WorkflowJobRecord, GraphNodeRecord, ArtifactRecord, AgentEventRecord,
  RunCheckpointRecord,
}

-- `clock` is what the system clock shows, and `drawn` counts the identifiers drawn by `uuid4`.
pub record Repository : Type 0 where
  pub runs : Dict RunRecord
  pub artifacts : Dict (List ArtifactRecord)
  pub graph_nodes : Dict (List GraphNodeRecord)
  pub events : Dict (List AgentEventRecord)
  pub checkpoints : Dict RunCheckpointRecord
  pub workflow_jobs : Dict WorkflowJobRecord
  pub workflow_job_order : List String
  pub clock : ℕ
  pub drawn : ℕ

abbrev pub Repo : Type 0 → Type 0
Repo A = Action Repository Error A

abbrev pub empty : Repository
empty = record {
  runs = [];
  artifacts = [];
  graph_nodes = [];
  events = [];
  checkpoints = [];
  workflow_jobs = [];
  workflow_job_order = [];
  clock = 0;
  drawn = 0;
}

abbrev pub found_or_raise {ℓ} : {A : Type ℓ} → Error → Option A → Action Repository Error A
found_or_raise e none = throw e
found_or_raise e (some a) = pure a

-- A redaction whose reading of a port raises the ValueError.
abbrev pub or_value_error {ℓ} : {A : Type ℓ} → Option A → Action Repository Error A
or_value_error o = found_or_raise (value_error "port") o

-- self._runs[run_id]
abbrev pub get_run : String → Repo RunRecord
get_run run_id r = found_or_raise (run_not_found run_id) (lookup run_id r.runs) r

abbrev pub set_run : String → RunRecord → Repo (Unit {0})
set_run run_id run r = (return tt, record r { runs = insert run_id run r.runs })

-- The five assignments of `create_run`.
abbrev open_run : RunRecord → Repo (Unit {0})
open_run run r = (
  return tt,
  record r {
    runs = insert run.ident run r.runs;
    artifacts = insert run.ident [] r.artifacts;
    graph_nodes = insert run.ident [] r.graph_nodes;
    events = insert run.ident [] r.events;
  },
)

-- `trace_id or ""`
abbrev text_or_empty : Option String → String
text_or_empty none = ""
text_or_empty (some t) = t

module _ (platform : Platform) where
  -- A reading of the clock, which then moves on.
  abbrev pub utc_now : Repo ℕ
  utc_now r = (return r.clock, record r { clock = platform.tick r.clock })

  abbrev pub uuid4 : Repo String
  uuid4 r = (return (platform.show r.drawn), record r { drawn = suc r.drawn })

  -- observability/tracing.py, `ensure_trace_id`
  ensure_trace_id : Option String → Repo String
  ensure_trace_id trace_id = elim (strip_or_none (text_or_empty trace_id)) [
    | some t ↦ pure t
    | none ↦ elim platform.current_trace_id [ some t ↦ pure t | none ↦ uuid4 ]
  ]

  unfoldable pub create_run : String → Fields → Option String → Repo RunRecord
  unfolding ensure_trace_id
  create_run task metadata trace_id = do
    let normalized_task = strip task
    raise_if (ltb (count normalized_task) 3) (value_error "task")
    now ← utc_now
    tail ← uuid4
    clean ← or_value_error (redact_fields platform metadata)
    trace ← ensure_trace_id trace_id
    let run_id = "run_" ++ tail
    let run : RunRecord = record {
      ident = run_id;
      task = normalized_task;
      status = RunStatus.pending;
      metadata = clean;
      created_at = now;
      updated_at = now;
      dataset_artifact_id = none;
      trace_id = some trace;
      error_summary = none;
    }
    open_run run
    pure run

  unfoldable pub update_status : String → RunStatus → Option String → Repo RunRecord
  update_status run_id status error_summary = do
    run ← get_run run_id
    summary ← or_value_error (redact_optional platform error_summary)
    now ← utc_now
    let updated = record run { status = status; error_summary = summary; updated_at = now }
    set_run run_id updated
    pure updated
