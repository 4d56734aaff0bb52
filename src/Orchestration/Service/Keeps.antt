-- ===== src/Orchestration/Service/Keeps.antt =====
-- orchestration/service.py: the parts of the service that write no graph node.
pub mod Tools
use Prim.Native.String.{◌++◌}
use autonomous_enterprise_ai.Base.{
  ℕ, ◌≡◌, refl, ◌∙◌, String, Bool, true, false, Option, none, some, List, [], ◌∷◌, Result, return,
  raise, pure, throw, raise_if, and_then, ◌>>=◌, ◌>>◌, if◌then◌else◌,
}
use autonomous_enterprise_ai.Base.Dict.{Dict, lookup}
use autonomous_enterprise_ai.Json.{Value, Fields, Items, null, obj, arr}
use autonomous_enterprise_ai.Platform.{Platform}
use autonomous_enterprise_ai.Redaction.{redact_fields, redact_optional}
use autonomous_enterprise_ai.Runs.Errors.{Error}
use autonomous_enterprise_ai.Runs.Models.{RunStatus, RunRecord, GraphNodeRecord, AgentEventRecord}
use autonomous_enterprise_ai.Runs.Repository.{
  Repository, Repo, found_or_raise, get_run, set_run, update_status, utc_now, uuid4,
}
use autonomous_enterprise_ai.Runs.Artifacts.{get_artifact, artifacts_of}
use autonomous_enterprise_ai.Runs.History.{list_graph_nodes, add_event, events_of, set_events}
use autonomous_enterprise_ai.Runs.Checkpoints.{
  new_checkpoint, set_checkpoint, save_checkpoint, get_checkpoint,
}
use autonomous_enterprise_ai.Orchestration.Service.{
  OrchestratorService, value_at, as_dict, as_items, dict_at, plan_of, plan_item, ordered_nodes,
  refresh_state_from_nodes, load_state, result, known_artifacts, record_event, timestamp,
  node_duration_ms,
}

-- The action leaves the graph nodes of every run as they were, also where it raises.
pub record KeepsNodes {A : Type 0} (m : Repo A) : Type 0 where
  pub at : (r : Repository) → (m r).1.graph_nodes ≡ r.graph_nodes

module _ {A : Type 0} where
  pub KeepsNodes-pure : (a : A) → KeepsNodes (pure a)
  KeepsNodes-pure a = record { at = λ r. refl }

  pub KeepsNodes-throw : (e : Error) → KeepsNodes {A = A} (throw e)
  KeepsNodes-throw e = record { at = λ r. refl }

  pub KeepsNodes-found : (e : Error) (o : Option A) → KeepsNodes (found_or_raise e o)
  KeepsNodes-found e none = KeepsNodes-throw e
  KeepsNodes-found e (some a) = KeepsNodes-pure a

  pub KeepsNodes-if :
      (b : Bool) (m n : Repo A) → KeepsNodes m → KeepsNodes n → KeepsNodes (if b then m else n)
  KeepsNodes-if true m n x y = x
  KeepsNodes-if false m n x y = y

and_then-KeepsNodes :
    {A B : Type 0} (x : Result Error A) (f : A → Repo B) (r : Repository)
    → ((a : A) → KeepsNodes (f a))
    → (and_then x f r).1.graph_nodes ≡ r.graph_nodes
and_then-KeepsNodes (return a) f r h = (h a).at r
and_then-KeepsNodes (raise e) f r h = refl

pub KeepsNodes-bind :
    {A B : Type 0} (m : Repo A) (f : A → Repo B)
    → KeepsNodes m
    → ((a : A) → KeepsNodes (f a))
    → KeepsNodes (m >>= f)
KeepsNodes-bind m f x y = record { at = λ r. and_then-KeepsNodes (m r).0 f (m r).1 y ∙ x.at r }

pub KeepsNodes-bind_found :
    {A B : Type 0} (e : Error) (o : Option A) (f : A → Repo B)
    → ((a : A) → o ≡ some a → KeepsNodes (f a))
    → KeepsNodes (found_or_raise e o >>= f)
KeepsNodes-bind_found e none f y = record { at = λ r. refl }
KeepsNodes-bind_found e (some a) f y = record { at = (y a refl).at }

pub KeepsNodes-get_run : (run_id : String) → KeepsNodes (get_run run_id)
KeepsNodes-get_run run_id = record { at = λ r. (KeepsNodes-found _ (lookup run_id r.runs)).at r }

KeepsNodes-set_run : (run_id : String) (run : RunRecord) → KeepsNodes (set_run run_id run)
KeepsNodes-set_run run_id run = record { at = λ r. refl }

pub KeepsNodes-as_dict : (v : Value) → KeepsNodes (as_dict v)
KeepsNodes-as_dict (obj fs) = KeepsNodes-pure fs
KeepsNodes-as_dict _ = KeepsNodes-throw _

pub KeepsNodes-as_items : (v : Value) → KeepsNodes (as_items v)
KeepsNodes-as_items (arr xs) = KeepsNodes-pure xs
KeepsNodes-as_items _ = KeepsNodes-throw _

pub ruleset base = (
  KeepsNodes-pure, KeepsNodes-throw, KeepsNodes-found, KeepsNodes-if, KeepsNodes-bind,
  KeepsNodes-get_run, KeepsNodes-as_dict, KeepsNodes-as_items,
)

module _ (platform : Platform) where
  pub KeepsNodes-utc_now : KeepsNodes (utc_now platform)
  KeepsNodes-utc_now = record { at = λ r. refl }

  pub KeepsNodes-uuid4 : KeepsNodes (uuid4 platform)
  KeepsNodes-uuid4 = record { at = λ r. refl }

  pub KeepsNodes-update_status :
      (run_id : String) (status : RunStatus) (summary : Option String)
      → KeepsNodes (update_status platform run_id status summary)
  unfolding update_status
  KeepsNodes-update_status run_id status summary =
      search (base, KeepsNodes-utc_now, KeepsNodes-set_run)

  pub KeepsNodes-save_checkpoint :
      (run_id : String) (state : Fields) → KeepsNodes (save_checkpoint platform run_id state)
  unfolding save_checkpoint
  KeepsNodes-save_checkpoint run_id state = KeepsNodes-bind _ _ (KeepsNodes-get_run run_id) (λ run.
      record {
        at = λ r.
            (KeepsNodes-bind_found _ (redact_fields platform state)
                (λ clean. do
                  let checkpoint = new_checkpoint run_id clean (lookup run_id r.checkpoints) r.clock
                  set_checkpoint run_id checkpoint
                  pure checkpoint)
                (λ clean e. record { at = λ s. refl })).at
              (record r { clock = platform.tick r.clock });
      })

  pub KeepsNodes-timestamp : KeepsNodes (timestamp platform)
  unfolding timestamp
  KeepsNodes-timestamp = record { at = λ r. refl }

pub KeepsNodes-value_at : (key : String) (state : Fields) → KeepsNodes (value_at key state)
KeepsNodes-value_at key state = KeepsNodes-found _ _

pub KeepsNodes-dict_at : (key : String) (state : Fields) → KeepsNodes (dict_at key state)
unfolding dict_at
KeepsNodes-dict_at key state = search base

pub KeepsNodes-plan_of : (state : Fields) → KeepsNodes (plan_of state)
unfolding plan_of
KeepsNodes-plan_of state = search base

pub ruleset keeps_rules = (
  base, KeepsNodes-utc_now, KeepsNodes-uuid4, KeepsNodes-update_status, KeepsNodes-save_checkpoint,
  KeepsNodes-timestamp, KeepsNodes-value_at, KeepsNodes-dict_at, KeepsNodes-plan_of,
)

pub KeepsNodes-plan_item :
    (state : Fields) (node_id : String) → KeepsNodes (plan_item state node_id)
unfolding plan_item
KeepsNodes-plan_item state node_id = search keeps_rules

pub KeepsNodes-list_graph_nodes : (run_id : String) → KeepsNodes (list_graph_nodes run_id)
unfolding list_graph_nodes
KeepsNodes-list_graph_nodes run_id =
    KeepsNodes-bind _ _ (KeepsNodes-get_run run_id)
      (λ run. record { at = λ r. (KeepsNodes-found _ (lookup run_id r.graph_nodes)).at r })

pub KeepsNodes-ordered_nodes :
    (run_id : String) (state : Fields) → KeepsNodes (ordered_nodes run_id state)
unfolding ordered_nodes
KeepsNodes-ordered_nodes run_id state = search (keeps_rules, KeepsNodes-list_graph_nodes)

pub KeepsNodes-refresh :
    (run_id : String) (state : Fields) → KeepsNodes (refresh_state_from_nodes run_id state)
unfolding refresh_state_from_nodes
KeepsNodes-refresh run_id state = search (keeps_rules, KeepsNodes-ordered_nodes)

pub KeepsNodes-get_checkpoint : (run_id : String) → KeepsNodes (get_checkpoint run_id)
unfolding get_checkpoint
KeepsNodes-get_checkpoint run_id =
    KeepsNodes-bind _ _ (KeepsNodes-get_run run_id)
      (λ run. record { at = λ r. (KeepsNodes-found _ (lookup run_id r.checkpoints)).at r })

pub KeepsNodes-load_state : (run_id : String) → KeepsNodes (load_state run_id)
unfolding load_state
KeepsNodes-load_state run_id = record {
  at =
      (KeepsNodes-bind (get_checkpoint run_id) (λ c. pure c.state)
        (KeepsNodes-get_checkpoint run_id) (λ c. KeepsNodes-pure c.state)).at;
}

pub KeepsNodes-result :
    (run_id : String) (status : RunStatus) (state : Fields)
    → KeepsNodes (result run_id status state)
unfolding result
KeepsNodes-result run_id status state = search (keeps_rules, KeepsNodes-refresh)

pub KeepsNodes-known_artifacts : (state : Fields) → KeepsNodes (known_artifacts state)
unfolding known_artifacts
KeepsNodes-known_artifacts state = search keeps_rules

KeepsNodes-artifacts_of : (run_id : String) → KeepsNodes (artifacts_of run_id)
KeepsNodes-artifacts_of run_id = record {
  at = λ r. (KeepsNodes-found _ (lookup run_id r.artifacts)).at r;
}

KeepsNodes-events_of : (run_id : String) → KeepsNodes (events_of run_id)
KeepsNodes-events_of run_id = record {
  at = λ r. (KeepsNodes-found _ (lookup run_id r.events)).at r;
}

KeepsNodes-set_events :
    (run_id : String) (events : List AgentEventRecord) → KeepsNodes (set_events run_id events)
KeepsNodes-set_events run_id events = record { at = λ r. refl }

pub KeepsNodes-get_artifact :
    (run_id artifact_id : String) → KeepsNodes (get_artifact run_id artifact_id)
unfolding get_artifact
KeepsNodes-get_artifact run_id artifact_id = search (keeps_rules, KeepsNodes-artifacts_of)

module _ (platform : Platform) where
  pub KeepsNodes-add_event : (event : AgentEventRecord) → KeepsNodes (add_event platform event)
  unfolding add_event
  KeepsNodes-add_event event = search (keeps_rules, KeepsNodes-events_of, KeepsNodes-set_events)

  pub KeepsNodes-record_event :
      (run_id node_id event_type : String) (payload : Fields)
      → KeepsNodes (record_event platform run_id node_id event_type payload)
  unfolding record_event
  KeepsNodes-record_event run_id node_id event_type payload =
      search (keeps_rules, KeepsNodes-add_event)

  pub KeepsNodes-node_duration :
      (service : OrchestratorService) (node : GraphNodeRecord)
      → KeepsNodes (node_duration_ms platform service node)
  unfolding node_duration_ms
  KeepsNodes-node_duration service node = go node.started_at
    where
      go :
          (o : Option ℕ)
          → KeepsNodes (elim o [
            | none ↦ pure null
            | some started ↦ do now ← utc_now platform; pure (service.elapsed_ms started now)
          ])
      go none = KeepsNodes-pure null
      go (some started) = search keeps_rules

pub ruleset service_rules = (
  keeps_rules, KeepsNodes-plan_item, KeepsNodes-ordered_nodes, KeepsNodes-refresh,
  KeepsNodes-load_state, KeepsNodes-result, KeepsNodes-known_artifacts, KeepsNodes-get_artifact,
  KeepsNodes-record_event, KeepsNodes-node_duration,
)
