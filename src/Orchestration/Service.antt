-- ===== src/Orchestration/Service.antt =====
-- orchestration/service.py: the service and what its methods share. The agents are a parameter:
-- what each does to the repository, and its answer. Spans are left out.
pub mod Decisions
pub mod Context
pub mod Authorization
pub mod Execution
pub mod Resume
pub mod Entry
pub mod Keeps
pub mod Ensures
pub mod Work
pub mod Picked
pub mod Attempts
pub mod Settled
pub mod Rounds
pub mod Termination
pub mod Reports
pub mod Completed
pub mod Started
pub mod Reading
pub mod Allowed
use Prim.Native.String.{◌++◌}
use mathlib.Core.Option
use mathlib.Core.List.{◌++◌ as append}
use autonomous_enterprise_ai.Base.{
  ℕ, String, Bool, true, false, Option, none, some, List, [], ◌∷◌, map, Result, return, raise, pure,
  throw, ◌>>=◌, ◌>>◌, ◌==◌, if◌then◌else◌,
}
use autonomous_enterprise_ai.Base.Dict.{Dict, lookup, insert}
use autonomous_enterprise_ai.Json.{
  Value, Items, Fields, null, bool, num, str, arr, obj, nil, item, end, field, get, put, or_null,
  text_list, dict_list, field_names, set_default,
}
use autonomous_enterprise_ai.Platform.{Platform}
use autonomous_enterprise_ai.Agents.{AgentInput, AgentOutput}
use autonomous_enterprise_ai.Runs.Errors.{
  Error, run_checkpoint_not_found, key_error, type_error, orchestration_error,
}
use autonomous_enterprise_ai.Runs.Models.{
  RunStatus, RunRecord, GraphNodeStatus, GraphNodeRecord, AgentEventRecord,
}
use autonomous_enterprise_ai.Runs.Repository.{Repo, found_or_raise, get_run, utc_now, uuid4}
use autonomous_enterprise_ai.Runs.History.{list_graph_nodes, add_event}
use autonomous_enterprise_ai.Runs.Checkpoints.{get_checkpoint}
use autonomous_enterprise_ai.Security.Policy.{ToolPermissionRegistry}
use autonomous_enterprise_ai.Orchestration.State.{sync_state_from_node_statuses}

abbrev pub Agent : Type 0
Agent = AgentInput → Repo AgentOutput

-- `max_attempts` is that of the retry policy. The last three are Python's: `type(exc).__name__`,
-- `str(exc)`, and the milliseconds between two times, rounded to three places.
pub record OrchestratorService : Type 0 where
  pub agent_types : List String
  pub agents : Dict Agent
  pub max_attempts : ℕ
  pub tool_permissions : ToolPermissionRegistry
  pub error_name : Error → String
  pub error_text : Error → String
  pub elapsed_ms : (started now : ℕ) → Value

pub record OrchestrationResult : Type 0 where
  pub run_id : String
  pub status : RunStatus
  pub state : Fields
  pub completed_node_ids : Value
  pub failed_node_ids : Value
  pub waiting_for_approval_node_id : Value

abbrev pub node_status_name : GraphNodeStatus → String
node_status_name GraphNodeStatus.pending = "pending"
node_status_name GraphNodeStatus.running = "running"
node_status_name GraphNodeStatus.waiting_for_approval = "waiting_for_approval"
node_status_name GraphNodeStatus.completed = "completed"
node_status_name GraphNodeStatus.failed = "failed"
node_status_name GraphNodeStatus.skipped = "skipped"

-- state[key]
abbrev pub value_at : String → Fields → Repo Value
value_at key state = found_or_raise (key_error key) (get key state)

-- A dictionary and an array, where the code uses the value as one.
abbrev pub as_dict : Value → Repo Fields
as_dict (obj fs) = pure fs
as_dict v = throw (type_error "dict")

abbrev pub as_items : Value → Repo Items
as_items (arr xs) = pure xs
as_items v = throw (type_error "list")

unfoldable pub dict_at : String → Fields → Repo Fields
dict_at key state = do v ← value_at key state; as_dict v

-- state["plan"]
unfoldable pub plan_of : Fields → Repo (List Fields)
plan_of state = do
  v ← value_at "plan" state
  xs ← as_items v
  found_or_raise (type_error "plan") (dict_list xs)

-- `value == text`
abbrev pub is_text : String → Value → Bool
is_text text (str s) = s == text
is_text text _ = false

-- The loop of `_plan_item`; `none` is the KeyError of an item without an identifier.
unfoldable pub find_item : String → List Fields → Option (Option Fields)
find_item node_id [] = some none
find_item node_id (plan_item ∷ plan) =
    let rest = find_item node_id plan in
    elim (get "id" plan_item) [
      | none ↦ none
      | some ident ↦ if is_text node_id ident then some (some plan_item) else rest
    ]

-- _plan_item
unfoldable pub plan_item : Fields → (node_id : String) → Repo Fields
plan_item state node_id = do
  plan ← plan_of state
  found ← found_or_raise (key_error "id") (find_item node_id plan)
  found_or_raise (orchestration_error node_id) found

-- `{node.id: node for node in nodes}`
unfoldable pub nodes_by_id : Dict GraphNodeRecord → List GraphNodeRecord → Dict GraphNodeRecord
nodes_by_id d [] = d
nodes_by_id d (node ∷ nodes) = nodes_by_id (insert node.ident node d) nodes

-- A node in front of the others, where it is there.
abbrev pub add_found :
    Option GraphNodeRecord → Option (List GraphNodeRecord) → Option (List GraphNodeRecord)
add_found none rest = rest
add_found (some node) none = none
add_found (some node) (some nodes) = some (node ∷ nodes)

abbrev pub add_named :
    Dict GraphNodeRecord
    → Option Value
    → Option (List GraphNodeRecord)
    → Option (List GraphNodeRecord)
add_named d none rest = none
add_named d (some (str k)) rest = add_found (lookup k d) rest
add_named d (some (arr _)) rest = none
add_named d (some (obj _)) rest = none
add_named d (some _) rest = rest

-- The nodes of the plan that the dictionary has, in the order of the plan.
unfoldable pub pick : Dict GraphNodeRecord → List Fields → Option (List GraphNodeRecord)
pick d [] = some []
pick d (plan_item ∷ plan) = add_named d (get "id" plan_item) (pick d plan)

-- What `pick` raises: the identifier of an item is missing, or a list or a dictionary, which a set
-- of keys cannot hold.
unfoldable pub pick_error : List Fields → Error
pick_error [] = key_error "id"
pick_error (plan_item ∷ plan) =
    let rest = pick_error plan in
    elim (get "id" plan_item) [
      | none ↦ key_error "id"
      | some (arr _) ↦ type_error "id"
      | some (obj _) ↦ type_error "id"
      | some _ ↦ rest
    ]

-- _ordered_nodes
unfoldable pub ordered_nodes : (run_id : String) → Fields → Repo (List GraphNodeRecord)
ordered_nodes run_id state = do
  nodes ← list_graph_nodes run_id
  plan ← plan_of state
  found_or_raise (pick_error plan) (pick (nodes_by_id [] nodes) plan)

-- `{node.id: node.status for node in nodes}`
unfoldable pub statuses_of : Dict GraphNodeStatus → List GraphNodeRecord → Dict GraphNodeStatus
statuses_of d [] = d
statuses_of d (node ∷ nodes) = statuses_of (insert node.ident node.status d) nodes

-- _refresh_state_from_nodes
unfoldable pub refresh_state_from_nodes : (run_id : String) → Fields → Repo Fields
refresh_state_from_nodes run_id state = do
  nodes ← ordered_nodes run_id state
  pure (sync_state_from_node_statuses state (statuses_of [] nodes))

-- `except RunCheckpointNotFoundError`
abbrev pub no_checkpoint : {A : Type 0} → Result Error A → Result Error A
no_checkpoint (raise (run_checkpoint_not_found run_id)) = raise (orchestration_error run_id)
no_checkpoint other = other

-- _load_state
unfoldable pub load_state : String → Repo Fields
load_state run_id r =
    let (answer, s) = (do checkpoint ← get_checkpoint run_id; pure checkpoint.state) r in
    (no_checkpoint answer, s)

-- _result
unfoldable pub result : (run_id : String) → RunStatus → Fields → Repo OrchestrationResult
result run_id status state = do
  refreshed ← refresh_state_from_nodes run_id state
  completed ← value_at "completed_node_ids" refreshed
  failed ← value_at "failed_node_ids" refreshed
  waiting ← value_at "waiting_for_approval_node_id" refreshed
  pure (record {
    run_id = run_id;
    status = status;
    state = refreshed;
    completed_node_ids = completed;
    failed_node_ids = failed;
    waiting_for_approval_node_id = waiting;
  })

characters : String → List String
characters String.[] = []
characters (String.◌∷◌ c s) = String.◌∷◌ c String.[] ∷ characters s

-- `list.extend` with a value: a text gives its characters, a dictionary its keys; `none` is the
-- TypeError. The lists that the program writes there hold texts.
unfoldable pub extension : Value → Option (List String)
unfolding characters
extension (arr xs) = text_list xs
extension (str s) = some (characters s)
extension (obj fs) = some (field_names fs)
extension _ = none

-- The loop of `_known_artifacts`.
unfoldable pub all_texts : Fields → Option (List String)
all_texts end = some []
all_texts (field k v fs) = elim (extension v) [
  | none ↦ none
  | some ss ↦ Option.map (λ rest. append ss rest) (all_texts fs)
]

-- _known_artifacts
unfoldable pub known_artifacts : Fields → Repo (List String)
known_artifacts state = do
  artifacts ← dict_at "artifacts" state
  found_or_raise (type_error "artifacts") (all_texts artifacts)

module _ (platform : Platform) where
  -- The trace identifiers that `_record_event` adds to a payload.
  unfoldable pub enriched : RunRecord → Fields → Fields
  enriched run payload =
      let traced = set_default "trace_id" (or_null run.trace_id) payload in
      elim platform.current_trace_id [
        | none ↦ traced
        | some trace ↦ set_default "otel_trace_id" (str trace) traced
      ]

  -- _record_event
  unfoldable pub record_event : (run_id node_id event_type : String) → Fields → Repo (Unit {0})
  record_event run_id node_id event_type payload = do
    run ← get_run run_id
    tail ← uuid4 platform
    now ← utc_now platform
    add_event platform (record {
      ident = "event_" ++ tail;
      run_id = run_id;
      node_id = node_id;
      event_type = event_type;
      payload = enriched run payload;
      created_at = now;
    })
    pure tt

  -- `utc_now().isoformat()`
  unfoldable pub timestamp : Repo Value
  timestamp = do now ← utc_now platform; pure (str (platform.isoformat now))

  -- _node_duration_ms
  unfoldable pub node_duration_ms : OrchestratorService → GraphNodeRecord → Repo Value
  node_duration_ms service node = elim node.started_at [
    | none ↦ pure null
    | some started ↦ do now ← utc_now platform; pure (service.elapsed_ms started now)
  ]
