-- ===== src/Runs/History.antt =====
-- runs/repository.py: the graph nodes and the events of a run. A missing list is Python's KeyError.
-- The log of an event to LangSmith is left out.
pub mod Nodes
use mathlib.Core.List.{◌++◌}
use autonomous_enterprise_ai.Base.{
  String, Bool, true, false, Option, none, some, List, [], ◌∷◌, return, pure, throw, ◌>>=◌, ◌>>◌,
  ◌==◌, if◌then◌else◌,
}
use autonomous_enterprise_ai.Base.Dict.{lookup, insert}
use autonomous_enterprise_ai.Platform.{Platform}
use autonomous_enterprise_ai.Redaction.{redact_fields}
use autonomous_enterprise_ai.Runs.Errors.{key_error, graph_node_not_found}
use autonomous_enterprise_ai.Runs.Models.{GraphNodeRecord, AgentEventRecord}
use autonomous_enterprise_ai.Runs.Repository.{Repo, found_or_raise, or_value_error, get_run}

-- self._graph_nodes[run_id]
abbrev pub nodes_of : String → Repo (List GraphNodeRecord)
nodes_of run_id r = found_or_raise (key_error run_id) (lookup run_id r.graph_nodes) r

abbrev pub set_nodes : String → List GraphNodeRecord → Repo (Unit {0})
set_nodes run_id nodes r = (return tt, record r { graph_nodes = insert run_id nodes r.graph_nodes })

-- The loop of `upsert_graph_node` with its `else`.
unfoldable pub replace_or_append : GraphNodeRecord → List GraphNodeRecord → List GraphNodeRecord
replace_or_append node [] = node ∷ []
replace_or_append node (existing ∷ nodes) =
    let rest = replace_or_append node nodes in
    if existing.ident == node.ident then node ∷ nodes else existing ∷ rest

unfoldable pub upsert_graph_node : GraphNodeRecord → Repo GraphNodeRecord
upsert_graph_node node = do
  get_run node.run_id
  nodes ← nodes_of node.run_id
  set_nodes node.run_id (replace_or_append node nodes)
  pure node

unfoldable pub add_graph_node : GraphNodeRecord → Repo GraphNodeRecord
unfolding upsert_graph_node
add_graph_node node = upsert_graph_node node

-- The loop of `get_graph_node`.
unfoldable pub node_named : String → List GraphNodeRecord → Option GraphNodeRecord
node_named node_id [] = none
node_named node_id (node ∷ nodes) =
    if node.ident == node_id then some node else node_named node_id nodes

unfoldable pub get_graph_node : (run_id node_id : String) → Repo GraphNodeRecord
get_graph_node run_id node_id = do
  get_run run_id
  nodes ← nodes_of run_id
  found_or_raise (graph_node_not_found node_id) (node_named node_id nodes)

unfoldable pub list_graph_nodes : String → Repo (List GraphNodeRecord)
list_graph_nodes run_id = do get_run run_id; nodes_of run_id

-- self._events[run_id]
abbrev pub events_of : String → Repo (List AgentEventRecord)
events_of run_id r = found_or_raise (key_error run_id) (lookup run_id r.events) r

abbrev pub set_events : String → List AgentEventRecord → Repo (Unit {0})
set_events run_id events r = (return tt, record r { events = insert run_id events r.events })

unfoldable pub add_event : Platform → AgentEventRecord → Repo AgentEventRecord
add_event platform event = do
  get_run event.run_id
  clean ← or_value_error (redact_fields platform event.payload)
  let redacted_event = record event { payload = clean }
  events ← events_of event.run_id
  set_events event.run_id (events ++ redacted_event ∷ [])
  pure redacted_event

unfoldable pub list_events : String → Repo (List AgentEventRecord)
list_events run_id = do get_run run_id; events_of run_id
