-- ===== src/Orchestration/Service/Resume.antt =====
-- orchestration/service.py: the loop of a run.
-- The loop takes fuel for its rounds; `none` means that the fuel ran out.
use Prim.Native.String.{◌++◌}
use autonomous_enterprise_ai.Base.{
  ℕ, zero, suc, String, Bool, true, false, not, ◌&&◌, ◌||◌, Option, none, some, List, [], ◌∷◌, keep,
  all_of, ltb, leb, pure, ◌>>=◌, ◌>>◌, if◌then◌else◌,
}
use autonomous_enterprise_ai.Base.Dict.{Dict, lookup}
use autonomous_enterprise_ai.Json.{Fields, is_truthy}
use autonomous_enterprise_ai.Platform.{Platform}
use autonomous_enterprise_ai.Runs.Errors.{key_error}
use autonomous_enterprise_ai.Runs.Models.{RunStatus, GraphNodeStatus, GraphNodeRecord}
use autonomous_enterprise_ai.Runs.Repository.{Repo, found_or_raise, get_run, update_status}
use autonomous_enterprise_ai.Runs.Checkpoints.{save_checkpoint}
use autonomous_enterprise_ai.Orchestration.State.{is_pending, is_completed, is_failed, is_waiting}
use autonomous_enterprise_ai.Orchestration.Service.{
  OrchestratorService, OrchestrationResult, value_at, ordered_nodes, statuses_of,
  refresh_state_from_nodes, load_state, result,
}
use autonomous_enterprise_ai.Orchestration.Service.Execution.{execute_node}

-- _dependencies_completed; `none` is the KeyError of a dependency that is no node.
unfoldable pub dependencies_completed : Dict GraphNodeStatus → List String → Option Bool
dependencies_completed statuses [] = some true
dependencies_completed statuses (dependency ∷ dependencies) =
    let rest = dependencies_completed statuses dependencies in
    elim (lookup dependency statuses) [
      | none ↦ none
      | some status ↦ if is_completed status then rest else some false
    ]

-- A node that may be tried again: it is pending or has failed, with attempts left.
abbrev pub is_startable : (max_attempts : ℕ) → GraphNodeRecord → Bool
is_startable max_attempts node =
    (is_pending node.status || is_failed node.status) && ltb node.retry_count max_attempts

-- A node that has failed for good.
abbrev pub is_terminal : (max_attempts : ℕ) → GraphNodeRecord → Bool
is_terminal max_attempts node = is_failed node.status && leb max_attempts node.retry_count

-- A startable node in front of the others, where its dependencies are completed.
abbrev pub add_ready :
    GraphNodeRecord
    → (completed : Option Bool) → Option (List GraphNodeRecord)
    → Option (List GraphNodeRecord)
add_ready node none rest = none
add_ready node (some false) rest = rest
add_ready node (some true) none = none
add_ready node (some true) (some ready) = some (node ∷ ready)

-- The filter of `ready_nodes`.
unfoldable pub ready_among :
    (max_attempts : ℕ) → Dict GraphNodeStatus → List GraphNodeRecord → Option (List GraphNodeRecord)
ready_among max_attempts statuses [] = some []
ready_among max_attempts statuses (node ∷ nodes) =
    let rest = ready_among max_attempts statuses nodes in
    if is_startable max_attempts node
    then add_ready node (dependencies_completed statuses node.depends_on) rest
    else rest

abbrev pub no_nodes : List GraphNodeRecord → Bool
no_nodes [] = true
no_nodes (node ∷ nodes) = false

-- "; ".join(node.id for node in nodes)
abbrev pub joined_ids : List GraphNodeRecord → String
joined_ids [] = ""
joined_ids (node ∷ []) = node.ident
joined_ids (node ∷ other ∷ nodes) = node.ident ++ ("; " ++ joined_ids (other ∷ nodes))

-- `if nodes and all(...)`
abbrev pub all_completed : List GraphNodeRecord → Bool
all_completed nodes = not (no_nodes nodes) && all_of (λ node. is_completed node.status) nodes

abbrev pub failure_summary : List GraphNodeRecord → String
failure_summary failures = "Failed graph nodes: " ++ joined_ids failures

-- How a round ends: the run returns, or it goes on in a state.
pub data Round : Type 0 where
  stopped : OrchestrationResult → Round
  going_on : Fields → Round

module _ (platform : Platform) (service : OrchestratorService) (run_id : String) where
  -- The run gets the status and the checkpoint, and the result is returned.
  unfoldable pub stop_with :
      RunStatus → (error_summary : Option String) → Fields → Repo OrchestrationResult
  stop_with status error_summary state = do
    update_status platform run_id status error_summary
    save_checkpoint platform run_id state
    result run_id status state

  -- `for node in ready_nodes`
  unfoldable pub execute_ready : List GraphNodeRecord → Fields → Repo Round
  execute_ready [] state = pure (going_on state)
  execute_ready (node ∷ nodes) state = do
    outcome ← execute_node platform service node state
    reloaded ← load_state run_id
    let rest : Repo Round = λ s. execute_ready nodes reloaded s
    if is_waiting outcome
        then (do
          update_status platform run_id RunStatus.waiting_for_approval none
          answer ← result run_id RunStatus.waiting_for_approval reloaded
          pure (stopped answer))
        else if is_failed outcome
        then pure (going_on reloaded)
        else rest

  abbrev pub stop : RunStatus → Option String → Fields → Repo Round
  stop status error_summary state = do
    answer ← stop_with status error_summary state
    pure (stopped answer)

  -- What follows the filter of the ready nodes.
  unfoldable pub start_ready : List GraphNodeRecord → Fields → Repo Round
  start_ready [] state = stop RunStatus.failed (some "No executable graph nodes remain.") state
  start_ready (node ∷ nodes) state = execute_ready (node ∷ nodes) state

  -- From the filter of the ready nodes on.
  unfoldable pub start_among : List GraphNodeRecord → Fields → Repo Round
  start_among nodes state = do
    ready ←
        found_or_raise (key_error "depends_on")
          (ready_among service.max_attempts (statuses_of [] nodes) nodes)
    start_ready ready state

  -- From the nodes of the round on.
  unfoldable pub with_nodes : List GraphNodeRecord → Fields → Repo Round
  with_nodes nodes state =
      let failures = keep (is_terminal service.max_attempts) nodes in
      if all_completed nodes
      then stop RunStatus.completed none state
      else if not (no_nodes failures)
      then stop RunStatus.failed (some (failure_summary failures)) state
      else start_among nodes state

  -- One round of `while True`.
  unfoldable pub round : Fields → Repo Round
  round state = do
    refreshed ← refresh_state_from_nodes run_id state
    waiting ← value_at "waiting_for_approval_node_id" refreshed
    if is_truthy waiting
        then stop RunStatus.waiting_for_approval none refreshed
        else do nodes ← ordered_nodes run_id refreshed; with_nodes nodes refreshed

  unfoldable pub rounds : (fuel : ℕ) → Fields → Repo (Option OrchestrationResult)
  rounds zero state = pure none
  rounds (suc fuel) state = do
    next ← round state
    elim next [ stopped answer ↦ pure (some answer) | going_on state' ↦ λ s. rounds fuel state' s ]

  unfoldable pub resume_run : (fuel : ℕ) → Repo (Option OrchestrationResult)
  resume_run fuel = do
    get_run run_id
    state ← load_state run_id
    update_status platform run_id RunStatus.running none
    rounds fuel state
