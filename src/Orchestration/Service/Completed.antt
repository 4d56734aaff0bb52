-- ===== src/Orchestration/Service/Completed.antt =====
-- orchestration/service.py: a run that the loop reports as completed.
use autonomous_enterprise_ai.Base.{
  ℕ, zero, suc, ◌≡◌, ◌≢◌, sym, ◌∙◌, String, not, Option, none, some, List, [], ◌∷◌, keep, arith,
  return, pure, ◌>>=◌, if◌then◌else◌,
}
use autonomous_enterprise_ai.Json.{Fields, is_truthy}
use autonomous_enterprise_ai.Platform.{Platform}
use autonomous_enterprise_ai.Runs.Errors.{key_error}
use autonomous_enterprise_ai.Runs.Models.{RunStatus, GraphNodeRecord}
use autonomous_enterprise_ai.Runs.Repository.{Repository, Repo}
use autonomous_enterprise_ai.Orchestration.State.{is_waiting, is_failed}
use autonomous_enterprise_ai.Orchestration.Service.{
  OrchestratorService, OrchestrationResult, ordered_nodes, statuses_of,
}
use autonomous_enterprise_ai.Orchestration.Service.Resume.{
  Round, stopped, going_on, ready_among, is_terminal, no_nodes, all_completed, failure_summary,
  start_among, stop_with, stop, execute_ready, start_ready, with_nodes, round, rounds, resume_run,
}
use autonomous_enterprise_ai.Orchestration.Service.Execution.{execute_node}
use autonomous_enterprise_ai.Orchestration.Service.Keeps.{
  KeepsNodes-update_status, KeepsNodes-save_checkpoint, KeepsNodes-load_state, KeepsNodes-get_run,
  KeepsNodes-refresh, KeepsNodes-value_at,
}
use autonomous_enterprise_ai.Orchestration.Service.Ensures.{
  GraphNodes, Ensures, Ensures-pure, Ensures-bind, Ensures-then, Ensures-if, Ensures-test,
  Ensures-weaken, Ensures-found,
}
use autonomous_enterprise_ai.Orchestration.Service.Reports.{
  Anything, Ensures-nothing, Reports, result-Reports, IsPlanned, ordered_nodes-IsPlanned,
  HasCompleted, all_completed-All, IsHonest,
}

module _ (platform : Platform) (service : OrchestratorService) (run_id : String) where
  abbrev Ends : Round → GraphNodes → Type 0
  Ends (stopped answer) g = IsHonest run_id answer g
  Ends (going_on state) g = Unit {0}

  stop-Reports :
      (P : GraphNodes → Type 0) (status : RunStatus) (summary : Option String) (state : Fields)
      → ((answer : OrchestrationResult) (g : GraphNodes)
          → P g
          → Reports status state answer
          → IsHonest run_id answer g)
      → Ensures P (stop platform service run_id status summary state) Ends
  unfolding stop_with
  stop-Reports P status summary state h =
      Ensures-bind (stop_with platform service run_id status summary state) _
        (Ensures-then _ _ (KeepsNodes-update_status platform run_id status summary) (λ run.
          Ensures-then _ _ (KeepsNodes-save_checkpoint platform run_id state)
            (λ saved. result-Reports P run_id status state)))
        (λ answer. Ensures-pure (stopped answer) _ (λ g p. h answer g p.0 p.1))

  -- Another status.
  stop-Ends :
      (P : GraphNodes → Type 0) (status : RunStatus) (summary : Option String) (state : Fields)
      → status ≢ RunStatus.completed
      → Ensures P (stop platform service run_id status summary state) Ends
  stop-Ends P status summary state other =
      stop-Reports P status summary state
        (λ answer g p reports completed. absurd (other (sym reports.0 ∙ completed)))

  execute_ready-Ends :
      (nodes : List GraphNodeRecord) (state : Fields)
      → Ensures Anything (execute_ready platform service run_id nodes state) Ends
  unfolding execute_ready
  execute_ready-Ends [] state = Ensures-pure (going_on state) _ (λ g p. tt)
  execute_ready-Ends (n ∷ nodes) state =
      Ensures-bind _ _ (Ensures-nothing (execute_node platform service n state)) (λ outcome.
        Ensures-then _ _ (KeepsNodes-load_state run_id) (λ reloaded.
          Ensures-if (is_waiting outcome) _ _
            (Ensures-then _ _ (KeepsNodes-update_status platform run_id _ _) (λ run.
              Ensures-bind _ _
                (result-Reports Anything run_id RunStatus.waiting_for_approval reloaded)
                (λ answer.
                  Ensures-pure (stopped answer) _
                    (λ g p completed. absurd (ground (arith, p.1.0, completed))))))
            (Ensures-if (is_failed outcome) _ _ (Ensures-pure (going_on reloaded) _ (λ g p. tt))
              (Ensures-weaken _ (λ g p. p) (λ r g p. p) (execute_ready-Ends nodes reloaded)))))

  start_ready-Ends :
      (nodes : List GraphNodeRecord) (state : Fields)
      → Ensures Anything (start_ready platform service run_id nodes state) Ends
  unfolding start_ready
  start_ready-Ends [] state =
      stop-Ends Anything RunStatus.failed (some "No executable graph nodes remain.") state
        (λ e. absurd (ground (arith, e)))
  start_ready-Ends (n ∷ nodes) state = execute_ready-Ends (n ∷ nodes) state

  start_among-Ends :
      (nodes : List GraphNodeRecord) (state : Fields)
      → Ensures Anything (start_among platform service run_id nodes state) Ends
  unfolding start_among
  start_among-Ends nodes state =
      Ensures-found (key_error "depends_on")
        (ready_among service.max_attempts (statuses_of [] nodes) nodes)
        (λ ready. start_ready platform service run_id ready state)
        (λ ready e. start_ready-Ends ready state)

  with_nodes-Ends :
      (nodes : List GraphNodeRecord) (state : Fields)
      → Ensures (IsPlanned run_id state nodes) (with_nodes platform service run_id nodes state) Ends
  unfolding with_nodes
  with_nodes-Ends nodes state =
      let failures = keep (is_terminal service.max_attempts) nodes in
      let finish : Repo Round = stop platform service run_id RunStatus.completed none state in
      let fail : Repo Round =
        stop platform service run_id RunStatus.failed (some (failure_summary failures)) state in
      let start : Repo Round = start_among platform service run_id nodes state in
      Ensures-test (all_completed nodes) finish (if not (no_nodes failures) then fail else start)
        (λ done.
          stop-Reports (IsPlanned run_id state nodes) RunStatus.completed none state
            (λ answer g (stored, items, plan, there, listed, dicts, picked) reports completed.
              let (some_node, all) = all_completed-All nodes done in
              (
                nodes,
                (stored, items, plan, there, reports.1 ∙ listed, dicts, picked),
                some_node,
                all,
              )))
        (λ unfinished.
          Ensures-if (not (no_nodes failures)) fail start
            (stop-Ends (IsPlanned run_id state nodes) RunStatus.failed
              (some (failure_summary failures)) state (λ e. absurd (ground (arith, e))))
            (Ensures-weaken start (λ g p. tt) (λ r g p. p) (start_among-Ends nodes state)))

  round-Ends : (state : Fields) → Ensures Anything (round platform service run_id state) Ends
  unfolding round
  round-Ends state = Ensures-then _ _ (KeepsNodes-refresh run_id state) (λ refreshed.
      Ensures-then _ _ (KeepsNodes-value_at "waiting_for_approval_node_id" refreshed) (λ waiting.
        let wait : Repo Round =
          stop platform service run_id RunStatus.waiting_for_approval none refreshed in
        let go : Repo Round = (do
          nodes ← ordered_nodes run_id refreshed
          with_nodes platform service run_id nodes refreshed) in
        Ensures-if (is_truthy waiting) wait go
          (stop-Ends Anything RunStatus.waiting_for_approval none refreshed
            (λ e. absurd (ground (arith, e))))
          (Ensures-bind (ordered_nodes run_id refreshed)
            (λ nodes. with_nodes platform service run_id nodes refreshed)
            (ordered_nodes-IsPlanned run_id refreshed) (λ nodes. with_nodes-Ends nodes refreshed))))

  -- The answer of the loop, where there is one.
  abbrev AllHonest : Option OrchestrationResult → GraphNodes → Type 0
  AllHonest none g = Unit {0}
  AllHonest (some answer) g = IsHonest run_id answer g

  after_round-AllHonest :
      (fuel : ℕ) (next : Round)
      → ((state : Fields) → Ensures Anything (rounds platform service run_id fuel state) AllHonest)
      → Ensures
          (Ends next)
          (elim next [
            | stopped answer ↦ pure (some answer)
            | going_on state' ↦ λ s. rounds platform service run_id fuel state' s
          ])
          AllHonest
  after_round-AllHonest fuel (stopped answer) later = Ensures-pure (some answer) _ (λ g p. p)
  after_round-AllHonest fuel (going_on state) later =
      Ensures-weaken _ (λ g p. tt) (λ r g p. p) (later state)

  rounds-AllHonest :
      (fuel : ℕ) (state : Fields)
      → Ensures Anything (rounds platform service run_id fuel state) AllHonest
  unfolding rounds
  rounds-AllHonest zero state = Ensures-pure none _ (λ g p. tt)
  rounds-AllHonest (suc fuel) state =
      Ensures-bind (round platform service run_id state) _ (round-Ends state)
        (λ next. after_round-AllHonest fuel next (λ s. rounds-AllHonest fuel s))

  resume_run-AllHonest :
      (fuel : ℕ) → Ensures Anything (resume_run platform service run_id fuel) AllHonest
  unfolding resume_run
  resume_run-AllHonest fuel = Ensures-then _ _ (KeepsNodes-get_run run_id) (λ run.
      Ensures-then _ _ (KeepsNodes-load_state run_id) (λ state.
        Ensures-then _ _ (KeepsNodes-update_status platform run_id _ _)
          (λ updated. rounds-AllHonest fuel state)))

-- Where the loop returns a result with the status `completed`, the plan of the result's state names
-- at least one node that the repository then holds, and all those that it names are completed.
pub resume_run-HasCompleted :
    (platform : Platform) (service : OrchestratorService) (run_id : String) (fuel : ℕ)
    (r s : Repository) (answer : OrchestrationResult)
    → resume_run platform service run_id fuel r ≡ (return (some answer), s)
    → answer.status ≡ RunStatus.completed
    → HasCompleted run_id answer s.graph_nodes
resume_run-HasCompleted platform service run_id fuel r s answer e =
    (resume_run-AllHonest platform service run_id fuel).at r (some answer) s tt e
