-- ===== src/Orchestration/Service/Rounds.antt =====
-- orchestration/service.py: a round of the loop stops or leaves fewer attempts.
use autonomous_enterprise_ai.Base.{
  ◌≡◌, refl, sym, ◌∙◌, ap, subst, String, true, not, Option, none, some, List, [], ◌∷◌, All, All_at,
  keep, return, raise, ◌>>=◌, if◌then◌else◌,
}
use autonomous_enterprise_ai.Base.Dict.{lookup}
use autonomous_enterprise_ai.Json.{Fields, is_truthy}
use autonomous_enterprise_ai.Platform.{Platform}
use autonomous_enterprise_ai.Runs.Errors.{key_error}
use autonomous_enterprise_ai.Runs.Models.{RunStatus, GraphNodeRecord}
use autonomous_enterprise_ai.Runs.Repository.{Repo}
use autonomous_enterprise_ai.Runs.History.{list_graph_nodes, node_named}
use autonomous_enterprise_ai.Orchestration.State.{is_waiting, is_failed}
use autonomous_enterprise_ai.Orchestration.Service.{
  OrchestratorService, nodes_by_id, ordered_nodes, statuses_of,
}
use autonomous_enterprise_ai.Orchestration.Service.Resume.{
  Round, stopped, going_on, ready_among, is_terminal, no_nodes, all_completed, failure_summary,
  start_among, stop_with, stop, execute_ready, start_ready, with_nodes, round,
}
use autonomous_enterprise_ai.Orchestration.Service.Keeps.{
  KeepsNodes-update_status, KeepsNodes-result, KeepsNodes-load_state, KeepsNodes-get_run,
  KeepsNodes-refresh, KeepsNodes-value_at, KeepsNodes-plan_of, service_rules,
}
use autonomous_enterprise_ai.Orchestration.Service.Keeps.Tools.{LeavesNodes}
use autonomous_enterprise_ai.Orchestration.Service.Ensures.{
  GraphNodes, Ensures, Ensures-pure, Ensures-bind, Ensures-then, Ensures-if, Ensures-test,
  Ensures-weaken, Ensures-found, Ensures-final, Ensures-given,
}
use autonomous_enterprise_ai.Orchestration.Service.Work.{
  are_distinct, idents, Lighter, Lighter-named,
}
use autonomous_enterprise_ai.Orchestration.Service.Picked.{
  pick-All, ready-All, pick_named, startable-weight,
}
use autonomous_enterprise_ai.Orchestration.Service.Attempts.{
  During, After, During-of_After, IsReady,
}
use autonomous_enterprise_ai.Orchestration.Service.Settled.{execute_node-Settled}

module _ (platform : Platform) (service : OrchestratorService) (run_id : String)
    (leaves : LeavesNodes service) where
  -- A round that goes on leaves fewer attempts.
  abbrev pub Goes : List GraphNodeRecord → Round → GraphNodes → Type 0
  Goes before (stopped answer) g = Unit {0}
  Goes before (going_on state) g = After service.max_attempts run_id before g

  stop-Goes :
      {P : GraphNodes → Type 0} (before : List GraphNodeRecord) (status : RunStatus)
      (error_summary : Option String) (state : Fields)
      → Ensures P (stop platform service run_id status error_summary state) (Goes before)
  unfolding stop_with
  stop-Goes before status error_summary state =
      Ensures-then (stop_with platform service run_id status error_summary state) _
        (search (service_rules)) (λ answer. Ensures-pure (stopped answer) _ (λ g p. tt))

  module _ (before : List GraphNodeRecord) where
    -- The first node of the list, and the others after it.
    execute_first-Goes :
        (n : GraphNodeRecord) (nodes : List GraphNodeRecord) (state : Fields)
        → IsReady service.max_attempts run_id before n
        → ((next : Fields)
            → Ensures
                (After service.max_attempts run_id before)
                (execute_ready platform service run_id nodes next)
                (Goes before))
        → Ensures
            (During service.max_attempts run_id before)
            (execute_ready platform service run_id (n ∷ nodes) state)
            (Goes before)
    unfolding execute_ready
    execute_first-Goes n nodes state ready others =
        Ensures-bind _ _ (execute_node-Settled platform service run_id before leaves n ready state)
          (λ outcome. Ensures-then _ _ (KeepsNodes-load_state run_id) (λ reloaded.
            Ensures-test (is_waiting outcome) _ _
              (λ waits. Ensures-then _ _ (KeepsNodes-update_status platform run_id _ _) (λ run.
                Ensures-then _ _ (KeepsNodes-result run_id _ _)
                  (λ answer. Ensures-pure (stopped answer) _ (λ g p. tt))))
              (λ moves.
                Ensures-test (is_failed outcome) _ _
                  (λ failed. Ensures-pure (going_on reloaded) _ (λ g p. p.1 moves))
                  (λ fine. Ensures-weaken _ (λ g p. p.1 moves) (λ r g p. p) (others reloaded)))))

    execute_ready-Goes :
        (nodes : List GraphNodeRecord) (state : Fields)
        → All (IsReady service.max_attempts run_id before) nodes
        → Ensures
            (After service.max_attempts run_id before)
            (execute_ready platform service run_id nodes state)
            (Goes before)
    unfolding execute_ready
    execute_ready-Goes [] state ready = Ensures-pure (going_on state) _ (λ g p. p)
    execute_ready-Goes (n ∷ nodes) state (ready, others) =
        Ensures-weaken _ (During-of_After service.max_attempts run_id before) (λ r g p. p)
          (execute_first-Goes n nodes state ready (λ next. execute_ready-Goes nodes next others))

    start_ready-Goes :
        (nodes : List GraphNodeRecord) (state : Fields)
        → All (IsReady service.max_attempts run_id before) nodes
        → Ensures
            (During service.max_attempts run_id before)
            (start_ready platform service run_id nodes state)
            (Goes before)
    unfolding start_ready
    start_ready-Goes [] state ready = stop-Goes before _ _ state
    start_ready-Goes (n ∷ nodes) state (ready, others) =
        execute_first-Goes n nodes state ready (λ next. execute_ready-Goes nodes next others)

    -- A node of the run, under its own name.
    abbrev IsNamed : GraphNodeRecord → Type 0
    IsNamed n = (node_named n.ident before ≡ some n) × (n.run_id ≡ run_id)

    start_among-Goes :
        (nodes : List GraphNodeRecord) (state : Fields)
        → All IsNamed nodes
        → Ensures
            (During service.max_attempts run_id before)
            (start_among platform service run_id nodes state)
            (Goes before)
    unfolding start_among
    start_among-Goes nodes state all_named =
        Ensures-found (key_error "depends_on")
          (ready_among service.max_attempts (statuses_of [] nodes) nodes)
          (λ ready. start_ready platform service run_id ready state)
          (λ ready e. start_ready-Goes ready state (
            ready-All (IsReady service.max_attempts run_id before) service.max_attempts
              (statuses_of [] nodes) nodes ready
              (λ n in_nodes startable.
                let (named, in_run) = All_at IsNamed nodes all_named in_nodes in
                record {
                  named = named;
                  in_run = in_run;
                  left = startable-weight service.max_attempts n startable;
                })
              e))

    with_nodes-Goes :
        (nodes : List GraphNodeRecord) (state : Fields)
        → All IsNamed nodes
        → Ensures
            (During service.max_attempts run_id before)
            (with_nodes platform service run_id nodes state)
            (Goes before)
    unfolding with_nodes
    with_nodes-Goes nodes state all_named =
        let failures = keep (is_terminal service.max_attempts) nodes in
        let finish : Repo Round = stop platform service run_id RunStatus.completed none state in
        let fail : Repo Round =
          stop platform service run_id RunStatus.failed (some (failure_summary failures)) state in
        let start : Repo Round = start_among platform service run_id nodes state in
        Ensures-if (all_completed nodes) finish (if not (no_nodes failures) then fail else start)
          (stop-Goes before RunStatus.completed none state)
          (Ensures-if (not (no_nodes failures)) fail start
            (stop-Goes before RunStatus.failed (some (failure_summary failures)) state)
            (start_among-Goes nodes state all_named))

    module _ (light : Lighter service.max_attempts run_id before before)
        (distinct : are_distinct (idents before) ≡ true) where
      abbrev IsAt : GraphNodes → Type 0
      IsAt g = lookup run_id g ≡ some before

      list_graph_nodes-Eq :
          Ensures IsAt (list_graph_nodes run_id) (λ nodes g. IsAt g × (nodes ≡ before))
      unfolding list_graph_nodes
      list_graph_nodes-Eq = Ensures-then _ _ (KeepsNodes-get_run run_id) (λ run. record {
        at = λ r a s p e.
            let found : (return before, r) ≡ (return a, s) = sym (rw p refl) ∙ e in
            (
              subst (λ t. lookup run_id t.graph_nodes ≡ some before) (ap (λ z. z.1) found) p,
              sym (ap (λ z. elim z.0 [ return ns ↦ ns | raise x ↦ before ]) found),
            );
      })

      lookup-IsNamed :
          (k : String) (n : GraphNodeRecord) → lookup k (nodes_by_id [] before) ≡ some n → IsNamed n
      lookup-IsNamed k n there =
          let named = pick_named k before n distinct there in
          let (same, in_run) = Lighter-named service.max_attempts run_id k n light named in
          (subst (λ i. node_named i before ≡ some n) (sym same) named, in_run)

      ordered_nodes-Named :
          (state : Fields)
          → Ensures IsAt (ordered_nodes run_id state) (λ nodes g. IsAt g × All IsNamed nodes)
      unfolding ordered_nodes
      ordered_nodes-Named state = Ensures-bind _ _ list_graph_nodes-Eq (λ nodes.
          Ensures-given _ (λ same. Ensures-then _ _ (KeepsNodes-plan_of state) (λ plan.
            Ensures-final _ _ (λ picked e g p. (
              p,
              pick-All IsNamed (nodes_by_id [] nodes)
                  (λ k n there.
                    lookup-IsNamed k n
                      (subst (λ ns. lookup k (nodes_by_id [] ns) ≡ some n) same there))
                  plan picked e,
            )))))

      pub round-Goes :
          (state : Fields) → Ensures IsAt (round platform service run_id state) (Goes before)
      unfolding round
      round-Goes state = Ensures-then _ _ (KeepsNodes-refresh run_id state) (λ refreshed.
          Ensures-then _ _ (KeepsNodes-value_at "waiting_for_approval_node_id" refreshed)
            (λ waiting.
              let wait : Repo Round =
                stop platform service run_id RunStatus.waiting_for_approval none refreshed in
              let go : Repo Round = (do
                nodes ← ordered_nodes run_id refreshed
                with_nodes platform service run_id nodes refreshed) in
              Ensures-if (is_truthy waiting) wait go
                (stop-Goes before RunStatus.waiting_for_approval none refreshed)
                (Ensures-bind (ordered_nodes run_id refreshed)
                  (λ nodes. with_nodes platform service run_id nodes refreshed)
                  (ordered_nodes-Named refreshed)
                  (λ nodes.
                    Ensures-given (with_nodes platform service run_id nodes refreshed) (λ all_named.
                      Ensures-weaken (with_nodes platform service run_id nodes refreshed)
                        (λ g p. (before, p, light)) (λ r g p. p)
                        (with_nodes-Goes nodes refreshed all_named))))))
