-- ===== src/Orchestration/Service/Settled.antt =====
-- orchestration/service.py: an executed node waits for approval or has fewer attempts left.
use autonomous_enterprise_ai.Base.{
  ℕ, ◌+◌, ◌-◌, ◌≤◌, ◌<◌, ◌≡◌, refl, String, Bool, true, false, Option, none, some, List, arith,
  Bool-cases, inl, inr, pure, ◌>>=◌, ◌>>◌, if◌then◌else◌, ◌==◌, ltb,
}
use autonomous_enterprise_ai.Json.{Value, Fields, obj, arr, texts, get}
use autonomous_enterprise_ai.Platform.{Platform}
use autonomous_enterprise_ai.Agents.{AgentOutput}
use autonomous_enterprise_ai.Runs.Errors.{type_error}
use autonomous_enterprise_ai.Runs.Models.{GraphNodeStatus, GraphNodeRecord}
use autonomous_enterprise_ai.Runs.History.{node_named}
use autonomous_enterprise_ai.Orchestration.State.{is_completed, is_waiting, output_to_state}
use autonomous_enterprise_ai.Orchestration.Service.{
  OrchestratorService, node_duration_ms, timestamp, record_event,
}
use autonomous_enterprise_ai.Orchestration.Service.Execution.{
  completed_node, waiting_node, failed_node, save_refreshed, write_completed, write_waiting,
  write_failed, complete_node, pause_for_approval, status_after, errors_so_far, fail_node,
  stop_node, settle_node, run_node, running_node, execute_node,
}
use autonomous_enterprise_ai.Orchestration.Service.Keeps.{
  KeepsNodes-utc_now, KeepsNodes-get_run, KeepsNodes-node_duration, KeepsNodes-timestamp,
  KeepsNodes-record_event, KeepsNodes-dict_at, KeepsNodes-found,
}
use autonomous_enterprise_ai.Orchestration.Service.Keeps.Tools.{
  LeavesNodes, KeepsNodes-set_in, KeepsNodes-save_refreshed, KeepsNodes-record_events,
  KeepsNodes-time_unless, KeepsNodes-authorize, KeepsNodes-call_agent,
}
use autonomous_enterprise_ai.Orchestration.Service.Ensures.{
  GraphNodes, Ensures, Ensures-pure, Ensures-bind, Ensures-then, Ensures-if, Ensures-weaken,
}
use autonomous_enterprise_ai.Orchestration.Service.Attempts.{
  During, After, During-of_After, upsert-During, upsert-After, IsReady, Settled,
}
use autonomous_enterprise_ai.Orchestration.Service.Work.{weight}

left-weight :
    (max_attempts : ℕ) (n : GraphNodeRecord)
    → 1 ≤ weight max_attempts n
    → weight max_attempts n ≡ max_attempts - n.retry_count
left-weight max_attempts n h = elim (Bool-cases (is_completed n.status)) [
  | inl e ↦ ground (arith, e, h)
  | inr e ↦ ground (arith, e)
]

module _ (platform : Platform) (service : OrchestratorService) (run_id : String)
    (before : List GraphNodeRecord) where
  status_after-weight :
      (retry_count : ℕ) (b : Bool)
      → (if is_completed (status_after platform service b)
          then 0
          else service.max_attempts - (retry_count + 1))
        ≡ service.max_attempts - (retry_count + 1)
  status_after-weight retry_count true = refl
  status_after-weight retry_count false = refl

  abbrev Start : GraphNodes → Type 0
  Start = During service.max_attempts run_id before

  abbrev Done : GraphNodes → Type 0
  Done = After service.max_attempts run_id before

  -- The event and the checkpoint with which a node's attempt ends.
  reported :
      {P : GraphNodes → Type 0} (Q : GraphNodeStatus → GraphNodes → Type 0) (node : GraphNodeRecord)
      (event_type : String) (payload : (duration now : Value) → Fields) (saved : Fields)
      (status : GraphNodeStatus)
      → ((g : GraphNodes) → P g → Q status g)
      → Ensures P
          (do
            duration ← node_duration_ms platform service node
            now ← timestamp platform
            record_event platform node.run_id node.ident event_type (payload duration now)
            save_refreshed platform service node.run_id saved
            pure status)
          Q
  reported Q node event_type payload saved status h =
      Ensures-then _ _ (KeepsNodes-node_duration platform service node) (λ duration.
        Ensures-then _ _ (KeepsNodes-timestamp platform) (λ now.
          Ensures-then _ _ (KeepsNodes-record_event platform _ _ _ _) (λ event.
            Ensures-then _ _ (KeepsNodes-save_refreshed platform service _ _)
              (λ done. Ensures-pure status Q h))))

  module _ (n : GraphNodeRecord) (ready : IsReady service.max_attempts run_id before n)
      (started : ℕ) (state : Fields) (output : AgentOutput) where
    abbrev running : GraphNodeRecord
    running = running_node platform service n started

    module _ (written : GraphNodeRecord) (same : written.ident ≡ n.ident)
        (in_run : written.run_id ≡ run_id) where
      named : node_named written.ident before ≡ some n
      named = rw same ready.named

      write_completed-After :
          weight service.max_attempts written < weight service.max_attempts n
          → Ensures Start
              (write_completed platform service running written state output)
              (λ status. Done)
      unfolding write_completed
      write_completed-After less =
          Ensures-then _ _
            (KeepsNodes-set_in platform service "agent_outputs" n.ident
              (obj (output_to_state output)) state)
            (λ with_output.
              Ensures-then _ _
                (KeepsNodes-set_in platform service "artifacts" n.ident
                  (arr (texts output.artifacts)) with_output)
                (λ with_artifacts.
                  Ensures-then _ _ (KeepsNodes-dict_at "errors" with_artifacts) (λ errors.
                    Ensures-bind _ _
                      (upsert-After service.max_attempts run_id before written n named in_run less)
                      (λ done. reported _ running _ _ _ _ (λ g p. p)))))

      write_waiting-Waits :
          weight service.max_attempts written ≤ weight service.max_attempts n
          → Ensures Start
              (write_waiting platform service running written state output)
              (λ status g. Start g × (is_waiting status ≡ true))
      unfolding write_waiting
      write_waiting-Waits less =
          Ensures-then _ _
            (KeepsNodes-set_in platform service "agent_outputs" n.ident
              (obj (output_to_state output)) state)
            (λ with_output.
              Ensures-bind _ _
                (upsert-During service.max_attempts run_id before written n named in_run less)
                (λ done. reported _ running _ _ _ _ (λ g p. (p, refl))))

      write_failed-After :
          (retryable : Bool)
          → weight service.max_attempts written < weight service.max_attempts n
          → Ensures Start
              (write_failed platform service running written retryable state output)
              (λ status. Done)
      unfolding write_failed
      write_failed-After retryable less =
          Ensures-then _ _
            (KeepsNodes-set_in platform service "agent_outputs" n.ident
              (obj (output_to_state output)) state)
            (λ with_output. Ensures-then _ _ (KeepsNodes-dict_at "errors" with_output) (λ errors.
              Ensures-then _ _
                (KeepsNodes-found (type_error "errors") (errors_so_far (get n.ident errors)))
                (λ so_far.
                  Ensures-bind _ _
                    (upsert-After service.max_attempts run_id before written n named in_run less)
                    (λ done. reported _ running _ _ _ _ (λ g p. p)))))

    complete_node-After :
        Ensures Start (complete_node platform service running state output) (λ status. Done)
    unfolding complete_node
    complete_node-After = Ensures-then _ _ (KeepsNodes-utc_now platform) (λ finished.
        Ensures-then _ _ (KeepsNodes-utc_now platform) (λ updated.
          write_completed-After (completed_node platform service running finished updated) refl
            ready.in_run ready.left))

    pause_for_approval-Waits :
        Ensures Start
          (pause_for_approval platform service running state output)
          (λ status g. Start g × (is_waiting status ≡ true))
    unfolding pause_for_approval
    pause_for_approval-Waits = Ensures-then _ _ (KeepsNodes-utc_now platform) (λ updated.
        write_waiting-Waits (waiting_node platform service running updated) refl ready.in_run
          (omega (arith, left-weight service.max_attempts n ready.left)))

    fail_node-After :
        Ensures Start (fail_node platform service running state output) (λ status. Done)
    unfolding fail_node
    fail_node-After =
        Ensures-then _ _
          (KeepsNodes-time_unless platform service (ltb (n.retry_count + 1) service.max_attempts))
          (λ finished. Ensures-then _ _ (KeepsNodes-utc_now platform) (λ updated.
            write_failed-After (failed_node platform service running finished updated) refl
              ready.in_run _
              (omega (
                arith,
                ready.left,
                left-weight service.max_attempts n ready.left,
                status_after-weight n.retry_count (ltb (n.retry_count + 1) service.max_attempts),
              ))))

    stop_node-Settled :
        Ensures Start
          (stop_node platform service running state output)
          (Settled service.max_attempts run_id before)
    unfolding stop_node
    stop_node-Settled =
        Ensures-if (output.status == "waiting_for_approval") _ _
          (Ensures-weaken _ (λ g p. p)
            (λ status g p. (p.0, λ moves. absurd (ground (arith, p.1, moves))))
            pause_for_approval-Waits)
          (Ensures-weaken _ (λ g p. p)
            (λ status g p. (During-of_After service.max_attempts run_id before g p, λ moves. p))
            fail_node-After)

    settle_node-Settled :
        Ensures Start
          (settle_node platform service running state output)
          (Settled service.max_attempts run_id before)
    unfolding settle_node
    settle_node-Settled =
        Ensures-if (output.status == "succeeded") _ _
          (Ensures-weaken _ (λ g p. p)
            (λ status g p. (During-of_After service.max_attempts run_id before g p, λ moves. p))
            complete_node-After)
          stop_node-Settled

  module _ (leaves : LeavesNodes service) (n : GraphNodeRecord)
      (ready : IsReady service.max_attempts run_id before n) (state : Fields) where
    run_node-Settled :
        (started : ℕ) (security : Option AgentOutput)
        → Ensures Start
            (run_node platform service (running_node platform service n started) state security)
            (Settled service.max_attempts run_id before)
    unfolding run_node
    run_node-Settled started (some output) =
        Ensures-then _ _ (KeepsNodes-record_events platform service _ _)
          (λ done. stop_node-Settled n ready started state output)
    run_node-Settled started none =
        Ensures-then _ _ (KeepsNodes-call_agent platform service _ _ leaves) (λ output.
          Ensures-then _ _ (KeepsNodes-record_events platform service _ _)
            (λ done. settle_node-Settled n ready started state output))

    pub execute_node-Settled :
        Ensures Start
          (execute_node platform service n state)
          (Settled service.max_attempts run_id before)
    unfolding execute_node
    execute_node-Settled = Ensures-then _ _ (KeepsNodes-utc_now platform) (λ started.
        Ensures-then _ _ (KeepsNodes-get_run n.run_id) (λ run.
          Ensures-bind _ _
            (upsert-During service.max_attempts run_id before
              (running_node platform service n started) n ready.named ready.in_run
              (omega (arith, left-weight service.max_attempts n ready.left)))
            (λ written. Ensures-then _ _ (KeepsNodes-timestamp platform) (λ now.
              Ensures-then _ _ (KeepsNodes-record_event platform _ _ _ _) (λ event.
                Ensures-then _ _ (KeepsNodes-save_refreshed platform service _ _) (λ saved.
                  Ensures-then _ _ (KeepsNodes-authorize platform service _ _)
                    (λ security. run_node-Settled started security)))))))
