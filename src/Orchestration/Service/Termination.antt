-- ===== src/Orchestration/Service/Termination.antt =====
-- orchestration/service.py: the loop of `resume_run` ends.
use autonomous_enterprise_ai.Base.{
  ℕ, zero, suc, ◌<◌, ◌≡◌, ◌≢◌, refl, sym, ◌∙◌, ap, String, true, none, some, List, All, arith,
  return, pure, none≢some,
}
use autonomous_enterprise_ai.Base.Dict.{lookup}
use autonomous_enterprise_ai.Json.{Fields}
use autonomous_enterprise_ai.Platform.{Platform}
use autonomous_enterprise_ai.Runs.Models.{GraphNodeRecord}
use autonomous_enterprise_ai.Runs.Repository.{Repository}
use autonomous_enterprise_ai.Orchestration.Service.{OrchestratorService}
use autonomous_enterprise_ai.Orchestration.Service.Resume.{
  Round, stopped, going_on, round, rounds, resume_run,
}
use autonomous_enterprise_ai.Orchestration.Service.Keeps.{
  KeepsNodes-update_status, KeepsNodes-load_state, KeepsNodes-get_run,
}
use autonomous_enterprise_ai.Orchestration.Service.Keeps.Tools.{LeavesNodes}
use autonomous_enterprise_ai.Orchestration.Service.Ensures.{
  GraphNodes, Ensures, Ensures-pure, Ensures-bind, Ensures-then, Ensures-weaken,
}
use autonomous_enterprise_ai.Orchestration.Service.Work.{
  work, are_distinct, idents, Lighter, Lighter-self, Lighter-idents, Lighter-of_All,
}
use autonomous_enterprise_ai.Orchestration.Service.Rounds.{Goes, round-Goes}

module _ (platform : Platform) (service : OrchestratorService) (run_id : String)
    (leaves : LeavesNodes service) where
  -- The run has these nodes, each of the run and under a name of its own, with so many attempts
  -- left.
  abbrev pub HasWork : (left : ℕ) → GraphNodes → Type 0
  HasWork left g =
      (nodes : List GraphNodeRecord) × (lookup run_id g ≡ some nodes)
      × Lighter service.max_attempts run_id nodes nodes
      × (are_distinct (idents nodes) ≡ true)
      × (work service.max_attempts nodes < left)

  rounds-return :
      (fuel : ℕ) (state : Fields)
      → Ensures
          (HasWork fuel)
          (rounds platform service run_id fuel state)
          (λ answer g. answer ≢ none)
  unfolding rounds
  rounds-return zero state = record {
    at = λ r a s (nodes, there, light, distinct, less) e. absurd (ground (arith, less));
  }
  rounds-return (suc fuel) state = record {
    at = λ r a s (nodes, there, light, distinct, less) e.
        (Ensures-bind (round platform service run_id state) _
            (round-Goes platform service run_id leaves nodes light distinct state)
            (λ next. after_round nodes distinct less next (λ s2. rounds-return fuel s2))).at
          r a s there e;
  }
    where
      after_round :
          (nodes : List GraphNodeRecord)
          → are_distinct (idents nodes) ≡ true
          → work service.max_attempts nodes < suc fuel
          → (next : Round)
          → ((state : Fields)
              → Ensures
                  (HasWork fuel)
                  (rounds platform service run_id fuel state)
                  (λ answer g. answer ≢ none))
          → Ensures
              (Goes platform service run_id leaves nodes next)
              (elim next [
                | stopped answer ↦ pure (some answer)
                | going_on state' ↦ λ s. rounds platform service run_id fuel state' s
              ])
              (λ answer g. answer ≢ none)
      after_round nodes distinct less (stopped answer) later =
          Ensures-pure (some answer) _ (λ g p h. none≢some (sym h))
      after_round nodes distinct less (going_on state') later =
          Ensures-weaken _
            (λ g (ns, there, light, fewer). (
              ns,
              there,
              Lighter-self service.max_attempts run_id light,
              ap are_distinct (Lighter-idents service.max_attempts run_id light) ∙ distinct,
              omega arith,
            ))
            (λ answer g p. p) (later state')

  pub resume_run-return :
      (fuel : ℕ)
      → Ensures (HasWork fuel) (resume_run platform service run_id fuel) (λ answer g. answer ≢ none)
  unfolding resume_run
  resume_run-return fuel = Ensures-then _ _ (KeepsNodes-get_run run_id) (λ run.
      Ensures-then _ _ (KeepsNodes-load_state run_id) (λ state.
        Ensures-then _ _ (KeepsNodes-update_status platform run_id _ _)
          (λ updated. rounds-return fuel state)))

-- A loop that is given more rounds than the nodes have attempts left does not run out of them: it
-- returns or raises. The nodes are the run's, with identifiers of their own, and no agent writes
-- the nodes of a graph.
pub resume_run-ends :
    (platform : Platform) (service : OrchestratorService) (run_id : String) (fuel : ℕ)
    (r : Repository) (nodes : List GraphNodeRecord)
    → LeavesNodes service
    → lookup run_id r.graph_nodes ≡ some nodes
    → All (λ n. n.run_id ≡ run_id) nodes
    → are_distinct (idents nodes) ≡ true
    → work service.max_attempts nodes < fuel
    → (resume_run platform service run_id fuel r).0 ≢ return none
resume_run-ends platform service run_id fuel r nodes leaves there in_run distinct less e =
    (resume_run-return platform service run_id leaves fuel).at r none
      (resume_run platform service run_id fuel r).1
      (nodes, there, Lighter-of_All service.max_attempts run_id nodes in_run, distinct, less)
      (ap (λ a. (a, (resume_run platform service run_id fuel r).1)) e) refl
