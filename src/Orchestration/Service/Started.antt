-- ===== src/Orchestration/Service/Started.antt =====
-- orchestration/service.py: the attempts of a run that has just been started, and its end.
use autonomous_enterprise_ai.Base.{
  ℕ, suc, ◌+◌, ◌*◌, ◌≤◌, ◌<◌, ◌≡◌, ◌≢◌, some_injective, >>=-eq-return, refl, sym, ◌∙◌, ap, subst,
  String, Bool, true, false, not, ◌&&◌, ◌||◌, Option, none, some, List, [], ◌∷◌, length, All, map,
  arith, eq_iff, Option-cases, Bool-cases, inl, inr, return, raise_if, ◌>>=◌, ◌>>◌, ◌==◌,
}
use autonomous_enterprise_ai.Base.Dict.{lookup, keys}
use autonomous_enterprise_ai.Base.Text.{contains}
use autonomous_enterprise_ai.Platform.{Platform}
use autonomous_enterprise_ai.Runs.Errors.{Error, orchestration_error, run_not_found}
use autonomous_enterprise_ai.Runs.Models.{GraphNodeRecord, RunRecord, RunStatus}
use autonomous_enterprise_ai.Runs.Repository.{Repository, Repo, get_run, utc_now, update_status}
use autonomous_enterprise_ai.Runs.History.{replace_or_append, upsert_graph_node}
use autonomous_enterprise_ai.Runs.History.Nodes.{upserted, upsert-Eq, nodes_at}
use autonomous_enterprise_ai.Orchestration.Graph.{
  ExecutionNode, ExecutionGraph, Verdict, valid, validate,
}
use autonomous_enterprise_ai.Runs.Checkpoints.{save_checkpoint}
use autonomous_enterprise_ai.Orchestration.State.{build_initial_state}
use native.Mathlib.Nat.{mul-suc}
use autonomous_enterprise_ai.Orchestration.Service.Reports.{found-Eq}
use autonomous_enterprise_ai.Orchestration.Service.{OrchestratorService, OrchestrationResult}
use autonomous_enterprise_ai.Orchestration.Service.Resume.{resume_run}
use autonomous_enterprise_ai.Orchestration.Service.Entry.{
  new_node, upsert_each, raise_invalid, is_missing_agent, execute_run,
}
use autonomous_enterprise_ai.Orchestration.Service.Keeps.{
  KeepsNodes, KeepsNodes-pure, KeepsNodes-throw, KeepsNodes-utc_now, KeepsNodes-update_status,
  KeepsNodes-save_checkpoint,
}
use autonomous_enterprise_ai.Orchestration.Service.Keeps.Tools.{LeavesNodes}
use autonomous_enterprise_ai.Orchestration.Service.Ensures.{
  GraphNodes, Ensures, Ensures-pure, Ensures-bind, Ensures-then, Ensures-weaken,
}
use autonomous_enterprise_ai.Orchestration.Service.Work.{
  weight, work, are_distinct, idents, Lighter-of_All,
}
use autonomous_enterprise_ai.Orchestration.Service.Termination.{resume_run-return}

contains-replace :
    (k : String) (x : GraphNodeRecord) (nodes : List GraphNodeRecord)
    → contains k (idents (replace_or_append x nodes)) ≡ (contains k (idents nodes) || x.ident == k)
unfolding contains replace_or_append
contains-replace k x [] = ground arith
contains-replace k x (n ∷ nodes) = elim (Bool-cases (n.ident == x.ident)) [
  | inl same ↦ rw same (ground (arith, ap (λ i. i == k) ((eq_iff n.ident x.ident).0 same)))
  | inr other ↦ rw other (ground (arith, contains-replace k x nodes))
]

are_distinct-replace :
    (x : GraphNodeRecord) (nodes : List GraphNodeRecord)
    → are_distinct (idents nodes) ≡ true
    → are_distinct (idents (replace_or_append x nodes)) ≡ true
unfolding contains replace_or_append are_distinct
are_distinct-replace x [] h = refl
are_distinct-replace x (n ∷ nodes) h = elim (Bool-cases (n.ident == x.ident)) [
  | inl same ↦ rw same (
      subst (λ i. (not (contains i (idents nodes)) && are_distinct (idents nodes)) ≡ true)
        ((eq_iff n.ident x.ident).0 same) h)
  | inr other ↦ rw other (
      ground (
        arith,
        h,
        contains-replace n.ident x nodes,
        eq_iff n.ident x.ident,
        eq_iff x.ident n.ident,
        are_distinct-replace x nodes,
      ))
]

work-replace :
    (max_attempts : ℕ) (x : GraphNodeRecord) (nodes : List GraphNodeRecord)
    → work max_attempts (replace_or_append x nodes)
      ≤ work max_attempts nodes + weight max_attempts x
unfolding work replace_or_append
work-replace max_attempts x [] = omega arith
work-replace max_attempts x (n ∷ nodes) = elim (Bool-cases (n.ident == x.ident)) [
  | inl same ↦ rw same (omega arith)
  | inr other ↦ rw other (omega (arith, work-replace max_attempts x nodes))
]

All-replace :
    (run_id : String) (x : GraphNodeRecord) (nodes : List GraphNodeRecord)
    → x.run_id ≡ run_id
    → All (λ n. n.run_id ≡ run_id) nodes
    → All (λ n. n.run_id ≡ run_id) (replace_or_append x nodes)
unfolding replace_or_append
All-replace run_id x [] e all = (e, tt)
All-replace run_id x (n ∷ nodes) e (h, all) = elim (Bool-cases (n.ident == x.ident)) [
  | inl same ↦ rw same (e, all)
  | inr other ↦ rw other (h, All-replace run_id x nodes e all)
]

module _ (platform : Platform) (service : OrchestratorService) (run_id : String) where
  -- The run has nodes of its own, each under a name of its own, with at most so many attempts left.
  abbrev HasAtMost : (left : ℕ) → GraphNodes → Type 0
  HasAtMost left g =
      (nodes : List GraphNodeRecord) × (lookup run_id g ≡ some nodes)
      × All (λ n. n.run_id ≡ run_id) nodes
      × (are_distinct (idents nodes) ≡ true)
      × (work service.max_attempts nodes ≤ left)

  upsert-HasAtMost :
      (left : ℕ) (x : GraphNodeRecord)
      → x.run_id ≡ run_id
      → Ensures
          (HasAtMost left)
          (upsert_graph_node x)
          (λ y. HasAtMost (left + weight service.max_attempts x))
  unfolding upsert_graph_node
  upsert-HasAtMost left x in_run = record {
    at = λ r a s (nodes, there, all, distinct, less) h.
        elim (Option-cases (lookup x.run_id r.runs)) [
          | inl no_run ↦ absurd (ground (arith, rw no_run at h))
          | inr (run, open_run) ↦
              let open_nodes : lookup x.run_id r.graph_nodes ≡ some nodes =
                ap (λ i. lookup i r.graph_nodes) in_run ∙ there in
              let after : upserted r x open_run open_nodes ≡ s =
                ap (λ z. z.1) (sym (upsert-Eq r x open_run open_nodes) ∙ h) in
              let found : lookup run_id s.graph_nodes ≡ some (replace_or_append x nodes) =
                subst (λ i. lookup i s.graph_nodes ≡ some (replace_or_append x nodes)) in_run
                  (subst (λ t. lookup x.run_id t.graph_nodes ≡ some (replace_or_append x nodes))
                    after (nodes_at r x open_run open_nodes)) in
              let sum = work-replace service.max_attempts x nodes in
              (
                replace_or_append x nodes,
                found,
                All-replace run_id x nodes in_run all,
                are_distinct-replace x nodes distinct,
                omega arith,
              )
        ];
  }

  more : (m n : ℕ) (g : GraphNodes) → m ≤ n → HasAtMost m g → HasAtMost n g
  more m n g below (nodes, there, all, distinct, less) = (nodes, there, all, distinct, omega arith)

  upsert_each-HasAtMost :
      (left now : ℕ) (nodes : List ExecutionNode)
      → Ensures
          (HasAtMost left)
          (upsert_each (map (new_node run_id now) nodes))
          (λ done. HasAtMost (left + service.max_attempts * length nodes))
  unfolding upsert_each new_node
  upsert_each-HasAtMost left now [] =
      Ensures-pure tt _ (λ g p. more left (left + service.max_attempts * 0) g (omega arith) p)
  upsert_each-HasAtMost left now (node ∷ nodes) =
      let each = service.max_attempts in
      Ensures-bind (upsert_graph_node (new_node run_id now node))
        (λ written. upsert_each (map (new_node run_id now) nodes))
        (upsert-HasAtMost left (new_node run_id now node) refl)
        (λ written.
          Ensures-weaken (upsert_each (map (new_node run_id now) nodes))
            (λ g p. more _ (left + each) g (omega arith) p)
            (λ done g p.
              more (left + each + each * length nodes) (left + each * suc (length nodes)) g
                (omega (arith, mul-suc each (length nodes))) p)
            (upsert_each-HasAtMost (left + each) now nodes))

valid-KeepsNodes : (verdict : Verdict) → KeepsNodes (raise_invalid verdict)
valid-KeepsNodes valid = KeepsNodes-pure tt
valid-KeepsNodes _ = KeepsNodes-throw _

missing-KeepsNodes : (b : Bool) (e : Error) → KeepsNodes (raise_if b e)
missing-KeepsNodes true e = KeepsNodes-throw e
missing-KeepsNodes false e = KeepsNodes-pure tt

module _ (platform : Platform) (service : OrchestratorService) (leaves : LeavesNodes service)
    (fuel : ℕ) (graph : ExecutionGraph) where
  -- What follows the read of the run.
  abbrev after_run : RunRecord → Repo (Option OrchestrationResult)
  after_run run = do
    raise_invalid (validate service.agent_types graph)
    raise_if (is_missing_agent (keys service.agents) graph.nodes) (orchestration_error "agents")
    now ← utc_now platform
    upsert_each (map (new_node run.ident now) graph.nodes)
    save_checkpoint platform run.ident (build_initial_state run graph)
    update_status platform run.ident RunStatus.running none
    resume_run platform service run.ident fuel

  after_run-ends :
      (run : RunRecord) (left : ℕ)
      → left + service.max_attempts * length graph.nodes < fuel
      → Ensures
          (HasAtMost platform service run.ident left)
          (after_run run)
          (λ answer g. answer ≢ none)
  after_run-ends run left enough =
      Ensures-then _ _ (valid-KeepsNodes (validate service.agent_types graph)) (λ checked.
        Ensures-then _ _
          (missing-KeepsNodes (is_missing_agent (keys service.agents) graph.nodes)
            (orchestration_error "agents"))
          (λ present. Ensures-then _ _ (KeepsNodes-utc_now platform) (λ now.
            Ensures-bind _ _ (upsert_each-HasAtMost platform service run.ident left now graph.nodes)
              (λ written.
                Ensures-then _ _
                  (KeepsNodes-save_checkpoint platform run.ident (build_initial_state run graph))
                  (λ saved.
                    Ensures-then _ _
                      (KeepsNodes-update_status platform run.ident RunStatus.running none)
                      (λ updated.
                        Ensures-weaken _
                          (λ g (nodes, there, all, distinct, less). (
                            nodes,
                            there,
                            Lighter-of_All service.max_attempts run.ident nodes all,
                            distinct,
                            omega arith,
                          ))
                          (λ answer g p. p)
                          (resume_run-return platform service run.ident leaves fuel)))))))

-- The start of a run on a graph does not run out of rounds, where it is given more than the nodes
-- that the run already has have attempts left, with the whole budget of each node of the graph: it
-- returns or raises. The nodes that are there are the run's, with identifiers of their own, and no
-- agent writes the nodes of a graph.
pub execute_run-ends :
    (platform : Platform) (service : OrchestratorService) (fuel : ℕ) (run_id : String)
    (graph : ExecutionGraph) (r : Repository) (run : RunRecord) (nodes : List GraphNodeRecord)
    → LeavesNodes service
    → lookup run_id r.runs ≡ some run
    → lookup run.ident r.graph_nodes ≡ some nodes
    → All (λ n. n.run_id ≡ run.ident) nodes
    → are_distinct (idents nodes) ≡ true
    → work service.max_attempts nodes + service.max_attempts * length graph.nodes < fuel
    → (execute_run platform service fuel run_id graph r).0 ≢ return none
unfolding execute_run
execute_run-ends platform service fuel run_id graph r run nodes leaves there stored all distinct
      enough e =
    let s = (execute_run platform service fuel run_id graph r).1 in
    let (found, t, e1, e2) =
      >>=-eq-return (get_run run_id) (after_run platform service leaves fuel graph) r
        (ap (λ a. (a, s)) e) in
    let (is_there, same) = found-Eq (run_not_found run_id) (lookup run_id r.runs) r t found e1 in
    let known : run ≡ found = some_injective (sym there ∙ is_there) in
    let from_run =
      after_run-ends platform service leaves fuel graph run (work service.max_attempts nodes)
        enough in
    from_run.at r none s (nodes, stored, all, distinct, omega arith)
      (subst (λ k. after_run platform service leaves fuel graph k r ≡ (return none, s)) (sym known)
        (subst (λ u. after_run platform service leaves fuel graph found u ≡ (return none, s))
          (sym same) e2))
      refl
