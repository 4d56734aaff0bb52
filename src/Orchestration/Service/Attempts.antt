-- ===== src/Orchestration/Service/Attempts.antt =====
-- orchestration/service.py: the attempts left after the execution of a node.
use autonomous_enterprise_ai.Base.{
  ℕ, ◌≤◌, ◌<◌, ◌≡◌, sym, ◌∙◌, ap, subst, String, false, some, List, arith, Option-cases, inl, inr,
}
use autonomous_enterprise_ai.Base.Dict.{lookup}
use autonomous_enterprise_ai.Runs.Models.{GraphNodeStatus, GraphNodeRecord}
use autonomous_enterprise_ai.Runs.History.{replace_or_append, node_named, upsert_graph_node}
use autonomous_enterprise_ai.Runs.History.Nodes.{upserted, upsert-Eq, nodes_at}
use autonomous_enterprise_ai.Orchestration.State.{is_waiting}
use autonomous_enterprise_ai.Orchestration.Service.Ensures.{GraphNodes, Ensures, Ensures-weaken}
use autonomous_enterprise_ai.Orchestration.Service.Work.{weight, work, Lighter, Lighter-replace}

module _ (max_attempts : ℕ) (run_id : String) (before : List GraphNodeRecord) where
  -- The run has the nodes that it had before, none with more attempts left.
  abbrev pub During : GraphNodes → Type 0
  During g =
      (nodes : List GraphNodeRecord) × (lookup run_id g ≡ some nodes)
      × Lighter max_attempts run_id before nodes

  -- And they have fewer attempts left in all.
  abbrev pub After : GraphNodes → Type 0
  After g =
      (nodes : List GraphNodeRecord) × (lookup run_id g ≡ some nodes)
      × Lighter max_attempts run_id before nodes
      × (work max_attempts nodes < work max_attempts before)

  pub During-of_After : (g : GraphNodes) → After g → During g
  During-of_After g (nodes, there, light, less) = (nodes, there, light)

  module _ (x n : GraphNodeRecord) (named : node_named x.ident before ≡ some n)
      (in_run : x.run_id ≡ run_id) where
    upsert-both :
        weight max_attempts x ≤ weight max_attempts n
        → Ensures During
            (upsert_graph_node x)
            (λ y g. During g × (weight max_attempts x < weight max_attempts n → After g))
    unfolding upsert_graph_node
    upsert-both less = record {
      at = λ r a s (nodes, there, light) h. elim (Option-cases (lookup x.run_id r.runs)) [
        | inl no_run ↦ absurd (ground (arith, rw no_run at h))
        | inr (run, open_run) ↦
            let open_nodes : lookup x.run_id r.graph_nodes ≡ some nodes =
              ap (λ i. lookup i r.graph_nodes) in_run ∙ there in
            let after : upserted r x open_run open_nodes ≡ s =
              ap (λ z. z.1) (sym (upsert-Eq r x open_run open_nodes) ∙ h) in
            let (light2, sum) = Lighter-replace max_attempts run_id x n light named in_run less in
            let found : lookup run_id s.graph_nodes ≡ some (replace_or_append x nodes) =
              subst (λ i. lookup i s.graph_nodes ≡ some (replace_or_append x nodes)) in_run
                (subst (λ t. lookup x.run_id t.graph_nodes ≡ some (replace_or_append x nodes)) after
                  (nodes_at r x open_run open_nodes)) in
            (
              (replace_or_append x nodes, found, light2),
              λ strictly. (replace_or_append x nodes, found, light2, omega arith),
            )
      ];
    }

    pub upsert-During :
        weight max_attempts x ≤ weight max_attempts n
        → Ensures During (upsert_graph_node x) (λ y. During)
    upsert-During less =
        Ensures-weaken (upsert_graph_node x) (λ g p. p) (λ y g both. both.0) (upsert-both less)

    pub upsert-After :
        weight max_attempts x < weight max_attempts n
        → Ensures During (upsert_graph_node x) (λ y. After)
    upsert-After less =
        Ensures-weaken (upsert_graph_node x) (λ g p. p) (λ y g both. both.1 less)
          (upsert-both (omega arith))

  -- A node that a round found with an attempt left.
  pub record IsReady (n : GraphNodeRecord) : Type 0 where
    pub named : node_named n.ident before ≡ some n
    pub in_run : n.run_id ≡ run_id
    pub left : 1 ≤ weight max_attempts n

  -- After its execution the node waits, or has fewer attempts left.
  abbrev pub Settled : GraphNodeStatus → GraphNodes → Type 0
  Settled status g = During g × (is_waiting status ≡ false → After g)
