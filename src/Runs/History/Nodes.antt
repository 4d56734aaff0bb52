-- ===== src/Runs/History/Nodes.antt =====
-- runs/repository.py: what the repository returns for a graph node after it is written.
use autonomous_enterprise_ai.Base.{
  ◌≡◌, refl, sym, ◌∙◌, ap, String, false, Option, none, some, List, [], ◌∷◌, arith, eq_iff, eq_refl,
  return, ◌==◌, if◌then◌else◌,
}
use autonomous_enterprise_ai.Base.Dict.{lookup, insert, lookup-insert}
use autonomous_enterprise_ai.Runs.Models.{GraphNodeRecord, RunRecord}
use autonomous_enterprise_ai.Runs.Errors.{Error, graph_node_not_found}
use autonomous_enterprise_ai.Runs.Repository.{Repository, found_or_raise}
use autonomous_enterprise_ai.Runs.History.{
  replace_or_append, node_named, upsert_graph_node, get_graph_node,
}

node_named-replace_or_append :
    (node : GraphNodeRecord) (nodes : List GraphNodeRecord) (k : String)
    → node_named k (replace_or_append node nodes)
      ≡ (if node.ident == k then some node else node_named k nodes)
unfolding node_named replace_or_append
node_named-replace_or_append node [] k = refl
node_named-replace_or_append node (n ∷ nodes) k = ground (
  arith,
  eq_iff n.ident node.ident,
  eq_iff n.ident k,
  eq_iff node.ident k,
  node_named-replace_or_append node nodes k,
)

get-Eq :
    (run_id k : String) (s : Repository) {run : RunRecord} {nodes : List GraphNodeRecord}
    → lookup run_id s.runs ≡ some run
    → lookup run_id s.graph_nodes ≡ some nodes
    → get_graph_node run_id k s ≡ found_or_raise (graph_node_not_found k) (node_named k nodes) s
unfolding get_graph_node
get-Eq run_id k s a b = rw (a, b) refl

found_or_raise-Result :
    (e : Error) (o : Option GraphNodeRecord) (s s' : Repository)
    → (found_or_raise e o s).0 ≡ (found_or_raise e o s').0
found_or_raise-Result e none s s' = refl
found_or_raise-Result e (some n) s s' = refl

module _ (r : Repository) (node : GraphNodeRecord) {run : RunRecord} {nodes : List GraphNodeRecord}
    (open_run : lookup node.run_id r.runs ≡ some run)
    (open_nodes : lookup node.run_id r.graph_nodes ≡ some nodes) where
  abbrev pub upserted : Repository
  upserted = record r {
    graph_nodes = insert node.run_id (replace_or_append node nodes) r.graph_nodes;
  }

  pub upsert-Eq : upsert_graph_node node r ≡ (return node, upserted)
  unfolding upsert_graph_node
  upsert-Eq = rw (open_run, open_nodes) refl

  pub nodes_at : lookup node.run_id upserted.graph_nodes ≡ some (replace_or_append node nodes)
  nodes_at = ground (
    arith,
    eq_refl node.run_id,
    lookup-insert node.run_id node.run_id (replace_or_append node nodes) r.graph_nodes,
  )

  -- A write to an open run succeeds; then the run has the written node under its identifier, and
  -- under every other identifier what it had before, an exception included.
  pub get-upsert :
      (node_id : String)
      → (upsert_graph_node node r ≡ (return node, upserted))
        × (get_graph_node node.run_id node.ident upserted ≡ (return node, upserted))
        × ((node.ident == node_id) ≡ false
            → (get_graph_node node.run_id node_id upserted).0
              ≡ (get_graph_node node.run_id node_id r).0)
  get-upsert node_id =
      let missing = graph_node_not_found node_id in
      (
        upsert-Eq,
        get-Eq node.run_id node.ident upserted open_run nodes_at
            ∙ ap (λ o. found_or_raise (graph_node_not_found node.ident) o upserted)
                (node_named-replace_or_append node nodes node.ident
                  ∙ ap (λ b. if b then some node else node_named node.ident nodes)
                      (eq_refl node.ident)),
        λ other.
            ap (λ p. p.0) (get-Eq node.run_id node_id upserted open_run nodes_at)
            ∙ ap (λ o. (found_or_raise missing o upserted).0)
                (node_named-replace_or_append node nodes node_id
                  ∙ ap (λ b. if b then some node else node_named node_id nodes) other)
            ∙ found_or_raise-Result missing (node_named node_id nodes) upserted r
            ∙ sym (ap (λ p. p.0) (get-Eq node.run_id node_id r open_run open_nodes)),
      )
