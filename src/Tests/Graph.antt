-- ===== src/Tests/Graph.antt =====
-- orchestration/graph.py on small graphs.
use autonomous_enterprise_ai.Base.{
  ℕ, ◌≡◌, ◌≢◌, refl, List, [], ◌∷◌, String, All, arith, ◌==◌, if◌then◌else◌,
}
use autonomous_enterprise_ai.Base.Dict.{lookup, insert}
use autonomous_enterprise_ai.Base.Text.{contains, strip}
use autonomous_enterprise_ai.Orchestration.Graph.{
  ExecutionNode, ExecutionGraph, valid, broken, invalid, dependency_cycle, distinct, has_other,
  node_error, nodes_error, visit_each, mark, visit, nodes_by_id, assert_acyclic, validate_nodes,
  validate,
}
use autonomous_enterprise_ai.Orchestration.Graph.Checks.{IsSound}
use autonomous_enterprise_ai.Orchestration.Graph.Validation.{
  IsValidGraph, validate-IsValidGraph, validate_total, validate_complete,
}

abbrev node : String → List String → ExecutionNode
node ident depends_on = record {
  ident = ident;
  agent = "data";
  task = "work";
  depends_on = depends_on;
  required_tools = [];
  expected_artifacts = "report" ∷ [];
  risk = "low";
}

abbrev diamond : ExecutionGraph
diamond = record {
  run_id = "run_1";
  nodes = node "d" ("b" ∷ "c" ∷ []) ∷ node "b" ("a" ∷ []) ∷ node "c" ("a" ∷ []) ∷ node "a" [] ∷ [];
}

abbrev circle : ExecutionGraph
circle = record { run_id = "run_1"; nodes = node "a" ("b" ∷ []) ∷ node "b" ("a" ∷ []) ∷ [] }

program : Unit {0}
unfolding validate validate_nodes distinct nodes_error node_error has_other assert_acyclic
    visit_each visit mark nodes_by_id lookup insert contains strip
program = tt

validate-circle : validate ("data" ∷ []) circle ≡ invalid dependency_cycle
unfolding program
validate-circle = refl

validate-IsValidGraph_example : IsValidGraph ("data" ∷ []) diamond.nodes
unfolding program
validate-IsValidGraph_example = validate-IsValidGraph ("data" ∷ []) diamond refl

validate_total_example : validate ("data" ∷ []) circle ≢ broken
validate_total_example = validate_total ("data" ∷ []) circle

abbrev rank : String → ℕ
rank k = if k == "a" then 0 else if k == "d" then 2 else 1

diamond-IsSound : All (IsSound ("data" ∷ []) ("d" ∷ "b" ∷ "c" ∷ "a" ∷ [])) diamond.nodes
unfolding program
diamond-IsSound = ground arith

validate_complete_example : validate ("data" ∷ []) diamond ≡ valid
unfolding contains
validate_complete_example =
    validate_complete ("data" ∷ []) diamond rank (λ e. cc) (refl, (refl, (refl, (refl, tt))))
      diamond-IsSound (omega arith)
