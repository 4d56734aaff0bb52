-- ===== src/Orchestration/Graph.antt =====
-- orchestration/graph.py: the execution graph and its validation. The depth-first search for a
-- cycle takes fuel for the depth of its calls; `visiting` shrinks again when a call returns, so
-- it is an argument, and `visited` is a result.
pub mod Search
pub mod Rank
pub mod Checks
pub mod Nodes
pub mod Validation
use autonomous_enterprise_ai.Base.{
  ℕ, zero, suc, String, Bool, true, false, not, ◌||◌, Option, none, some, List, [], ◌∷◌, map,
  length, any_of, leb, ltb, if◌then◌else◌,
}
use autonomous_enterprise_ai.Base.Dict.{Dict, lookup, insert, keys}
use autonomous_enterprise_ai.Base.Text.{contains, strip, is_blank}

pub record ExecutionNode : Type 0 where
  pub ident : String
  pub agent : String
  pub task : String
  pub depends_on : List String
  pub required_tools : List String
  pub expected_artifacts : List String
  pub risk : String

pub record ExecutionGraph : Type 0 where
  pub run_id : String
  pub nodes : List ExecutionNode

-- GraphValidationError, by its message, with the node that it names.
pub data GraphError : Type 0 where
  no_nodes duplicate_ids blank_id : GraphError
  blank_task unknown_agent invalid_risk unknown_artifacts missing_nodes : String → GraphError
  dependency_cycle : GraphError

abbrev pub valid_risk_levels : List String
valid_risk_levels = "low" ∷ "medium" ∷ "high" ∷ []

abbrev pub valid_artifact_types : List String
valid_artifact_types =
    "dataset" ∷ "schema_profile" ∷ "quality_report" ∷ "kpi_table" ∷ "chart" ∷ "dashboard" ∷ "report"
    ∷ "code" ∷ "evaluation" ∷ "deployment" ∷ []

abbrev pub idents : List ExecutionNode → List String
idents nodes = map (λ n. n.ident) nodes

-- The elements of `set(xs)`, each once.
unfoldable pub distinct : List String → List String
distinct [] = []
distinct (x ∷ xs) = let rest = distinct xs in if contains x xs then rest else x ∷ rest

-- `set(xs) - set(ys)` is not empty.
unfoldable pub has_other : List String → List String → Bool
has_other xs ys = any_of (λ x. not (contains x ys)) xs

-- The body of the loop over the nodes in `validate`: the first check that fails.
unfoldable pub node_error : (known_agents ids : List String) → ExecutionNode → Option GraphError
node_error known_agents ids node =
    if is_blank (strip node.ident)
    then some blank_id
    else if is_blank (strip node.task)
    then some (blank_task node.ident)
    else if not (contains node.agent known_agents)
    then some (unknown_agent node.ident)
    else if not (contains node.risk valid_risk_levels)
    then some (invalid_risk node.ident)
    else if has_other node.expected_artifacts valid_artifact_types
    then some (unknown_artifacts node.ident)
    else if has_other node.depends_on ids
    then some (missing_nodes node.ident)
    else none

unfoldable pub nodes_error :
    (known_agents ids : List String) → List ExecutionNode → Option GraphError
nodes_error known_agents ids [] = none
nodes_error known_agents ids (node ∷ nodes) = elim (node_error known_agents ids node) [
  | some e ↦ some e
  | none ↦ nodes_error known_agents ids nodes
]

-- How a call of `visit` ends: with the new set `visited`, or by an exception. `no_node` is the
-- KeyError of `nodes_by_id[node_id]`.
pub data Walk : Type 0 where
  done : (visited : List String) → Walk
  cycle no_node out_of_fuel : Walk

-- `for dependency_id in depends_on: visit(dependency_id)`
unfoldable pub visit_each : (List String → String → Walk) → List String → List String → Walk
visit_each visit visited [] = done visited
visit_each visit visited (d ∷ ds) = elim (visit visited d) [
  | done visited' ↦ visit_each visit visited' ds
  | other ↦ other
]

unfoldable pub mark : String → Walk → Walk
mark node_id (done visited) = done (node_id ∷ visited)
mark node_id other = other

unfoldable pub visit :
    (find : String → Option ExecutionNode) (fuel : ℕ) (visiting visited : List String)
    → String
    → Walk
visit find zero visiting visited node_id = out_of_fuel
visit find (suc fuel) visiting visited node_id =
    let rest : Walk = elim (find node_id) [
      | none ↦ no_node
      | some node ↦
          mark node_id (visit_each (visit find fuel (node_id ∷ visiting)) visited node.depends_on)
    ] in
    if contains node_id visited
    then done visited
    else if contains node_id visiting
    then cycle
    else rest

-- `{node.id: node for node in nodes}`
unfoldable pub nodes_by_id : Dict ExecutionNode → List ExecutionNode → Dict ExecutionNode
nodes_by_id d [] = d
nodes_by_id d (n ∷ nodes) = nodes_by_id (insert n.ident n d) nodes

abbrev pub find_in : List ExecutionNode → String → Option ExecutionNode
find_in nodes k = lookup k (nodes_by_id [] nodes)

-- _assert_acyclic: one call more than there are nodes is the deepest nesting.
unfoldable pub assert_acyclic : List ExecutionNode → Walk
assert_acyclic nodes =
    visit_each (visit (find_in nodes) (suc (length nodes)) []) [] (keys (nodes_by_id [] nodes))

-- What `validate` raises: nothing, a validation error, or an end that the theorems exclude.
pub data Verdict : Type 0 where
  valid : Verdict
  invalid : GraphError → Verdict
  broken : Verdict

abbrev pub verdict : Walk → Verdict
verdict (done visited) = valid
verdict cycle = invalid dependency_cycle
verdict _ = broken

-- `validate`, past the test for an empty graph.
unfoldable pub validate_nodes : (known_agents : List String) → List ExecutionNode → Verdict
validate_nodes known_agents nodes =
    if ltb (length (distinct (idents nodes))) (length (idents nodes))
    then invalid duplicate_ids
    else elim (nodes_error known_agents (idents nodes) nodes) [
      | some e ↦ invalid e
      | none ↦ verdict (assert_acyclic nodes)
    ]

unfoldable pub validate_list : (known_agents : List String) → List ExecutionNode → Verdict
validate_list known_agents [] = invalid no_nodes
validate_list known_agents (n ∷ nodes) = validate_nodes known_agents (n ∷ nodes)

unfoldable pub validate : (known_agents : List String) → ExecutionGraph → Verdict
unfolding validate_list
validate known_agents graph = validate_list known_agents graph.nodes
