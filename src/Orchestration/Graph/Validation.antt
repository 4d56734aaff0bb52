-- ===== src/Orchestration/Graph/Validation.antt =====
-- orchestration/graph.py: what `validate` decides.
use mathlib.Core.List.{Memᴰ}
use autonomous_enterprise_ai.Base.{
  ℕ, suc, ◌<◌, String, ◌≡◌, ◌≢◌, refl, inl, inr, true, Option, none, some, List, [], ◌∷◌, All,
  All_at, All-map, length, arith, Bool-cases, Option-cases, ltb, subst,
}
use autonomous_enterprise_ai.Base.Dict.{lookup, keys}
use autonomous_enterprise_ai.Base.Text.{contains, contains_of_Memᴰ, Memᴰ_of_contains}
use autonomous_enterprise_ai.Orchestration.Graph.{
  ExecutionNode, ExecutionGraph, done, valid, broken, idents, distinct, nodes_error, nodes_by_id,
  find_in, visit, assert_acyclic, validate_nodes, validate_list, validate,
}
use autonomous_enterprise_ai.Orchestration.Graph.Search.{
  IsOrdered, IsAcyclic, DependsOn, each-Visits, visit-Visits, ordered_no_cycle,
}
use autonomous_enterprise_ai.Orchestration.Graph.Rank.{
  outside, outside-le, IsRanked, Returns, Ends, each-Returns, each-Ends, visit-Returns, visit-Ends,
}
use autonomous_enterprise_ai.Orchestration.Graph.Checks.{
  IsDistinct, IsDistinct-of_test, test_of_IsDistinct, AllIn, IsSound, IsSound-of_checks,
  checks_of_sound,
}
use autonomous_enterprise_ai.Orchestration.Graph.Nodes.{
  find_by_id, present_by_id, length-by_id-le, contains_key, keys_present,
}

zip-All {ℓ κ μ} :
    {A : Type ℓ} (P : A → Type κ) (Q : A → Type μ) (xs : List A)
    → All P xs
    → All Q xs
    → All (λ x. P x × Q x) xs
zip-All P Q [] p q = tt
zip-All P Q (x ∷ xs) p q = ((p.0, q.0), zip-All P Q xs p.1 q.1)

module _ (known_agents : List String) (nodes : List ExecutionNode) where
  abbrev find : String → Option ExecutionNode
  find = find_in nodes

  abbrev ids : List String
  ids = keys (nodes_by_id [] nodes)

  All-keys : All (λ k. find k ≢ none) ids
  All-keys = keys_present (nodes_by_id [] nodes) ids (λ k m. contains_of_Memᴰ k ids m)

  found_node : (k : String) (n : ExecutionNode) → find k ≡ some n → Memᴰ n nodes × (n.ident ≡ k)
  unfolding lookup
  found_node k n h = elim (find_by_id [] nodes k n h) [ inl m ↦ m | inr e ↦ absurd (ground arith) ]

  listed : (k : String) (n : ExecutionNode) → find k ≡ some n → contains k ids ≡ true
  listed k n h = contains_key (nodes_by_id [] nodes) k (λ e. cc)

  fuel_enough : outside ids [] < suc (length nodes)
  fuel_enough = omega (arith, outside-le ids [], length-by_id-le [] nodes)

  present_of_ident : (k : String) → contains k (idents nodes) ≡ true → find k ≢ none
  present_of_ident k h = present_by_id [] nodes k (inl h)

  closed :
      All (IsSound known_agents (idents nodes)) nodes
      → (k : String) (n : ExecutionNode) → find k ≡ some n
      → All (λ d. find d ≢ none) n.depends_on
  closed sound k n h =
      All-map _ _ n.depends_on present_of_ident
        (All_at (IsSound known_agents (idents nodes)) nodes sound (found_node k n h).0).deps_present

  search-Ends : All (IsSound known_agents (idents nodes)) nodes → Ends (assert_acyclic nodes)
  unfolding assert_acyclic
  search-Ends sound = each-Ends (visit find (suc (length nodes)) []) [] ids (
      All-map _ _ ids
        (λ k present visited.
          visit-Ends find ids listed (closed sound) (suc (length nodes)) [] visited k present
            fuel_enough)
        All-keys)

  search_orders :
      (visited : List String)
      → assert_acyclic nodes ≡ done visited
      → IsOrdered find visited × AllIn visited ids
  unfolding assert_acyclic
  search_orders visited h =
      let (grown, all) =
        each-Visits find (visit find (suc (length nodes)) [])
          (visit-Visits find (suc (length nodes)) []) [] visited ids tt h in
      (grown.ordered, all)

  node_key : (k : String) → contains k (idents nodes) ≡ true → contains k ids ≡ true
  node_key k h = contains_key (nodes_by_id [] nodes) k (present_of_ident k h)

  -- Every node of an ordered list of all nodes is on no cycle. A path starts at a node.
  no_cycle : (visited : List String) → IsOrdered find visited → AllIn visited ids → IsAcyclic find
  no_cycle visited o all k p =
      ordered_no_cycle find k visited o
        (All_at (λ x. contains x visited ≡ true) ids all
          (Memᴰ_of_contains k ids (start_listed k k p)))
        p
    where
      start_listed : (j d : String) → DependsOn find j d → contains j ids ≡ true
      start_listed j d (DependsOn.direct {node = n} f m) = listed j n f
      start_listed j d (DependsOn.further {d = e} q f m) = start_listed j e q

  -- How `validate_nodes` comes to accept.
  accepted :
      validate_nodes known_agents nodes ≡ valid
      → IsDistinct (idents nodes) × All (IsSound known_agents (idents nodes)) nodes × IsAcyclic find
  unfolding validate_nodes
  accepted h = elim (Bool-cases (ltb (length (distinct (idents nodes))) (length (idents nodes)))) [
    | inl twice ↦ absurd (ground arith)
    | inr once ↦ elim (Option-cases (nodes_error known_agents (idents nodes) nodes)) [
      | inr (x, e) ↦ absurd (ground arith)
      | inl clear ↦
          let sound = IsSound-of_checks known_agents (idents nodes) nodes clear in
          elim (search-Ends sound) [
            | inr e ↦ absurd (ground arith)
            | inl (visited, e) ↦
                let (o, all) = search_orders visited e in
                (IsDistinct-of_test (idents nodes) once, sound, no_cycle visited o all)
          ]
    ]
  ]

  not_broken : validate_nodes known_agents nodes ≢ broken
  unfolding validate_nodes
  not_broken h =
      elim (Bool-cases (ltb (length (distinct (idents nodes))) (length (idents nodes)))) [
        | inl twice ↦ ground arith
        | inr once ↦ elim (Option-cases (nodes_error known_agents (idents nodes) nodes)) [
          | inr (x, e) ↦ ground arith
          | inl clear ↦
              elim (search-Ends (IsSound-of_checks known_agents (idents nodes) nodes clear)) [
                | inr e ↦ ground arith
                | inl (visited, e) ↦ ground arith
              ]
        ]
      ]

  ranked :
      (rank : String → ℕ)
      → All (IsSound known_agents (idents nodes)) nodes
      → All (λ n. All (λ d. rank d < rank n.ident) n.depends_on) nodes
      → IsRanked find ids rank
  ranked rank sound falls = record {
    listed = listed;
    closed = λ k n h.
        let (m, e) = found_node k n h in
        zip-All _ _ n.depends_on (closed sound k n h) (
          subst (λ j. All (λ d. rank d < rank j) n.depends_on) e
            (All_at (λ n. All (λ d. rank d < rank n.ident) n.depends_on) nodes falls m));
  }

  searched : (rank : String → ℕ) → IsRanked find ids rank → Returns (assert_acyclic nodes)
  unfolding assert_acyclic
  searched rank r = each-Returns (visit find (suc (length nodes)) []) [] ids (
      All-map _ _ ids
        (λ k present visited.
          visit-Returns find ids rank r (suc (length nodes)) [] visited k present fuel_enough tt)
        All-keys)

-- What a valid graph is: it has nodes, no identifier stands twice, each node passes its checks,
-- and the dependencies have no cycle.
pub record IsValidGraph (known_agents : List String) (nodes : List ExecutionNode) : Type 0 where
  pub has_nodes : nodes ≢ []
  pub unique : IsDistinct (idents nodes)
  pub sound : All (IsSound known_agents (idents nodes)) nodes
  pub acyclic : IsAcyclic (find_in nodes)

-- A graph that `validate` accepts has nodes with distinct identifiers, each of which passes its
-- checks (a name, a task, a known agent, a valid risk, valid artifact types, dependencies among
-- the nodes), and no node depends on itself along any path of dependencies.
pub validate-IsValidGraph :
    (known_agents : List String) (graph : ExecutionGraph)
    → validate known_agents graph ≡ valid
    → IsValidGraph known_agents graph.nodes
unfolding validate
validate-IsValidGraph known_agents graph h = from_list graph.nodes h
  where
    from_list :
        (nodes : List ExecutionNode)
        → validate_list known_agents nodes ≡ valid
        → IsValidGraph known_agents nodes
    from_list [] e = absurd (ground arith)
    from_list (n ∷ nodes) e =
        let (unique, sound, acyclic) = accepted known_agents (n ∷ nodes) e in
        record { has_nodes = λ p. cc; unique = unique; sound = sound; acyclic = acyclic }

-- `validate` never ends by a missing key or a search that does not end, whatever the graph: it
-- accepts, or raises one of the validation errors.
pub validate_total :
    (known_agents : List String) (graph : ExecutionGraph) → validate known_agents graph ≢ broken
unfolding validate
validate_total known_agents graph = from_list graph.nodes
  where
    from_list : (nodes : List ExecutionNode) → validate_list known_agents nodes ≢ broken
    from_list [] e = ground arith
    from_list (n ∷ nodes) e = not_broken known_agents (n ∷ nodes) e

-- A graph with nodes, distinct identifiers, nodes that pass their checks and a rank that falls
-- along every dependency is accepted.
pub validate_complete :
    (known_agents : List String) (graph : ExecutionGraph) (rank : String → ℕ)
    → graph.nodes ≢ []
    → IsDistinct (idents graph.nodes)
    → All (IsSound known_agents (idents graph.nodes)) graph.nodes
    → All (λ n. All (λ d. rank d < rank n.ident) n.depends_on) graph.nodes
    → validate known_agents graph ≡ valid
unfolding validate validate_nodes
validate_complete known_agents graph rank some_nodes unique sound falls =
    from_list graph.nodes some_nodes unique sound falls
  where
    from_list :
        (nodes : List ExecutionNode)
        → nodes ≢ []
        → IsDistinct (idents nodes)
        → All (IsSound known_agents (idents nodes)) nodes
        → All (λ n. All (λ d. rank d < rank n.ident) n.depends_on) nodes
        → validate_list known_agents nodes ≡ valid
    from_list [] filled u s f = absurd (filled refl)
    from_list (n ∷ nodes) filled u s f =
        let all = n ∷ nodes in
        let (visited, e) = searched known_agents all rank (ranked known_agents all rank s f) in
        rw (test_of_IsDistinct (idents all) u, checks_of_sound known_agents (idents all) all s, e)
          refl
