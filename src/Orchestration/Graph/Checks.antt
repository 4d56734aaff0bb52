-- ===== src/Orchestration/Graph/Checks.antt =====
-- orchestration/graph.py: what the checks before the search say, and the dictionary of the nodes.
use autonomous_enterprise_ai.Base.{
  ◌≤◌, String, ◌≡◌, refl, inl, inr, true, false, none, List, [], ◌∷◌, All, length, arith,
  Bool-cases, Option-cases, ltb,
}
use autonomous_enterprise_ai.Base.Text.{contains, strip, is_blank}
use autonomous_enterprise_ai.Orchestration.Graph.{
  ExecutionNode, valid_risk_levels, valid_artifact_types, distinct, has_other, node_error,
  nodes_error,
}

-- No identifier stands twice.
abbrev pub IsDistinct : List String → Type 0
IsDistinct [] = Unit
IsDistinct (x ∷ xs) = (contains x xs ≡ false) × IsDistinct xs

distinct-le : (xs : List String) → length (distinct xs) ≤ length xs
unfolding distinct
distinct-le [] = omega arith
distinct-le (x ∷ xs) = ground (arith, distinct-le xs)

-- `len(ids) == len(set(ids))`: then no identifier stands twice, and the other way round.
pub IsDistinct-of_test :
    (xs : List String) → ltb (length (distinct xs)) (length xs) ≡ false → IsDistinct xs
unfolding distinct
IsDistinct-of_test [] h = tt
IsDistinct-of_test (x ∷ xs) h = elim (Bool-cases (contains x xs)) [
  | inl twice ↦ absurd (ground (arith, distinct-le xs))
  | inr once ↦ (once, IsDistinct-of_test xs (ground arith))
]

distinct_of_IsDistinct : (xs : List String) → IsDistinct xs → length (distinct xs) ≡ length xs
unfolding distinct
distinct_of_IsDistinct [] h = refl
distinct_of_IsDistinct (x ∷ xs) h = ground (arith, distinct_of_IsDistinct xs h.1)

pub test_of_IsDistinct :
    (xs : List String) → IsDistinct xs → ltb (length (distinct xs)) (length xs) ≡ false
test_of_IsDistinct xs h = ground (arith, distinct_of_IsDistinct xs h)

-- Every element of the first list is in the second.
abbrev pub AllIn : List String → List String → Type 0
AllIn ys = All (λ x. contains x ys ≡ true)

AllIn-of_test : (xs ys : List String) → has_other xs ys ≡ false → AllIn ys xs
unfolding has_other
AllIn-of_test [] ys h = tt
AllIn-of_test (x ∷ xs) ys h = (ground arith, AllIn-of_test xs ys (ground arith))

test_of_AllIn : (xs ys : List String) → AllIn ys xs → has_other xs ys ≡ false
unfolding has_other
test_of_AllIn [] ys h = refl
test_of_AllIn (x ∷ xs) ys h = ground (arith, test_of_AllIn xs ys h.1)

-- What `validate` asks of one node.
pub record IsSound (known_agents ids : List String) (node : ExecutionNode) : Type 0 where
  pub named : is_blank (strip node.ident) ≡ false
  pub has_task : is_blank (strip node.task) ≡ false
  pub known : contains node.agent known_agents ≡ true
  pub risk_valid : contains node.risk valid_risk_levels ≡ true
  pub artifacts_valid : AllIn valid_artifact_types node.expected_artifacts
  pub deps_present : AllIn ids node.depends_on

module _ (known_agents ids : List String) where
  IsSound-of_check :
      (node : ExecutionNode)
      → node_error known_agents ids node ≡ none
      → IsSound known_agents ids node
  unfolding node_error
  IsSound-of_check node h = record {
    named = ground arith;
    has_task = ground arith;
    known = ground arith;
    risk_valid = ground arith;
    artifacts_valid = AllIn-of_test node.expected_artifacts valid_artifact_types (ground arith);
    deps_present = AllIn-of_test node.depends_on ids (ground arith);
  }

  check_of_IsSound :
      (node : ExecutionNode)
      → IsSound known_agents ids node
      → node_error known_agents ids node ≡ none
  unfolding node_error
  check_of_IsSound node h = ground (
    arith,
    test_of_AllIn node.expected_artifacts valid_artifact_types h.artifacts_valid,
    test_of_AllIn node.depends_on ids h.deps_present,
  )

  pub IsSound-of_checks :
      (nodes : List ExecutionNode)
      → nodes_error known_agents ids nodes ≡ none
      → All (IsSound known_agents ids) nodes
  unfolding nodes_error
  IsSound-of_checks [] h = tt
  IsSound-of_checks (n ∷ nodes) h = elim (Option-cases (node_error known_agents ids n)) [
    | inl e ↦ (IsSound-of_check n e, IsSound-of_checks nodes (rw (e, nodes_error) at h))
    | inr (x, e) ↦ absurd (ground arith)
  ]

  pub checks_of_sound :
      (nodes : List ExecutionNode)
      → All (IsSound known_agents ids) nodes
      → nodes_error known_agents ids nodes ≡ none
  unfolding nodes_error
  checks_of_sound [] h = refl
  checks_of_sound (n ∷ nodes) h =
      rw (check_of_IsSound n h.0, nodes_error) (checks_of_sound nodes h.1)
