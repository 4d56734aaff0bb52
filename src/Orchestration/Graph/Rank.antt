-- ===== src/Orchestration/Graph/Rank.antt =====
-- orchestration/graph.py: over dependencies that are all present and have no cycle, each call of
-- `visit` returns: it meets no cycle, no missing node, and has fuel to the end.
use autonomous_enterprise_ai.Base.{
  ℕ, zero, suc, ◌≤◌, ◌<◌, String, ◌≡◌, ◌≢◌, refl, inl, inr, true, false, Option, none, some, List,
  [], ◌∷◌, length, ◌⊎◌, All, All-map, arith, Bool-cases, Option-cases, eq_iff, ◌==◌, if◌then◌else◌,
}
use autonomous_enterprise_ai.Base.Text.{contains}
use autonomous_enterprise_ai.Orchestration.Graph.{
  ExecutionNode, Walk, done, cycle, visit_each, mark, visit,
}

-- How many of the identifiers are not among `visiting`.
pub outside : List String → List String → ℕ
outside [] visiting = 0
outside (x ∷ ids) visiting =
    let rest = outside ids visiting in if contains x visiting then rest else suc rest

-- It is at most their number.
pub outside-le : (ids visiting : List String) → outside ids visiting ≤ length ids
unfolding outside
outside-le [] visiting = omega arith
outside-le (x ∷ ids) visiting = ground (arith, outside-le ids visiting)

outside_mono :
    (ids visiting : List String) (k : String) → outside ids (k ∷ visiting) ≤ outside ids visiting
unfolding outside contains
outside_mono [] visiting k = omega arith
outside_mono (x ∷ ids) visiting k = ground (arith, outside_mono ids visiting k)

outside_falls :
    (ids visiting : List String) (k : String)
    → contains k ids ≡ true
    → contains k visiting ≡ false
    → outside ids (k ∷ visiting) < outside ids visiting
unfolding outside contains
outside_falls [] visiting k h f = cc
outside_falls (x ∷ ids) visiting k h f =
    ground
      (arith, eq_iff x k, eq_iff k x, outside_mono ids visiting k, outside_falls ids visiting k)

abbrev pub Returns : Walk → Type 0
Returns w = (visited : List String) × (w ≡ done visited)

pub each-Returns :
    (go : List String → String → Walk) (visited ds : List String)
    → All (λ d. (v : List String) → Returns (go v d)) ds
    → Returns (visit_each go visited ds)
unfolding visit_each
each-Returns go visited [] h = (visited, refl)
each-Returns go visited (d ∷ ds) h =
    let (next, e) = h.0 visited in rw (e, visit_each) (each-Returns go next ds h.1)

module _ (find : String → Option ExecutionNode) (ids : List String) (rank : String → ℕ) where
  -- Every node is listed and has its dependencies, which have a smaller rank.
  pub record IsRanked : Type 0 where
    pub listed : (k : String) (node : ExecutionNode) → find k ≡ some node → contains k ids ≡ true
    pub closed :
        (k : String) (node : ExecutionNode)
        → find k ≡ some node
        → All (λ d. (find d ≢ none) × (rank d < rank k)) node.depends_on

  not_visiting :
      (k : String) (visiting : List String)
      → All (λ v. rank k < rank v) visiting
      → contains k visiting ≡ false
  unfolding contains
  not_visiting k [] h = refl
  not_visiting k (v ∷ visiting) h = elim (Bool-cases (v == k)) [
    | inl same ↦
        let e : v ≡ k = (eq_iff v k).0 same in
        let below : rank v < rank v = rw (← e) at h.0 in absurd (omega arith)
    | inr other ↦ rw other (not_visiting k visiting h.1)
  ]

  pub visit-Returns :
      IsRanked
      → (fuel : ℕ) (visiting visited : List String) (k : String) → find k ≢ none
      → outside ids visiting < fuel
      → All (λ v. rank k < rank v) visiting
      → Returns (visit find fuel visiting visited k)
  unfolding visit mark
  visit-Returns ranked zero visiting visited k present m below = absurd (omega arith)
  visit-Returns ranked (suc fuel) visiting visited k present m below =
      elim (Option-cases (find k)) [
        | inl missing ↦ absurd (present missing)
        | inr (node, found) ↦
            let fresh = not_visiting k visiting below in
            let falls = outside_falls ids visiting k (ranked.listed k node found) fresh in
            let (after, e) = each-Returns (visit find fuel (k ∷ visiting)) visited node.depends_on (
              All-map _ _ node.depends_on
                (λ d h v.
                  visit-Returns ranked fuel (k ∷ visiting) v d h.0 (omega arith)
                    (h.1, All-map _ _ visiting (λ u p. omega (arith, h.1)) below))
                (ranked.closed k node found)) in
            elim (Bool-cases (contains k visited)) [
              | inl seen ↦ (visited, ground arith)
              | inr new ↦ (k ∷ after, ground arith)
            ]
      ]

-- A walk that ends by its code: it returns, or meets a cycle.
abbrev pub Ends : Walk → Type 0
Ends w = Returns w ⊎ (w ≡ cycle)

pub each-Ends :
    (go : List String → String → Walk) (visited ds : List String)
    → All (λ d. (v : List String) → Ends (go v d)) ds
    → Ends (visit_each go visited ds)
unfolding visit_each
each-Ends go visited [] h = inl (visited, refl)
each-Ends go visited (d ∷ ds) h = elim (h.0 visited) [
  | inl (next, e) ↦ rw (e, visit_each) (each-Ends go next ds h.1)
  | inr e ↦ inr (rw (e, visit_each))
]

mark-Ends : (k : String) (w : Walk) → Ends w → Ends (mark k w)
unfolding mark
mark-Ends k w (inl (v, e)) = inl (k ∷ v, rw e)
mark-Ends k w (inr e) = inr (rw e)

-- With the dependencies present, the search ends with cycles too: each nested call marks one more
-- node as visiting.
pub visit-Ends :
    (find : String → Option ExecutionNode) (ids : List String)
    → ((k : String) (node : ExecutionNode) → find k ≡ some node → contains k ids ≡ true)
    → ((k : String) (node : ExecutionNode)
        → find k ≡ some node
        → All (λ d. find d ≢ none) node.depends_on)
    → (fuel : ℕ) (visiting visited : List String) (k : String) → find k ≢ none
    → outside ids visiting < fuel
    → Ends (visit find fuel visiting visited k)
unfolding visit
visit-Ends find ids listed closed zero visiting visited k present m = absurd (omega arith)
visit-Ends find ids listed closed (suc fuel) visiting visited k present m =
    elim (Bool-cases (contains k visited)) [
      | inl seen ↦ inl (visited, rw seen)
      | inr new ↦ elim (Bool-cases (contains k visiting)) [
        | inl open_call ↦ inr (rw (new, open_call))
        | inr free ↦ elim (Option-cases (find k)) [
          | inl missing ↦ absurd (present missing)
          | inr (node, found) ↦
              let falls = outside_falls ids visiting k (listed k node found) free in
              rw (new, free, found)
                (mark-Ends k _ (
                  each-Ends (visit find fuel (k ∷ visiting)) visited node.depends_on (
                    All-map _ _ node.depends_on
                      (λ d h v.
                        visit-Ends find ids listed closed fuel (k ∷ visiting) v d h (omega arith))
                      (closed k node found))))
        ]
      ]
    ]
