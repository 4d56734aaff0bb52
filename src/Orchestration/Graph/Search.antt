-- ===== src/Orchestration/Graph/Search.antt =====
-- orchestration/graph.py: a search that ends has put every node behind its dependencies.
use mathlib.Core.List.{Memᴰ}
use autonomous_enterprise_ai.Base.{
  ℕ, zero, suc, String, ◌≡◌, refl, inl, inr, true, Option, some, List, [], ◌∷◌, All, arith,
  Bool-cases, Option-cases, eq_iff, ◌==◌, All_at, subst,
}
use autonomous_enterprise_ai.Base.Text.{contains}
use autonomous_enterprise_ai.Orchestration.Graph.{
  ExecutionNode, Walk, done, cycle, no_node, out_of_fuel, visit_each, mark, visit,
}

-- Inversion of the loop's first round.
visit_each-eq-done :
    (go : List String → String → Walk) (visited after : List String) (d : String) (ds : List String)
    → visit_each go visited (d ∷ ds) ≡ done after
    → (next : List String) × (go visited d ≡ done next) × (visit_each go next ds ≡ done after)
unfolding visit_each
visit_each-eq-done go visited after d ds h = first (go visited d) refl
  where
    first :
        (w : Walk)
        → go visited d ≡ w
        → (next : List String) × (go visited d ≡ done next) × (visit_each go next ds ≡ done after)
    first (done next) e = (next, e, ground arith)
    first cycle e = absurd (ground arith)
    first no_node e = absurd (ground arith)
    first out_of_fuel e = absurd (ground arith)

mark-eq-done :
    (k : String) (w : Walk) {after : List String}
    → mark k w ≡ done after
    → (v : List String) × (w ≡ done v) × (after ≡ k ∷ v)
unfolding mark
mark-eq-done k (done v) h = (v, refl, cc)
mark-eq-done k cycle h = cc
mark-eq-done k no_node h = cc
mark-eq-done k out_of_fuel h = cc

module _ (find : String → Option ExecutionNode) where
  -- The node's dependencies are all among the given ones.
  abbrev pub IsBehind : List String → String → Type 0
  IsBehind seen k =
      (node : ExecutionNode) × (find k ≡ some node)
      × All (λ d. contains d seen ≡ true) node.depends_on

  -- Latest first: each node stands behind all of its dependencies.
  abbrev pub IsOrdered : List String → Type 0
  IsOrdered [] = Unit
  IsOrdered (k ∷ rest) = IsBehind rest k × IsOrdered rest

  -- What a call or a loop that returned did to `visited`.
  pub record Extends (before after : List String) : Type 0 where
    pub ordered : IsOrdered after
    pub kept : (k : String) → contains k before ≡ true → contains k after ≡ true

  abbrev pub Visits : (List String → String → Walk) → Type 0
  Visits go =
      (visited after : List String) (k : String)
      → IsOrdered visited
      → go visited k ≡ done after
      → Extends visited after × (contains k after ≡ true)

  Extends-trans : {a b c : List String} → Extends a b → Extends b c → Extends a c
  Extends-trans x y = record { ordered = y.ordered; kept = λ k h. y.kept k (x.kept k h) }

  visited_node :
      (k : String) (visited below : List String) (node : ExecutionNode)
      → find k ≡ some node
      → Extends visited below
      → All (λ d. contains d below ≡ true) node.depends_on
      → Extends visited (k ∷ below) × (contains k (k ∷ below) ≡ true)
  unfolding contains
  visited_node k visited below node found grown all = (
    record {
      ordered = ((node, found, all), grown.ordered);
      kept = λ j h. ground (arith, grown.kept j h);
    },
    ground (arith, eq_iff k k),
  )

  pub each-Visits :
      (go : List String → String → Walk)
      → Visits go
      → (visited after : List String) (ds : List String) → IsOrdered visited
      → visit_each go visited ds ≡ done after
      → Extends visited after × All (λ d. contains d after ≡ true) ds
  unfolding visit_each
  each-Visits go v visited after [] o h =
      let same : visited ≡ after = cc in
      (record { ordered = rw (← same) o; kept = λ k p. rw (← same) p }, tt)
  each-Visits go v visited after (d ∷ ds) o h =
      let (next, e, h') = visit_each-eq-done go visited after d ds h in
      let (first, in_next) = v visited next d o e in
      let (rest, all) = each-Visits go v next after ds first.ordered h' in
      (Extends-trans first rest, (rest.kept d in_next, all))

  pub visit-Visits : (fuel : ℕ) (visiting : List String) → Visits (visit find fuel visiting)
  unfolding visit mark
  visit-Visits zero visiting visited after k o h = absurd (ground arith)
  visit-Visits (suc fuel) visiting visited after k o h = elim (Bool-cases (contains k visited)) [
    | inl seen ↦
        let same : visited ≡ after = ground arith in
        (record { ordered = rw (← same) o; kept = λ j p. rw (← same) p }, rw (← same) seen)
    | inr new ↦ elim (Bool-cases (contains k visiting)) [
      | inl open_call ↦ absurd (ground arith)
      | inr free ↦ elim (Option-cases (find k)) [
        | inl missing ↦ absurd (ground arith)
        | inr (node, found) ↦
            let (below, e, same) =
              mark-eq-done k (visit_each (visit find fuel (k ∷ visiting)) visited node.depends_on)
                {after = after} (ground arith) in
            let (grown, all) =
              each-Visits (visit find fuel (k ∷ visiting)) (visit-Visits fuel (k ∷ visiting))
                visited below node.depends_on o e in
            rw same (visited_node k visited below node found grown all)
      ]
    ]
  ]

  -- A path along dependencies, of one step or more.
  pub data DependsOn (k : String) : String → Type 0 where
    direct :
        {node : ExecutionNode} {d : String}
        → find k ≡ some node
        → Memᴰ d node.depends_on
        → DependsOn k d
    further :
        {node : ExecutionNode} {d e : String}
        → DependsOn k d
        → find d ≡ some node
        → Memᴰ e node.depends_on
        → DependsOn k e

  abbrev pub IsAcyclic : Type 0
  IsAcyclic = (k : String) → DependsOn k k → ⊥

  -- In an ordered list all that a node depends on stands among the later ones.
  dep_later :
      (k d : String) (rest : List String) (node : ExecutionNode)
      → IsBehind rest k
      → find k ≡ some node
      → Memᴰ d node.depends_on
      → contains d rest ≡ true
  dep_later k d rest node (other, e, all) f m =
      let same : other ≡ node = cc in
      All_at (λ x. contains x rest ≡ true) node.depends_on
        (subst (λ n. All (λ x. contains x rest ≡ true) n.depends_on) same all) m

  -- What stands in an ordered list depends only on what stands there too.
  deps_in :
      (k d : String) (vs : List String) (node : ExecutionNode)
      → IsOrdered vs
      → contains k vs ≡ true
      → find k ≡ some node
      → Memᴰ d node.depends_on
      → contains d vs ≡ true
  unfolding contains
  deps_in k d [] node o h f m = cc
  deps_in k d (v ∷ rest) node (behind, o) h f m = elim (Bool-cases (v == k)) [
    | inl same ↦
        let later =
          dep_later k d rest node (subst (IsBehind rest) ((eq_iff v k).0 same) behind) f m in
        ground arith
    | inr other ↦ ground (arith, deps_in k d rest node o (rw other at h) f m)
  ]

  path_in :
      (k d : String) (vs : List String)
      → IsOrdered vs
      → contains k vs ≡ true
      → DependsOn k d
      → contains d vs ≡ true
  path_in k d vs o h (direct f m) = deps_in k d vs _ o h f m
  path_in k d vs o h (further {d = e} p f m) = deps_in e d vs _ o (path_in k e vs o h p) f m

  -- The same for the rest behind a node: its paths lead there.
  path_later :
      (k d : String) (rest : List String)
      → IsBehind rest k
      → IsOrdered rest
      → DependsOn k d
      → contains d rest ≡ true
  path_later k d rest b o (direct f m) = dep_later k d rest _ b f m
  path_later k d rest b o (further {d = e} p f m) =
      deps_in e d rest _ o (path_later k e rest b o p) f m

  pub ordered_no_cycle :
      (k : String) (vs : List String) → IsOrdered vs → contains k vs ≡ true → DependsOn k k → ⊥
  unfolding contains
  ordered_no_cycle k [] o h p = cc
  ordered_no_cycle k (v ∷ rest) (behind, o) h p = elim (Bool-cases (v == k)) [
    | inl same ↦
        ordered_no_cycle k rest o
          (path_later k k rest (subst (IsBehind rest) ((eq_iff v k).0 same) behind) o p) p
    | inr other ↦ ordered_no_cycle k rest o (rw other at h) p
  ]
