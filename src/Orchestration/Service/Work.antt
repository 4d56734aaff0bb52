-- ===== src/Orchestration/Service/Work.antt =====
-- orchestration/service.py: the attempts that the nodes of a run have left.
use autonomous_enterprise_ai.Base.{
  All, Bool-cases, inl, inr, ℕ, ◌+◌, ◌-◌, ◌≤◌, ◌≡◌, refl, sym, ◌∙◌, ap, String, Bool, true, false,
  not, ◌&&◌, some, List, [], ◌∷◌, map, arith, eq_iff, ◌==◌, if◌then◌else◌,
}
use autonomous_enterprise_ai.Base.Text.{contains}
use autonomous_enterprise_ai.Runs.Models.{GraphNodeRecord}
use autonomous_enterprise_ai.Runs.History.{replace_or_append, node_named}
use autonomous_enterprise_ai.Orchestration.State.{is_completed}

-- The attempts that a node has left.
abbrev pub weight : (max_attempts : ℕ) → GraphNodeRecord → ℕ
weight max_attempts node = if is_completed node.status then 0 else max_attempts - node.retry_count

unfoldable pub work : (max_attempts : ℕ) → List GraphNodeRecord → ℕ
work max_attempts [] = 0
work max_attempts (node ∷ nodes) = weight max_attempts node + work max_attempts nodes

unfoldable pub are_distinct : List String → Bool
are_distinct [] = true
are_distinct (x ∷ xs) = not (contains x xs) && are_distinct xs

abbrev pub idents : List GraphNodeRecord → List String
idents nodes = map (λ n. n.ident) nodes

module _ (max_attempts : ℕ) (run_id : String) where
  -- The second list has the nodes of the first, all of the run, with no more attempts left.
  pub data Lighter : List GraphNodeRecord → List GraphNodeRecord → Type 0 where
    no_node : Lighter [] []
    lighter :
        {n m : GraphNodeRecord} {ns ms : List GraphNodeRecord}
        → m.ident ≡ n.ident
        → m.run_id ≡ run_id
        → weight max_attempts m ≤ weight max_attempts n
        → Lighter ns ms
        → Lighter (n ∷ ns) (m ∷ ms)

  pub Lighter-work :
      {ns ms : List GraphNodeRecord} → Lighter ns ms → work max_attempts ms ≤ work max_attempts ns
  unfolding work
  Lighter-work no_node = omega arith
  Lighter-work (lighter same run less rest) = let ih = Lighter-work rest in omega arith

  pub Lighter-idents : {ns ms : List GraphNodeRecord} → Lighter ns ms → idents ms ≡ idents ns
  Lighter-idents no_node = refl
  Lighter-idents (lighter same run less rest) = let ih = Lighter-idents rest in cc

  pub Lighter-self : {ns ms : List GraphNodeRecord} → Lighter ns ms → Lighter ms ms
  Lighter-self no_node = no_node
  Lighter-self (lighter same run less rest) = lighter refl run (omega arith) (Lighter-self rest)

  pub Lighter-of_All : (ns : List GraphNodeRecord) → All (λ n. n.run_id ≡ run_id) ns → Lighter ns ns
  Lighter-of_All [] h = no_node
  Lighter-of_All (n ∷ ns) (run, rest) = lighter refl run (omega arith) (Lighter-of_All ns rest)

  -- The node that a name finds.
  pub Lighter-named :
      {ns ms : List GraphNodeRecord} (k : String) (n : GraphNodeRecord)
      → Lighter ns ms
      → node_named k ms ≡ some n
      → (n.ident ≡ k) × (n.run_id ≡ run_id)
  unfolding node_named
  Lighter-named k n no_node e = absurd (ground (arith, e))
  Lighter-named k n (lighter {m} same run less rest) e = elim (Bool-cases (m.ident == k)) [
    | inl here ↦
        let found : m ≡ n = ground (arith, e) in
        (
          (ap (λ x. x.ident) (sym found)) ∙ (eq_iff m.ident k).0 here,
          ap (λ x. x.run_id) (sym found) ∙ run,
        )
    | inr other ↦ Lighter-named k n rest (rw other at e)
  ]

  -- A lighter node in place of the one of its name.
  pub Lighter-replace :
      {ns ms : List GraphNodeRecord} (x n : GraphNodeRecord)
      → Lighter ns ms
      → node_named x.ident ns ≡ some n
      → x.run_id ≡ run_id
      → weight max_attempts x ≤ weight max_attempts n
      → Lighter ns (replace_or_append x ms)
        × (work max_attempts (replace_or_append x ms) + weight max_attempts n
            ≤ work max_attempts ns + weight max_attempts x)
  unfolding node_named replace_or_append work
  Lighter-replace x n no_node e run_x less_x = absurd (ground (arith, e))
  Lighter-replace x n (lighter {n = k} {m} same run less rest) e run_x less_x =
      elim (Bool-cases (k.ident == x.ident)) [
        | inl here ↦
            let found : k ≡ n = ground (arith, e) in
            let weights : weight max_attempts k ≡ weight max_attempts n =
              ap (weight max_attempts) found in
            let below = Lighter-work rest in
            let now : m.ident == x.ident ≡ true = ap (λ i. i == x.ident) same ∙ here in
            rw now (
              lighter (sym ((eq_iff k.ident x.ident).0 here)) run_x (omega arith) rest,
              omega arith,
            )
        | inr other ↦
            let now : m.ident == x.ident ≡ false = ap (λ i. i == x.ident) same ∙ other in
            let (ih, below) = Lighter-replace x n rest (rw other at e) run_x less_x in
            rw now (lighter same run less ih, omega arith)
      ]
