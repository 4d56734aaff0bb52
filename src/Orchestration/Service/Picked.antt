-- ===== src/Orchestration/Service/Picked.antt =====
-- orchestration/service.py: the nodes that a round picks from those of the repository.
use autonomous_enterprise_ai.Base.{
  ℕ, ◌-◌, ◌≤◌, ◌≡◌, refl, sym, ◌∙◌, ap, String, Bool, true, false, ◌&&◌, Option, none, some, List,
  [], ◌∷◌, arith, eq_iff, ◌==◌, if◌then◌else◌, Bool-cases, inl, inr, All, subst, ltb, ltb→lt, ◌||◌,
  none≢some, some_injective,
}
use mathlib.Core.List.{Memᴰ}
use autonomous_enterprise_ai.Base.Dict.{Dict, lookup, insert, lookup-insert}
use autonomous_enterprise_ai.Base.Text.{contains}
use autonomous_enterprise_ai.Json.{Value, Fields, null, bool, num, str, arr, obj, get}
use autonomous_enterprise_ai.Runs.Models.{GraphNodeStatus, GraphNodeRecord}
use autonomous_enterprise_ai.Runs.History.{node_named}
use autonomous_enterprise_ai.Orchestration.State.{is_completed, is_pending, is_failed}
use autonomous_enterprise_ai.Orchestration.Service.{nodes_by_id, pick, add_found, add_named}
use autonomous_enterprise_ai.Orchestration.Service.Resume.{
  is_startable, ready_among, add_ready, dependencies_completed,
}
use autonomous_enterprise_ai.Orchestration.Service.Work.{weight, are_distinct, idents}

named-absent :
    (k : String) (nodes : List GraphNodeRecord)
    → contains k (idents nodes) ≡ false
    → node_named k nodes ≡ none
unfolding node_named contains
named-absent k [] h = refl
named-absent k (n ∷ nodes) h = ground (arith, named-absent k nodes)

-- Where no two nodes share an identifier, the dictionary has under it the node that it names.
lookup-nodes_by_id :
    (k : String) (d : Dict GraphNodeRecord) (nodes : List GraphNodeRecord)
    → are_distinct (idents nodes) ≡ true
    → lookup k (nodes_by_id d nodes)
      ≡ elim (node_named k nodes) [ none ↦ lookup k d | some n ↦ some n ]
unfolding nodes_by_id node_named are_distinct
lookup-nodes_by_id k d [] h = refl
lookup-nodes_by_id k d (n ∷ nodes) h =
    let fresh : contains n.ident (idents nodes) ≡ false = ground (arith, h) in
    let rest : are_distinct (idents nodes) ≡ true = ground (arith, h) in
    let ih = lookup-nodes_by_id k (insert n.ident n d) nodes rest in
    let inserted = lookup-insert n.ident k n d in
    elim (Bool-cases (n.ident == k)) [
      | inl here ↦
          let absent : node_named k nodes ≡ none =
            subst (λ j. node_named j nodes ≡ none) ((eq_iff n.ident k).0 here)
              (named-absent n.ident nodes fresh) in
          ih ∙ rw (absent, here) (rw here at inserted)
      | inr other ↦
          ih
          ∙ rw other (
              ap (λ o. elim (node_named k nodes) [ none ↦ o | some m ↦ some m ])
                (rw other at inserted))
    ]

module _ (P : GraphNodeRecord → Type 0) where
  add_found-All :
      (o : Option GraphNodeRecord) (rest : Option (List GraphNodeRecord))
      (nodes : List GraphNodeRecord)
      → ((n : GraphNodeRecord) → o ≡ some n → P n)
      → ((ns : List GraphNodeRecord) → rest ≡ some ns → All P ns)
      → add_found o rest ≡ some nodes
      → All P nodes
  add_found-All none rest nodes h hs e = hs nodes e
  add_found-All (some n) none nodes h hs e = absurd (none≢some e)
  add_found-All (some n) (some ns) nodes h hs e =
      subst (All P) (some_injective e) (h n refl, hs ns refl)

  module _ (d : Dict GraphNodeRecord)
      (h : (k : String) (n : GraphNodeRecord) → lookup k d ≡ some n → P n) where
    add_named-All :
        (o : Option Value) (rest : Option (List GraphNodeRecord)) (nodes : List GraphNodeRecord)
        → ((ns : List GraphNodeRecord) → rest ≡ some ns → All P ns)
        → add_named d o rest ≡ some nodes
        → All P nodes
    add_named-All none rest nodes hs e = absurd (none≢some e)
    add_named-All (some (str k)) rest nodes hs e = add_found-All (lookup k d) rest nodes (h k) hs e
    add_named-All (some (arr xs)) rest nodes hs e = absurd (none≢some e)
    add_named-All (some (obj fs)) rest nodes hs e = absurd (none≢some e)
    add_named-All (some null) rest nodes hs e = hs nodes e
    add_named-All (some (bool b)) rest nodes hs e = hs nodes e
    add_named-All (some (num n)) rest nodes hs e = hs nodes e

    -- What the values of the dictionary satisfy, the picked nodes satisfy.
    pub pick-All :
        (plan : List Fields) (nodes : List GraphNodeRecord) → pick d plan ≡ some nodes → All P nodes
    unfolding pick
    pick-All [] nodes e = subst (All P) (some_injective e) tt
    pick-All (item ∷ plan) nodes e =
        add_named-All (get "id" item) (pick d plan) nodes (pick-All plan) e

  start_if-All :
      (n : GraphNodeRecord) (o : Option Bool) (rest : Option (List GraphNodeRecord))
      (ready : List GraphNodeRecord)
      → P n
      → ((ns : List GraphNodeRecord) → rest ≡ some ns → All P ns)
      → add_ready n o rest ≡ some ready
      → All P ready
  start_if-All n none rest ready p hs e = absurd (none≢some e)
  start_if-All n (some false) rest ready p hs e = hs ready e
  start_if-All n (some true) none ready p hs e = absurd (none≢some e)
  start_if-All n (some true) (some ns) ready p hs e =
      subst (All P) (some_injective e) (p, hs ns refl)

  -- The ready nodes are among the nodes and may be tried.
  pub ready-All :
      (max_attempts : ℕ) (statuses : Dict GraphNodeStatus) (nodes ready : List GraphNodeRecord)
      → ((n : GraphNodeRecord) → Memᴰ n nodes → is_startable max_attempts n ≡ true → P n)
      → ready_among max_attempts statuses nodes ≡ some ready
      → All P ready
  unfolding ready_among
  ready-All max_attempts statuses [] ready h e = subst (All P) (some_injective e) tt
  ready-All max_attempts statuses (n ∷ nodes) ready h e =
      let rest : (ns : List GraphNodeRecord)
          → ready_among max_attempts statuses nodes ≡ some ns
          → All P ns =
        λ ns e2.
          ready-All max_attempts statuses nodes ns (λ m in_nodes. h m (Memᴰ.tail in_nodes)) e2 in
      elim (Bool-cases (is_startable max_attempts n)) [
        | inl startable ↦
            start_if-All n (dependencies_completed statuses n.depends_on)
              (ready_among max_attempts statuses nodes) ready (h n (Memᴰ.head refl) startable)
              (λ ns e2. rest ns e2) (rw startable at e)
        | inr idle ↦ rest ready (rw idle at e)
      ]

-- A node that may be tried has an attempt left.
pub startable-weight :
    (max_attempts : ℕ) (n : GraphNodeRecord)
    → is_startable max_attempts n ≡ true
    → 1 ≤ weight max_attempts n
startable-weight max_attempts n h = go n.status h
  where
    go :
        (status : GraphNodeStatus)
        → ((is_pending status || is_failed status) && ltb n.retry_count max_attempts) ≡ true
        → 1 ≤ (if is_completed status then 0 else max_attempts - n.retry_count)
    go GraphNodeStatus.pending e = ground (arith, e, ltb→lt n.retry_count max_attempts)
    go GraphNodeStatus.failed e = ground (arith, e, ltb→lt n.retry_count max_attempts)
    go GraphNodeStatus.completed e = absurd (ground (arith, e))
    go _ e = absurd (ground (arith, e))

-- The nodes of the plan are the repository's.
pub pick_named :
    (k : String) (nodes : List GraphNodeRecord) (n : GraphNodeRecord)
    → are_distinct (idents nodes) ≡ true
    → lookup k (nodes_by_id [] nodes) ≡ some n
    → node_named k nodes ≡ some n
unfolding lookup
pick_named k nodes n h e = go (node_named k nodes) (sym (lookup-nodes_by_id k [] nodes h) ∙ e)
  where
    go :
        (o : Option GraphNodeRecord)
        → (elim o [ none ↦ none | some m ↦ some m ]) ≡ some n
        → o ≡ some n
    go none e = e
    go (some m) e = e
