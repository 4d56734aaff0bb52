-- ===== src/Orchestration/Graph/Nodes.antt =====
-- orchestration/graph.py: the dictionary of the nodes by their identifiers.
use mathlib.Core.List.{Memᴰ}
use autonomous_enterprise_ai.Base.{
  suc, ◌+◌, ◌≤◌, String, ◌≡◌, ◌≢◌, ◌⊎◌, refl, inl, inr, true, none, some, List, [], ◌∷◌, All,
  length, arith, Bool-cases, eq_iff, ◌==◌,
}
use autonomous_enterprise_ai.Base.Dict.{Dict, lookup, insert, lookup-insert, keys}
use autonomous_enterprise_ai.Base.Text.{contains}
use autonomous_enterprise_ai.Orchestration.Graph.{ExecutionNode, idents, nodes_by_id}

-- A read of the dictionary of the nodes finds a node of the list, under its identifier.
pub find_by_id :
    (d : Dict ExecutionNode) (nodes : List ExecutionNode) (k : String) (n : ExecutionNode)
    → lookup k (nodes_by_id d nodes) ≡ some n
    → (Memᴰ n nodes × (n.ident ≡ k)) ⊎ (lookup k d ≡ some n)
unfolding nodes_by_id
find_by_id d [] k n h = inr h
find_by_id d (x ∷ nodes) k n h = elim (find_by_id (insert x.ident x d) nodes k n h) [
  | inl (m, e) ↦ inl (Memᴰ.tail m, e)
  | inr old ↦ elim (Bool-cases (x.ident == k)) [
    | inl same ↦
        let e : some x ≡ some n = ground (arith, lookup-insert x.ident k x d) in
        inl (Memᴰ.head (cc), cc ((eq_iff x.ident k).0 same))
    | inr other ↦ inr (ground (arith, lookup-insert x.ident k x d))
  ]
]

pub present_by_id :
    (d : Dict ExecutionNode) (nodes : List ExecutionNode) (k : String)
    → (contains k (idents nodes) ≡ true) ⊎ (lookup k d ≢ none)
    → lookup k (nodes_by_id d nodes) ≢ none
unfolding nodes_by_id contains
present_by_id d [] k (inl h) = λ e. cc
present_by_id d [] k (inr h) = h
present_by_id d (x ∷ nodes) k h = present_by_id (insert x.ident x d) nodes k (elim h [
  | inr old ↦ inr (ground (arith, lookup-insert x.ident k x d))
  | inl m ↦ elim (Bool-cases (x.ident == k)) [
    | inl same ↦ inr (ground (arith, lookup-insert x.ident k x d))
    | inr other ↦ inl (rw other at m)
  ]
])

length-insert-le :
    (k : String) (n : ExecutionNode) (d : Dict ExecutionNode)
    → length (keys (insert k n d)) ≤ suc (length (keys d))
unfolding insert
length-insert-le k n [] = omega arith
length-insert-le k n ((j, v) ∷ d) = ground (arith, length-insert-le k n d)

pub length-by_id-le :
    (d : Dict ExecutionNode) (nodes : List ExecutionNode)
    → length (keys (nodes_by_id d nodes)) ≤ length (keys d) + length nodes
unfolding nodes_by_id
length-by_id-le d [] = omega arith
length-by_id-le d (x ∷ nodes) =
    omega (arith, length-by_id-le (insert x.ident x d) nodes, length-insert-le x.ident x d)

pub contains_key :
    (d : Dict ExecutionNode) (k : String) → lookup k d ≢ none → contains k (keys d) ≡ true
unfolding lookup contains
contains_key [] k h = absurd (h refl)
contains_key ((j, v) ∷ d) k h = ground (arith, contains_key d k)

key_present : (d : Dict ExecutionNode) (k : String) → contains k (keys d) ≡ true → lookup k d ≢ none
unfolding lookup contains
key_present [] k h = λ e. cc
key_present ((j, v) ∷ d) k h = ground (arith, key_present d k)

pub keys_present :
    (d : Dict ExecutionNode) (ks : List String)
    → ((k : String) → Memᴰ k ks → contains k (keys d) ≡ true)
    → All (λ k. lookup k d ≢ none) ks
keys_present d [] h = tt
keys_present d (k ∷ ks) h =
    (key_present d k (h k (Memᴰ.head refl)), keys_present d ks (λ j m. h j (Memᴰ.tail m)))
