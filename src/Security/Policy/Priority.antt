-- ===== src/Security/Policy/Priority.antt =====
-- security/policy.py: which of the matching rules decides.
use mathlib.Core.List.{Memᴰ}
use autonomous_enterprise_ai.Base.{
  ◌≡◌, refl, subst, inl, inr, ◌≤◌, true, false, some, List, [], ◌∷◌, arith, All, Bool-cases, none,
  if◌then◌else◌,
}
use autonomous_enterprise_ai.Security.Policy.{
  PolicyRule, priority, comes_before, least, highest_priority_rule,
}

-- The rule is at least as strict as the other.
abbrev pub IsStricter : PolicyRule → PolicyRule → Type 0
IsStricter a b = priority a.decision ≤ priority b.decision

comes_before-IsStricter : (a b : PolicyRule) → comes_before a b ≡ true → IsStricter a b
unfolding comes_before
comes_before-IsStricter a b h = ground arith

not_before-IsStricter : (a b : PolicyRule) → comes_before a b ≡ false → IsStricter b a
unfolding comes_before
not_before-IsStricter a b h = ground arith

picked-IsStricter :
    (rule best : PolicyRule)
    → IsStricter (if comes_before rule best then rule else best) best
      × IsStricter (if comes_before rule best then rule else best) rule
picked-IsStricter rule best = elim (Bool-cases (comes_before rule best)) [
  | inl t ↦ rw t (comes_before-IsStricter rule best t, omega arith)
  | inr f ↦ rw f (omega arith, not_before-IsStricter rule best f)
]

least_first : (best : PolicyRule) (rules : List PolicyRule) → IsStricter (least best rules) best
unfolding least
least_first best [] = omega arith
least_first best (rule ∷ rules) = omega (
  arith,
  least_first (if comes_before rule best then rule else best) rules,
  picked-IsStricter rule best,
)

least_rest :
    (best : PolicyRule) (rules : List PolicyRule)
    → All (λ rule. IsStricter (least best rules) rule) rules
unfolding least
least_rest best [] = tt
least_rest best (rule ∷ rules) = (
  omega (
    arith,
    least_first (if comes_before rule best then rule else best) rules,
    picked-IsStricter rule best,
  ),
  least_rest (if comes_before rule best then rule else best) rules,
)

least-Mem : (best : PolicyRule) (rules : List PolicyRule) → Memᴰ (least best rules) (best ∷ rules)
unfolding least
least-Mem best [] = Memᴰ.head refl
least-Mem best (rule ∷ rules) = elim (Bool-cases (comes_before rule best)) [
  | inl t ↦ rw t (Memᴰ.tail (least-Mem rule rules))
  | inr f ↦ rw f (elim (least-Mem best rules) [
    | Memᴰ.head e ↦ Memᴰ.head e
    | Memᴰ.tail m ↦ Memᴰ.tail (Memᴰ.tail m)
  ])
]

-- The rule that decides is one of the rules, and is at least as strict as each of them.
pub highest-IsStricter :
    (rules : List PolicyRule) {rule : PolicyRule}
    → highest_priority_rule rules ≡ some rule
    → Memᴰ rule rules × All (IsStricter rule) rules
unfolding highest_priority_rule
highest-IsStricter [] h = cc
highest-IsStricter (first ∷ rules) {rule} h =
    let same : least first rules ≡ rule = cc in
    subst (λ r. Memᴰ r (first ∷ rules) × All (IsStricter r) (first ∷ rules)) same
      (least-Mem first rules, (least_first first rules, least_rest first rules))

-- No rule decides only where there is none.
pub none_highest : (rules : List PolicyRule) → highest_priority_rule rules ≡ none → rules ≡ []
unfolding highest_priority_rule
none_highest [] h = refl
none_highest (first ∷ rules) h = cc
