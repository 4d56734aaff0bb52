-- ===== src/Orchestration/Service/Ensures.antt =====
-- orchestration/service.py: what an action that returns makes of the graph nodes.
use autonomous_enterprise_ai.Base.{
  ◌≡◌, refl, sym, ◌∙◌, ap, subst, true, false, Bool, Option, none, some, List, Result, return,
  ◌>>=◌, >>=-eq-return, if◌then◌else◌, arith,
}
use autonomous_enterprise_ai.Base.Dict.{Dict}
use autonomous_enterprise_ai.Runs.Errors.{Error}
use autonomous_enterprise_ai.Runs.Models.{GraphNodeRecord}
use autonomous_enterprise_ai.Runs.Repository.{Repository, Repo, found_or_raise}
use autonomous_enterprise_ai.Orchestration.Service.Keeps.{KeepsNodes}

abbrev pub GraphNodes : Type 0
GraphNodes = Dict (List GraphNodeRecord)

-- From nodes with `P`, an action that returns an answer leaves nodes with `Q` of the answer.
pub record Ensures {A : Type 0} (P : GraphNodes → Type 0) (m : Repo A) (Q : A → GraphNodes → Type 0)
    : Type 0 where
  pub at :
      (r : Repository) (a : A) (s : Repository)
      → P r.graph_nodes
      → m r ≡ (return a, s)
      → Q a s.graph_nodes

module _ {A : Type 0} {P : GraphNodes → Type 0} where
  pub Ensures-pure :
      (a : A) (Q : A → GraphNodes → Type 0)
      → ((g : GraphNodes) → P g → Q a g)
      → Ensures P (λ r. (return a, r)) Q
  Ensures-pure a Q h = record {
    at = λ r b s p e.
        let same : a ≡ b = ground (arith, e) in
        let state : r ≡ s = ground (arith, e) in
        subst (λ x. Q x s.graph_nodes) same
          (subst (λ x. Q a x.graph_nodes) state (h r.graph_nodes p));
  }

  pub Ensures-if :
      {Q : A → GraphNodes → Type 0} (b : Bool) (m n : Repo A)
      → Ensures P m Q
      → Ensures P n Q
      → Ensures P (if b then m else n) Q
  Ensures-if true m n x y = x
  Ensures-if false m n x y = y

  -- The same, with what the test says.
  pub Ensures-test :
      {Q : A → GraphNodes → Type 0} (b : Bool) (m n : Repo A)
      → (b ≡ true → Ensures P m Q)
      → (b ≡ false → Ensures P n Q)
      → Ensures P (if b then m else n) Q
  Ensures-test true m n x y = x refl
  Ensures-test false m n x y = y refl

  pub Ensures-weaken :
      {P' : GraphNodes → Type 0} {Q Q' : A → GraphNodes → Type 0} (m : Repo A)
      → ((g : GraphNodes) → P' g → P g)
      → ((a : A) (g : GraphNodes) → Q a g → Q' a g)
      → Ensures P m Q
      → Ensures P' m Q'
  Ensures-weaken m f g x = record {
    at = λ r a s p e. g a s.graph_nodes (x.at r a s (f r.graph_nodes p) e);
  }

module _ {A B : Type 0} {P : GraphNodes → Type 0} where
  pub Ensures-bind :
      {R : A → GraphNodes → Type 0} {Q : B → GraphNodes → Type 0} (m : Repo A) (f : A → Repo B)
      → Ensures P m R
      → ((a : A) → Ensures (R a) (f a) Q)
      → Ensures P (m >>= f) Q
  Ensures-bind m f x y = record {
    at = λ r b s p e.
        let (a, t, e1, e2) = >>=-eq-return m f r e in (y a).at t b s (x.at r a t p e1) e2;
  }

  -- What keeps the nodes keeps every property of them.
  pub Ensures-then :
      {Q : B → GraphNodes → Type 0} (m : Repo A) (f : A → Repo B)
      → KeepsNodes m
      → ((a : A) → Ensures P (f a) Q)
      → Ensures P (m >>= f) Q
  Ensures-then m f x y = record {
    at = λ r b s p e.
        let (a, t, e1, e2) = >>=-eq-return m f r e in
        let kept : t.graph_nodes ≡ r.graph_nodes =
          ap (λ (z : Result Error A × Repository). z.1.graph_nodes) (sym e1) ∙ x.at r in
        (y a).at t b s (subst P (sym kept) p) e2;
  }

  -- An optional value that is there goes on.
  pub Ensures-found :
      {Q : B → GraphNodes → Type 0} (e : Error) (o : Option A) (f : A → Repo B)
      → ((a : A) → o ≡ some a → Ensures P (f a) Q)
      → Ensures P (found_or_raise e o >>= f) Q
  Ensures-found e none f y = record { at = λ r b s p h. absurd (ground (arith, h)) }
  Ensures-found e (some a) f y = record { at = (y a refl).at }

pub Ensures-keeps :
    {A : Type 0} {P : GraphNodes → Type 0} (m : Repo A) → KeepsNodes m → Ensures P m (λ a. P)
Ensures-keeps {P} m keeps = record {
  at = λ r a s p e.
      let kept : s.graph_nodes ≡ r.graph_nodes =
        ap (λ (z : Result Error _ × Repository). z.1.graph_nodes) (sym e) ∙ keeps.at r in
      subst P (sym kept) p;
}

-- What holds of the answer alone may be assumed.
pub Ensures-given :
    {A X : Type 0} {P : GraphNodes → Type 0} {Q : A → GraphNodes → Type 0} (m : Repo A)
    → (X → Ensures P m Q)
    → Ensures (λ g. P g × X) m Q
Ensures-given m h = record { at = λ r a s p e. (h p.1).at r a s p.0 e }

pub Ensures-final :
    {A : Type 0} {P : GraphNodes → Type 0} {Q : A → GraphNodes → Type 0} (e : Error) (o : Option A)
    → ((a : A) → o ≡ some a → (g : GraphNodes) → P g → Q a g)
    → Ensures P (found_or_raise e o) Q
Ensures-final e none h = record { at = λ r b s p g. absurd (ground (arith, g)) }
Ensures-final {Q} e (some a) h = record { at = (Ensures-pure a Q (λ g p. h a refl g p)).at }
