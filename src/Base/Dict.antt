-- ===== src/Base/Dict.antt =====
-- Python's `dict` with text keys. Insertion order is kept, and a write to a present key keeps
-- its place, as Python does.
use Prim.Native.String.{String}
use mathlib.Core.Path.{◌≡◌, refl, sym, ap, ◌∙◌}
use mathlib.Core.Logic.{inl, inr}
use mathlib.Core.Option.{Option, none, some}
use mathlib.Core.List.{List, [], ◌∷◌, map, Memᴰ}
use native.Mathlib.Omega.{arith}
use text.Mathlib.Text.{◌==◌}
use text.Mathlib.TextEquality.{eq_iff}
use text.Mathlib.TextPositions.{eq_refl}
use autonomous_enterprise_ai.Base.Tests.{if◌then◌else◌, Bool-cases, none≢some}

abbrev pub Dict {ℓ} : Type ℓ → Type ℓ
Dict V = List (String × V)

module _ {ℓ} {V : Type ℓ} where
  -- d.get(k)
  unfoldable pub lookup : String → Dict V → Option V
  lookup k [] = none
  lookup k ((j, v) ∷ d) = if j == k then some v else lookup k d

  -- d[k] = v
  unfoldable pub insert : String → V → Dict V → Dict V
  insert k v [] = (k, v) ∷ []
  insert k v ((j, w) ∷ d) = if j == k then (j, v) ∷ d else (j, w) ∷ insert k v d

  -- d.pop(k, None)
  unfoldable pub pop : String → Dict V → Dict V
  pop k [] = []
  pop k ((j, w) ∷ d) = let rest = pop k d in if j == k then rest else (j, w) ∷ rest

  abbrev pub values : Dict V → List V
  values d = map (λ e. e.1) d

  abbrev pub keys : Dict V → List String
  keys d = map (λ e. e.0) d

  pub lookup-insert :
      (k j : String) (v : V) (d : Dict V)
      → lookup j (insert k v d) ≡ (if k == j then some v else lookup j d)
  unfolding lookup insert
  lookup-insert k j v [] = refl
  lookup-insert k j v ((i, w) ∷ d) =
      ground (arith, eq_iff k j, eq_iff i k, eq_iff i j, lookup-insert k j v d)

  pub lookup-insert-same : (k : String) (v : V) (d : Dict V) → lookup k (insert k v d) ≡ some v
  lookup-insert-same k v d =
      lookup-insert k k v d ∙ ap (λ b. if b then some v else lookup k d) (eq_refl k)

  -- A write to an absent key keeps the values.
  pub Memᴰ-values-insert :
      (k : String) (v : V) {x : V} (d : Dict V)
      → lookup k d ≡ none
      → Memᴰ x (values d)
      → Memᴰ x (values (insert k v d))
  unfolding lookup insert
  Memᴰ-values-insert k v [] e m = elim m [ ]
  Memᴰ-values-insert k v ((j, w) ∷ d) e m = elim (Bool-cases (j == k)) [
    | inl t ↦ absurd (none≢some (sym (rw t at e)))
    | inr f ↦ rw f (elim m [
      | Memᴰ.head h ↦ Memᴰ.head h
      | Memᴰ.tail n ↦ Memᴰ.tail (Memᴰ-values-insert k v d (rw f at e) n)
    ])
  ]

  pub lookup-pop :
      (k j : String) (d : Dict V) → lookup j (pop k d) ≡ (if k == j then none else lookup j d)
  unfolding lookup pop
  lookup-pop k j [] = ground arith
  lookup-pop k j ((i, w) ∷ d) = ground (arith, eq_iff k j, eq_iff i k, eq_iff i j, lookup-pop k j d)
