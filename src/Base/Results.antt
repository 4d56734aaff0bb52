-- ===== src/Base/Results.antt =====
-- Python's exceptions as values: a pure function that may raise, and an action on a state that
-- may raise. What an action wrote before it raised stays written.
use mathlib.Core.Path.{◌≡◌, refl, ap}
use mathlib.Core.Bool.{Bool, true, false}
use mathlib.Core.Logic.{◌⊎◌, inl, inr}

pub data Result {ℓ κ} (E : Type ℓ) (A : Type κ) : Type (ℓ ⊔ κ) where
  return : A → Result E A
  raise : E → Result E A

abbrev pub Action {ℓ κ μ} : Type ℓ → Type κ → Type μ → Type (ℓ ⊔ κ ⊔ μ)
Action S E A = S → Result E A × S

module _ {ℓ κ μ} {S : Type ℓ} {E : Type κ} {A : Type μ} where
  abbrev pub pure : A → Action S E A
  pure a s = (return a, s)

  abbrev pub throw : E → Action S E A
  throw e s = (raise e, s)

module _ {ℓ κ μ ν} {S : Type ℓ} {E : Type κ} {A : Type μ} {B : Type ν} where
  abbrev pub and_then : Result E A → (A → Action S E B) → Action S E B
  and_then (return a) f = f a
  and_then (raise e) f = throw e

  infixl 5 ◌>>=◌ ◌>>◌
  abbrev pub ◌>>=◌ : Action S E A → (A → Action S E B) → Action S E B
  m >>= f = λ s. let (r, t) = m s in and_then r f t

  abbrev pub ◌>>◌ : Action S E A → Action S E B → Action S E B
  m >> n = m >>= λ _. n

pub Result-cases {ℓ κ} :
    {E : Type ℓ} {A : Type κ} (x : Result E A)
    → ((a : A) × (x ≡ return a)) ⊎ ((e : E) × (x ≡ raise e))
Result-cases (return a) = inl (a, refl)
Result-cases (raise e) = inr (e, refl)

-- `if test: raise e`
abbrev pub raise_if {ℓ κ} : {S : Type ℓ} {E : Type κ} → Bool → E → Action S E (Unit {0})
raise_if true e = throw e
raise_if false e = pure tt

module _ {ℓ κ μ ν} {S : Type ℓ} {E : Type κ} {A : Type μ} {B : Type ν} where
  and_then-eq-return :
      (x : Result E A) (f : A → Action S E B) (t : S) {b : B} {u : S}
      → and_then x f t ≡ (return b, u)
      → (a : A) × (x ≡ return a) × (f a t ≡ (return b, u))
  and_then-eq-return (return a) f t h = (a, refl, h)
  and_then-eq-return (raise e) f t h = cc

  -- Inversion of a block that returned.
  pub >>=-eq-return :
      (m : Action S E A) (f : A → Action S E B) (s : S) {b : B} {u : S}
      → (m >>= f) s ≡ (return b, u)
      → (a : A) × (t : S) × (m s ≡ (return a, t)) × (f a t ≡ (return b, u))
  >>=-eq-return m f s h =
      let (a, e, g) = and_then-eq-return (m s).0 f (m s).1 h in
      (a, (m s).1, ap (λ x. (x, (m s).1)) e, g)
