-- ===== src/Base/Text.antt =====
-- Texts: Python's `str.strip`, membership in a list of texts, and the emptiness test.
use Prim.Native.Nat.{ℕ}
use Prim.Native.Char.{code}
use Prim.Native.String.{String}
use mathlib.Core.Path.{◌≡◌, sym}
use mathlib.Core.Logic.{inl, inr}
use mathlib.Core.Bool.{Bool, true, false, ◌&&◌, ◌||◌}
use mathlib.Core.List.{List, [], ◌∷◌, Memᴰ}
use mathlib.Core.Option.{Option, none, some}
use native.Mathlib.Omega.{arith}
use text.Mathlib.Text.{◌==◌}
use text.Mathlib.TextEquality.{eq_iff}
use autonomous_enterprise_ai.Base.Tests.{leb, if◌then◌else◌, Bool-cases}

abbrev between : ℕ → ℕ → ℕ → Bool
between lo hi c = leb lo c && leb c hi

-- The code points that `str.isspace` accepts.
unfoldable pub is_space : ℕ → Bool
is_space c =
    between 9 13 c
    || between 28 32 c
    || between 133 133 c
    || between 160 160 c
    || between 5760 5760 c
    || between 8192 8202 c
    || between 8232 8233 c
    || between 8239 8239 c
    || between 8287 8287 c
    || between 12288 12288 c

abbrev pub is_blank : String → Bool
is_blank String.[] = true
is_blank (String.◌∷◌ c s) = false

lstrip : String → String
unfolding is_space
lstrip String.[] = String.[]
lstrip (String.◌∷◌ c s) = let rest = lstrip s in if is_space (code c) then rest else String.◌∷◌ c s

rstrip : String → String
unfolding is_space
rstrip String.[] = String.[]
rstrip (String.◌∷◌ c s) =
    let rest = rstrip s in
    if is_blank rest && is_space (code c) then String.[] else String.◌∷◌ c rest

-- s.strip()
unfoldable pub strip : String → String
unfolding lstrip rstrip
strip s = rstrip (lstrip s)

-- `s.strip() or None`
unfoldable pub strip_or_none : String → Option String
unfolding strip
strip_or_none s = let t = strip s in if is_blank t then none else some t

-- `s in xs`
unfoldable pub contains : String → List String → Bool
contains s [] = false
contains s (x ∷ xs) = x == s || contains s xs

pub Memᴰ_of_contains : (s : String) (xs : List String) → contains s xs ≡ true → Memᴰ s xs
unfolding contains
Memᴰ_of_contains s [] h = cc
Memᴰ_of_contains s (x ∷ xs) h = elim (Bool-cases (x == s)) [
  | inl e ↦ Memᴰ.head (sym ((eq_iff x s).0 e))
  | inr e ↦ Memᴰ.tail (Memᴰ_of_contains s xs (rw e at h))
]

pub contains_of_Memᴰ : (s : String) (xs : List String) → Memᴰ s xs → contains s xs ≡ true
unfolding contains
contains_of_Memᴰ s [] m = elim m [ ]
contains_of_Memᴰ s (x ∷ xs) (Memᴰ.head e) = ground (arith, eq_iff x s)
contains_of_Memᴰ s (x ∷ xs) (Memᴰ.tail m) = ground (arith, contains_of_Memᴰ s xs m)
