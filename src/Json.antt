-- ===== src/Json.antt =====
-- The values that payloads, metadata and checkpoints hold (`dict[str, Any]`): the JSON data of
-- runs/models.py. Numbers are the natural numbers; a `dict` is the list of its entries in order.
use mathlib.Core.Option
use autonomous_enterprise_ai.Base.{
  ℕ, String, Bool, true, false, not, ltb, Option, none, some, List, [], ◌∷◌, ◌≡◌, refl, arith,
  eq_iff, ◌==◌, if◌then◌else◌,
}

mutual
  pub data Value : Type 0 where
    null : Value
    bool : Bool → Value
    num : ℕ → Value
    str : String → Value
    arr : Items → Value
    obj : Fields → Value

  pub data Items : Type 0 where
    nil : Items
    item : Value → Items → Items

  pub data Fields : Type 0 where
    end : Fields
    field : String → Value → Fields → Fields

-- The keys of a `dict`.
unfoldable pub field_names : Fields → List String
field_names end = []
field_names (field k v fs) = k ∷ field_names fs

-- d.get(k)
unfoldable pub get : String → Fields → Option Value
get k end = none
get k (field j v fs) = if j == k then some v else get k fs

-- d[k] = v
unfoldable pub put : String → Value → Fields → Fields
put k v end = field k v end
put k v (field j w fs) = if j == k then field j v fs else field j w (put k v fs)

-- `xs.append(v)` on a list
unfoldable pub push : Items → Value → Items
push nil v = item v nil
push (item w xs) v = item w (push xs v)

-- `None` as the JSON null
abbrev pub or_null : Option String → Value
or_null none = null
or_null (some s) = str s

-- A list of texts as a JSON array.
abbrev pub texts : List String → Items
texts [] = nil
texts (s ∷ ss) = item (str s) (texts ss)

-- The texts of an array that holds nothing else.
unfoldable pub text_list : Items → Option (List String)
text_list nil = some []
text_list (item (str s) xs) = Option.map (λ ss. s ∷ ss) (text_list xs)
text_list (item v xs) = none

-- The dictionaries of an array that holds nothing else.
unfoldable pub dict_list : Items → Option (List Fields)
dict_list nil = some []
dict_list (item (obj fs) xs) = Option.map (λ ds. fs ∷ ds) (dict_list xs)
dict_list (item v xs) = none

-- Python's `bool(value)`.
unfoldable pub is_truthy : Value → Bool
is_truthy null = false
is_truthy (bool b) = b
is_truthy (num n) = ltb 0 n
is_truthy (str s) = not (s == "")
is_truthy (arr nil) = false
is_truthy (arr (item v xs)) = true
is_truthy (obj end) = false
is_truthy (obj (field k v fs)) = true

-- d.setdefault(k, v)
unfoldable pub set_default : String → Value → Fields → Fields
set_default k v fs = elim (get k fs) [ none ↦ put k v fs | some old ↦ fs ]

-- The entries under other keys.
unfoldable pub without : String → Fields → Fields
without k end = end
without k (field j v fs) = let rest = without k fs in if j == k then rest else field j v rest

-- d.update(other)
unfoldable pub update : Fields → Fields → Fields
update fs end = fs
update fs (field k v other) = update (put k v fs) other

-- A read after a write, at the same key and at another.
pub get-put :
    (k j : String) (v : Value) (fs : Fields)
    → get j (put k v fs) ≡ (if k == j then some v else get j fs)
unfolding get put
get-put k j v end = refl
get-put k j v (field i w fs) = ground (arith, eq_iff k j, eq_iff i k, eq_iff i j, get-put k j v fs)
