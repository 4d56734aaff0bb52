-- ===== src/Redaction/Clean.antt =====
-- No secret survives `redact_value` under a sensitive key, at any depth.
use mathlib.Core.Option
use autonomous_enterprise_ai.Base.{
  String, ◌≡◌, refl, sym, subst, Bool, true, ℕ, inl, inr, Bool-cases, Option, none, some, none≢some,
  some_injective, if◌then◌else◌, arith,
}
use autonomous_enterprise_ai.Json.{
  Value, Items, Fields, null, bool, num, str, arr, obj, nil, item, end, field,
}
use autonomous_enterprise_ai.Platform.{Platform}
use autonomous_enterprise_ai.Redaction.{
  redacted, both, redact_text, is_sensitive_key, redact_value, redact_items, redact_fields,
}

-- Under each sensitive key of a nested value stands the mark, and nothing else.
mutual
  pub data IsClean (platform : Platform) : Value → Type 0 where
    null_clean : IsClean platform null
    bool_clean : {b : Bool} → IsClean platform (bool b)
    num_clean : {n : ℕ} → IsClean platform (num n)
    str_clean : {s : String} → IsClean platform (str s)
    arr_clean : {xs : Items} → AreClean platform xs → IsClean platform (arr xs)
    obj_clean : {fs : Fields} → HasCleanFields platform fs → IsClean platform (obj fs)

  pub data AreClean (platform : Platform) : Items → Type 0 where
    nil_clean : AreClean platform nil
    item_clean :
        {v : Value} {xs : Items}
        → IsClean platform v
        → AreClean platform xs
        → AreClean platform (item v xs)

  pub data HasCleanFields (platform : Platform) : Fields → Type 0 where
    end_clean : HasCleanFields platform end
    field_clean :
        {k : String} {v : Value} {fs : Fields}
        → (is_sensitive_key platform k ≡ true → v ≡ str redacted)
        → IsClean platform v
        → HasCleanFields platform fs
        → HasCleanFields platform (field k v fs)

map-eq-some :
    {A B : Type 0} (f : A → B) (o : Option A) (b : B)
    → Option.map f o ≡ some b
    → (a : A) × (o ≡ some a) × (f a ≡ b)
map-eq-some f none b e = absurd (none≢some e)
map-eq-some f (some a) b e = (a, refl, some_injective e)

both-eq-some :
    {A B C : Type 0} (f : A → B → C) (x : Option A) (y : Option B) (c : C)
    → both f x y ≡ some c
    → (a : A) × (b : B) × (x ≡ some a) × (y ≡ some b) × (f a b ≡ c)
both-eq-some f none y c e = absurd (none≢some e)
both-eq-some f (some a) none c e = absurd (none≢some e)
both-eq-some f (some a) (some b) c e = (a, b, refl, refl, some_injective e)

module _ (platform : Platform) where
  mutual
    unfolding redact_value redact_items redact_fields

    value-IsClean : (v w : Value) → redact_value platform v ≡ some w → IsClean platform w
    value-IsClean null w e = subst (IsClean platform) (some_injective e) null_clean
    value-IsClean (bool b) w e = subst (IsClean platform) (some_injective e) bool_clean
    value-IsClean (num n) w e = subst (IsClean platform) (some_injective e) num_clean
    value-IsClean (str s) w e =
        let (t, _, same) = map-eq-some str (redact_text platform s) w e in
        subst (IsClean platform) same str_clean
    value-IsClean (arr xs) w e =
        let (ys, ok, same) = map-eq-some arr (redact_items platform xs) w e in
        subst (IsClean platform) same (arr_clean (items_clean xs ys ok))
    value-IsClean (obj fs) w e =
        let (gs, ok, same) = map-eq-some obj (redact_fields platform fs) w e in
        subst (IsClean platform) same (obj_clean (fields_clean fs gs ok))

    items_clean : (xs ys : Items) → redact_items platform xs ≡ some ys → AreClean platform ys
    items_clean nil ys e = subst (AreClean platform) (some_injective e) nil_clean
    items_clean (item v xs) ys e =
        let (w, zs, ok, oks, same) =
          both-eq-some item (redact_value platform v) (redact_items platform xs) ys e in
        subst (AreClean platform) same (item_clean (value-IsClean v w ok) (items_clean xs zs oks))

    fields_clean :
        (fs gs : Fields) → redact_fields platform fs ≡ some gs → HasCleanFields platform gs
    fields_clean end gs e = subst (HasCleanFields platform) (some_injective e) end_clean
    fields_clean (field k v fs) gs e =
        let (w, hs, ok, oks, same) =
          both-eq-some (field k)
            (if is_sensitive_key platform k then some (str redacted) else redact_value platform v)
            (redact_fields platform fs) gs e in
        let rest = fields_clean fs hs oks in
        let clean = value-IsClean v in
        subst (HasCleanFields platform) same (elim (Bool-cases (is_sensitive_key platform k)) [
          | inl s ↦
              let mark : str redacted ≡ w = some_injective (rw s at ok) in
              field_clean (λ _. sym mark) (subst (IsClean platform) mark str_clean) rest
          | inr s ↦ field_clean (λ h. absurd (ground (arith, h, s))) (clean w (rw s at ok)) rest
        ])

pub redact_fields-HasCleanFields :
    (platform : Platform) (fs gs : Fields)
    → redact_fields platform fs ≡ some gs
    → HasCleanFields platform gs
redact_fields-HasCleanFields platform fs gs e = fields_clean platform fs gs e

-- The copy that `redact_value` returns, where it returns one, holds the mark, and nothing else,
-- under every sensitive key, at every depth of dictionaries and lists.
pub redact_value-IsClean :
    (platform : Platform) (v w : Value) → redact_value platform v ≡ some w → IsClean platform w
redact_value-IsClean platform v w e = value-IsClean platform v w e
