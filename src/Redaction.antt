-- ===== src/Redaction.antt =====
-- security/redaction.py: which keys are sensitive, and the copy of a value with secrets replaced.
pub mod Clean
use Prim.Native.String.{◌++◌}
use text.Mathlib.Text.{find?}
use mathlib.Core.Option
use mathlib.Core.Bool.{not}
use autonomous_enterprise_ai.Base.{
  ℕ, String, Bool, true, false, ◌&&◌, ◌||◌, Option, none, some, List, [], ◌∷◌, map, any_of, ◌==◌,
  if◌then◌else◌,
}
use autonomous_enterprise_ai.Base.Text.{contains, is_blank}
use autonomous_enterprise_ai.Json.{
  Value, Items, Fields, null, bool, num, str, arr, obj, nil, item, end, field,
}
use autonomous_enterprise_ai.Platform.{Platform, SplitUrl}

abbrev pub redacted : String
redacted = "[REDACTED]"

abbrev sensitive_key_fragments : List String
sensitive_key_fragments =
    "api_key" ∷ "apikey" ∷ "auth_token" ∷ "authorization" ∷ "cookie" ∷ "password" ∷ "private_key"
    ∷ "secret" ∷ "session" ∷ "token" ∷ []

abbrev sensitive_exact_keys : List String
sensitive_exact_keys =
    "access_key" ∷ "access_key_id" ∷ "connection_string" ∷ "database_url" ∷ "dsn"
    ∷ "secret_access_key" ∷ []

abbrev safe_reference_keys : List String
safe_reference_keys =
    "configured_env_keys" ∷ "credential_profile" ∷ "credential_profile_id"
    ∷ "credential_profile_ids" ∷ "missing_env_keys" ∷ "secret_env_keys" ∷ "token_env_options" ∷ []

-- `fragment in text`
has_fragment : String → String → Bool
has_fragment text fragment = elim (find? text fragment) [ none ↦ false | some _ ↦ true ]

-- A function of two results, where neither raises.
abbrev pub both : {A B C : Type 0} → (A → B → C) → Option A → Option B → Option C
both f none y = none
both f (some a) none = none
both f (some a) (some b) = some (f a b)

module _ (platform : Platform) where
  unfoldable pub is_sensitive_key : String → Bool
  unfolding has_fragment contains
  is_sensitive_key key =
      let normalized = platform.replace "-" "_" (platform.lower key) in
      if contains normalized safe_reference_keys
      then false
      else if contains normalized sensitive_exact_keys
      then true
      else any_of (has_fragment normalized) sensitive_key_fragments

  redact_query : List (String × String) → List (String × String)
  redact_query = map (λ e. (e.0, if is_sensitive_key e.0 then redacted else e.1))

  -- `none` is the ValueError of `parsed.port`, here and in what follows.
  redacted_netloc : SplitUrl → Option String
  redacted_netloc parsed =
      if not (is_blank parsed.username) || not (is_blank parsed.password)
      then Option.map (λ port. redacted ++ ("@" ++ (parsed.hostname ++ port_text port))) parsed.port
      else some parsed.netloc
    where
      port_text : ℕ → String
      port_text ℕ.zero = ""
      port_text (ℕ.suc n) = ":" ++ platform.show (ℕ.suc n)

  unfoldable pub redact_uri : String → Option String
  unfolding redacted_netloc redact_query
  redact_uri uri =
      elim (platform.urlsplit (platform.replace (redacted ++ "@") "__aeai_redacted__@" uri)) [
        | none ↦ some uri
        | some parsed ↦
            Option.map
              (λ netloc.
                platform.urlunsplit parsed.scheme netloc parsed.path
                  (platform.urlencode (redact_query (platform.parse_qsl parsed.query)))
                  parsed.fragment)
              (redacted_netloc parsed)
      ]

  unfoldable pub redact_text : String → Option String
  redact_text value =
      if platform.url_fullmatch value
      then redact_uri value
      else Option.map
          (λ text.
            platform.key_value_sub (λ name sign. name ++ (sign ++ redacted))
              (platform.bearer_sub (λ word. word ++ (" " ++ redacted)) text))
          (platform.url_sub redact_uri value)

  -- `redact_text` on an optional text
  unfoldable pub redact_optional : Option String → Option (Option String)
  redact_optional none = some none
  redact_optional (some value) = Option.map some (redact_text value)

  unfoldable mutual
    pub redact_value : Value → Option Value
    redact_value null = some null
    redact_value (bool b) = some (bool b)
    redact_value (num n) = some (num n)
    redact_value (str s) = Option.map str (redact_text s)
    redact_value (arr xs) = Option.map arr (redact_items xs)
    redact_value (obj fs) = Option.map obj (redact_fields fs)

    pub redact_items : Items → Option Items
    redact_items nil = some nil
    redact_items (item v xs) = both item (redact_value v) (redact_items xs)

    pub redact_fields : Fields → Option Fields
    redact_fields end = some end
    redact_fields (field k v fs) =
        both (field k) (if is_sensitive_key k then some (str redacted) else redact_value v)
          (redact_fields fs)
