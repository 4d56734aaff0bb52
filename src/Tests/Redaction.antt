-- ===== src/Tests/Redaction.antt =====
-- security/redaction.py at a nested payload.
use autonomous_enterprise_ai.Base.{refl}
use autonomous_enterprise_ai.Json.{Value, obj, field, end, str, arr, item, nil}
use autonomous_enterprise_ai.Redaction.{
  redacted, redact_value, redact_items, redact_fields, redact_text, is_sensitive_key,
}
use autonomous_enterprise_ai.Redaction.Clean.{IsClean, redact_value-IsClean}
use autonomous_enterprise_ai.Tests.Samples.{plain}

abbrev nested : Value
nested = obj (
    field "config"
      (arr (item (obj (field "password" (str "hunter2") (field "host" (str "db") end))) nil)) end)

abbrev hidden : Value
hidden = obj (
    field "config"
      (arr (item (obj (field "password" (str redacted) (field "host" (str "db") end))) nil)) end)

redact_value-IsClean_example : IsClean plain hidden
unfolding redact_value redact_items redact_fields redact_text is_sensitive_key
redact_value-IsClean_example = redact_value-IsClean plain nested hidden refl
