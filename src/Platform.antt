-- ===== src/Platform.antt =====
-- What the program asks of Python's library and does not implement itself: the text methods with
-- Unicode tables, the regular expressions and URL functions of security/redaction.py, the text of
-- a number and of a time, and `int` on a text. Every module that needs them takes them as a
-- parameter.
use autonomous_enterprise_ai.Base.{ℕ, String, Bool, Option, List}
use autonomous_enterprise_ai.Json.{Value}

-- The parts of a parsed URL that `redact_uri` reads. Empty texts and port 0 stand for `None`,
-- which the code tests in the same way. A port of `none` is the ValueError of reading it: it is no
-- number, or out of range.
pub record SplitUrl : Type 0 where
  pub scheme : String
  pub netloc : String
  pub path : String
  pub query : String
  pub fragment : String
  pub username : String
  pub password : String
  pub hostname : String
  pub port : Option ℕ

pub record Platform : Type 0 where
  pub lower : String → String
  pub replace : (old new text : String) → String
  -- `none` is the ValueError
  pub urlsplit : String → Option SplitUrl
  pub parse_qsl : String → List (String × String)
  pub urlencode : List (String × String) → String
  pub urlunsplit : (scheme netloc path query fragment : String) → String
  pub url_fullmatch : String → Bool
  -- `PATTERN.sub(function, text)`, the function over the groups that the code reads. For URLs the
  -- function may raise (`none`), and then so does `sub`.
  pub url_sub : (String → Option String) → String → Option String
  pub bearer_sub : (String → String) → String → String
  pub key_value_sub : (String → String → String) → String → String
  pub show : ℕ → String
  -- `str` of a value that is no text and no number
  pub show_value : Value → String
  -- the clock between two readings
  pub tick : ℕ → ℕ
  pub isoformat : ℕ → String
  pub int_of_text : String → Option ℕ
  -- `fnmatch(name, pattern)`
  pub fnmatch : (name pattern : String) → Bool
  -- the trace of the active OpenTelemetry span
  pub current_trace_id : Option String
