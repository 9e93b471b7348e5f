-- ===== src/Observability.antt =====
-- app/observability: the redaction of what looks sensitive, and the payload of a log line.
pub mod Laws
pub mod Formatter
use content_approval.Common.{
  String, Bool, true, false, ◌==◌, Option, none, some, List, [], ◌∷◌, ◌++◌, any, map, if◌then◌else◌,
}
use text.Mathlib.Text.{find?}

abbrev pub redacted : String
redacted = "[REDACTED]"

abbrev pub sensitive_markers : List String
sensitive_markers =
    "password" ∷ "secret" ∷ "token" ∷ "authorization" ∷ "api_key" ∷ "apikey" ∷ "email"
    ∷ "storage_key" ∷ "storagekey" ∷ "signed_url" ∷ "signedurl" ∷ "provider_url" ∷ "providerurl"
    ∷ "credential" ∷ []

abbrev pub is_some {ℓ} : {A : Type ℓ} → Option A → Bool
is_some none = false
is_some (some _) = true

-- `marker in lowered`
abbrev pub contains : String → String → Bool
contains lowered marker = is_some (find? lowered marker)

-- A log record as the formatter reads it.
pub record Line : Type 0 where
  pub timestamp : String
  pub level : String
  pub logger : String
  pub message : String
  pub context : List (String × String)
  pub exc_info : Option String

-- `payload[key] = value` and `payload.update(other)`: a key keeps its place, a new one goes last.
unfoldable pub set_item : String → String → List (String × String) → List (String × String)
set_item k v [] = (k, v) ∷ []
set_item k v ((j, w) ∷ rest) =
    let later = set_item k v rest in if j == k then (j, v) ∷ rest else (j, w) ∷ later

unfoldable pub update : List (String × String) → List (String × String) → List (String × String)
unfolding set_item
update payload [] = payload
update payload ((k, v) ∷ rest) = update (set_item k v payload) rest

abbrev pub set_optional : String → Option String → List (String × String) → List (String × String)
set_optional k none payload = payload
set_optional k (some v) payload = set_item k v payload

-- `lower` is `str.lower`.
module _ (lower : String → String) where
  unfoldable pub looks_sensitive : String → Bool
  looks_sensitive key = any (contains (lower key)) sensitive_markers

  abbrev pub redact_value : String → String → String
  redact_value k v = if looks_sensitive k then redacted else v

  unfoldable pub redact_mapping : List (String × String) → List (String × String)
  redact_mapping [] = []
  redact_mapping ((k, v) ∷ rest) = (k, redact_value k v) ∷ redact_mapping rest

  -- The dictionary that `JSONFormatter.format` dumps; `request_id` is the contextvar's value.
  unfoldable pub format : Option String → Line → List (String × String)
  unfolding redact_mapping update
  format request_id line =
      let payload =
        ("timestamp", line.timestamp)
        ∷ ("level", line.level)
        ∷ ("logger", line.logger)
        ∷ ("message", line.message)
        ∷ [] in
      let identified = set_optional "request_id" request_id payload in
      let told = update identified (redact_mapping line.context) in
      set_optional "exc_info" line.exc_info told
