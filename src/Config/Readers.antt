-- ===== src/Config/Readers.antt =====
-- src/config/config.ts: what the readers of the sections share: requireInteger, requireBoolean,
-- assertKnownKeys, the keys of each section, and fields that may be missing. An error is the message
-- of the ConfigError.
pub mod Ensured
use mcprelay.Base.{
  ℕ, ◌/◌, ◌%◌, ◌^◌, String, Bool, not, ◌&&◌, Option, none, some, List, [], ◌∷◌, ◌==◌, nat_eq, leb,
  any, find, concat, if◌then◌else◌,
}
use mcprelay.Base.Int.{pos}
use mcprelay.Base.Result.{Result, err, ok, ◌>>=◌}
use mcprelay.Json.{dyadic, Value, str, bool, num, obj, Fields, keys, get}
use mcprelay.Runtime.{Runtime}

-- label + text, as the messages begin
abbrev pub at : String → String → String
at label text = concat (label ∷ text ∷ [])

-- label + text + JSON.stringify(value)
abbrev pub got : Runtime → String → String → Value → String
got rt label text value = concat (label ∷ text ∷ rt.stringify value ∷ [])

unfoldable pub require_integer : Runtime → Value → String → ℕ → Result String ℕ
require_integer rt (num (dyadic (pos m) k)) label minimum =
    if nat_eq (m % 2 ^ k) 0 && leb minimum (m / 2 ^ k)
    then ok (m / 2 ^ k)
    else err (
        got rt label (concat (": expected integer >= " ∷ rt.text_of_nat minimum ∷ ", got " ∷ []))
          (num (dyadic (pos m) k)))
require_integer rt value label minimum = err (
    got rt label (concat (": expected integer >= " ∷ rt.text_of_nat minimum ∷ ", got " ∷ [])) value)

abbrev pub require_boolean : Runtime → Value → String → Result String Bool
require_boolean rt (bool b) label = ok b
require_boolean rt value label = err (got rt label ": expected boolean, got " value)

-- A text that is not empty, or the given message.
abbrev pub require_text : Value → String → Result String String
require_text (str s) message = if s == "" then err message else ok s
require_text value message = err message

-- The first key that a mapping may not have is named.
unfoldable pub assert_known_keys : Fields → (String → Bool) → String → Result String (Unit {0})
assert_known_keys fs allowed label = elim (find (λ key. not (allowed key)) (keys fs)) [
  | some key ↦ err (concat (label ∷ "." ∷ key ∷ ": not a recognized setting" ∷ []))
  | none ↦ ok tt
]

-- `if ('key' in raw) target = read(raw.key)`
unfoldable pub set_given {ℓ} :
    {A : Type ℓ} → String → Fields → A → (Value → Result String A) → Result String A
set_given key fs target reader = elim (get key fs) [ none ↦ ok target | some raw ↦ reader raw ]

-- A field that may be missing.
unfoldable pub read_given {ℓ} :
    {A : Type ℓ} → String → Fields → (Value → Result String A) → Result String (Option A)
read_given key fs reader = elim (get key fs) [
  | none ↦ ok none
  | some raw ↦ elim (reader raw) [ err e ↦ err e | ok a ↦ ok (some a) ]
]

-- `if (!isRecord(raw)) throw`, and the keys that the mapping may have.
unfoldable pub open_section : Value → (String → Bool) → String → String → Result String Fields
unfolding assert_known_keys
open_section (obj fs) allowed label text = assert_known_keys fs allowed label >>= λ _. ok fs
open_section raw allowed label text = err (at label text)

abbrev pub member : List String → String → Bool
member names key = any (λ name. name == key) names

abbrev pub reliability_keys : String → Bool
reliability_keys =
    member ("timeout_ms" ∷ "idempotent_default" ∷ "retry" ∷ "replay" ∷ "per_tool" ∷ [])

abbrev pub retry_keys : String → Bool
retry_keys = member ("max_attempts" ∷ "backoff" ∷ "base_ms" ∷ "jitter" ∷ [])

abbrev pub replay_keys : String → Bool
replay_keys = member ("dedup_window" ∷ [])

abbrev pub per_tool_keys : String → Bool
per_tool_keys =
    member ("timeout_ms" ∷ "idempotent" ∷ "effects" ∷ "retry" ∷ "capture_tool_errors" ∷ [])

abbrev pub queue_keys : String → Bool
queue_keys = member ("provider" ∷ "sqlite" ∷ "rabbitmq" ∷ [])

abbrev pub store_keys : String → Bool
store_keys = member ("provider" ∷ "sqlite" ∷ "retention_days" ∷ [])

abbrev pub rabbitmq_keys : String → Bool
rabbitmq_keys = member ("url" ∷ "exchange" ∷ "queue" ∷ [])

abbrev pub sqlite_keys : String → Bool
sqlite_keys = member ("path" ∷ [])

abbrev pub redaction_keys : String → Bool
redaction_keys = member ("patterns" ∷ [])

abbrev pub identity_keys : String → Bool
identity_keys = member ("profile" ∷ "keys" ∷ [])

abbrev pub identity_key_entry_keys : String → Bool
identity_key_entry_keys = member ("key" ∷ "identity" ∷ [])

abbrev pub upstream_keys : String → Bool
upstream_keys = member ("http" ∷ [])

abbrev pub upstream_http_keys : String → Bool
upstream_http_keys = member ("headers" ∷ [])
