-- ===== src/Config/Sections.antt =====
-- src/config/config.ts: the readers of the sections `queue`, `store`, `redaction`, `identity`,
-- `policy` and `upstream`. `url_protocol` is `new URL(text).protocol`, `none` where it throws.
use mcprelay.Base.{
  ℕ, suc, String, Bool, false, ◌||◌, Option, none, some, List, [], ◌∷◌, ◌++◌, ◌==◌, any, concat,
  if◌then◌else◌,
}
use mcprelay.Base.Result.{Result, err, ok, ◌>>=◌, try_map}
use mcprelay.Json.{Value, str, obj, arr, items, entries, get_value}
use mcprelay.Runtime.{Runtime}
use mcprelay.Identity.{IdentityKey, IdentitySettings}
use mcprelay.Config.{RabbitMqConfig, QueueChoice, sqlite, rabbitmq, QueueConfig, StoreConfig}
use mcprelay.Config.Readers.{
  at, got, require_integer, require_text, set_given, open_section, queue_keys, store_keys,
  rabbitmq_keys, sqlite_keys, redaction_keys, identity_keys, identity_key_entry_keys, upstream_keys,
  upstream_http_keys,
}
use mcprelay.Config.Reliability.{mapping, assign}

unfoldable pub apply_sqlite_path : Runtime → Value → String → String → Result String String
unfolding open_section set_given
apply_sqlite_path rt raw label target = open_section raw sqlite_keys label mapping >>= λ fs.
    set_given "path" fs target
      (λ v. require_text v (got rt label ".path: expected a non-empty string, got " v))

abbrev pub require_sqlite : Runtime → String → Value → Result String (Unit {0})
require_sqlite rt label (str s) =
    if s == "sqlite" then ok tt else err (got rt label ".provider: expected 'sqlite', got " (str s))
require_sqlite rt label value = err (got rt label ".provider: expected 'sqlite', got " value)

-- The message of requireInteger is not used here.
abbrev pub require_days : Runtime → String → Value → Result String ℕ
require_days rt label value = elim (require_integer rt value "" 0) [
  | err _ ↦ err (got rt label ".retention_days: expected a non-negative integer, got " value)
  | ok days ↦ ok days
]

unfoldable pub apply_sqlite_section :
    Runtime → Value → String → StoreConfig → Result String StoreConfig
unfolding open_section set_given apply_sqlite_path require_integer
apply_sqlite_section rt raw label target = open_section raw store_keys label mapping >>= λ fs.
    set_given "provider" fs tt (require_sqlite rt label) >>= λ _.
    set_given "sqlite" fs target.sqlite_path
      (λ v. apply_sqlite_path rt v (at label ".sqlite") target.sqlite_path)
    >>= λ path.
        set_given "retention_days" fs target.retention_days (require_days rt label) >>= λ days.
        ok (record { sqlite_path = path; retention_days = days })

abbrev pub is_amqp_url : (String → Option String) → String → Bool
is_amqp_url url_protocol url = elim (url_protocol url) [
  | none ↦ false
  | some protocol ↦ protocol == "amqp:" || protocol == "amqps:"
]

abbrev pub require_amqp_url : (String → Option String) → String → Value → Result String String
require_amqp_url url_protocol label (str s) =
    if is_amqp_url url_protocol s
    then ok s
    else err (at label ".url: expected an amqp:// or amqps:// URL")
require_amqp_url url_protocol label value =
    err (at label ".url: expected an amqp:// or amqps:// URL")

unfoldable pub apply_rabbitmq_section :
    (String → Option String) → Value → String → RabbitMqConfig → Result String RabbitMqConfig
unfolding open_section set_given
apply_rabbitmq_section url_protocol raw label target =
    open_section raw rabbitmq_keys label mapping >>= λ fs.
    set_given "url" fs target.url (require_amqp_url url_protocol label) >>= λ url.
    set_given "exchange" fs target.exchange
      (λ v. require_text v (at label ".exchange: expected a non-empty string"))
    >>= λ exchange.
        set_given "queue" fs target.queue
          (λ v. require_text v (at label ".queue: expected a non-empty string"))
        >>= λ queue. ok (record { url = url; exchange = exchange; queue = queue })

abbrev pub require_provider : Runtime → String → Value → Result String QueueChoice
require_provider rt label (str s) =
    if s == "sqlite"
    then ok sqlite
    else if s == "rabbitmq"
    then ok rabbitmq
    else err (got rt label ".provider: expected 'sqlite' or 'rabbitmq', got " (str s))
require_provider rt label value =
    err (got rt label ".provider: expected 'sqlite' or 'rabbitmq', got " value)

unfoldable pub apply_queue_section :
    Runtime → (String → Option String) → Value → String → QueueConfig → Result String QueueConfig
unfolding open_section set_given apply_sqlite_path apply_rabbitmq_section
apply_queue_section rt url_protocol raw label target =
    open_section raw queue_keys label mapping >>= λ fs.
    set_given "provider" fs target.provider (require_provider rt label) >>= λ provider.
    set_given "sqlite" fs target.sqlite_path
      (λ v. apply_sqlite_path rt v (at label ".sqlite") target.sqlite_path)
    >>= λ path.
        set_given "rabbitmq" fs target.broker
          (λ v. apply_rabbitmq_section url_protocol v (at label ".rabbitmq") target.broker)
        >>= λ broker. ok (record { provider = provider; sqlite_path = path; broker = broker })

-- One entry of the list of keys, with the keys before it.
unfoldable pub read_key : String → List IdentityKey → Value → Result String IdentityKey
unfolding open_section
read_key label parsed raw = open_section raw identity_key_entry_keys label mapping >>= λ fs.
    require_text (get_value "key" fs) (at label ".key: expected a non-empty string") >>= λ key.
    require_text (get_value "identity" fs) (at label ".identity: expected a non-empty string")
    >>= λ identity.
        if any (λ (k : IdentityKey). k.key == key) parsed
        then err (at label ".key: duplicate key value (value not echoed)")
        else ok (record { key = key; identity = identity })

-- keys.forEach, from the entry of the given index on.
unfoldable pub read_keys :
    Runtime → String → ℕ → List Value → List IdentityKey → Result String (List IdentityKey)
unfolding read_key
read_keys rt label index [] parsed = ok parsed
read_keys rt label index (raw ∷ raws) parsed =
    elim (read_key (concat (label ∷ ".keys[" ∷ rt.text_of_nat index ∷ "]" ∷ [])) parsed raw) [
      | err e ↦ err e
      | ok key ↦ read_keys rt label (suc index) raws (parsed ++ key ∷ [])
    ]

abbrev pub read_key_list : Runtime → String → Value → Result String (List IdentityKey)
read_key_list rt label (arr vs) = read_keys rt label 0 (items vs) []
read_key_list rt label value = err (at label ".keys: expected a list of { key, identity } entries")

unfoldable pub apply_identity :
    Runtime → Value → String → IdentitySettings → Result String IdentitySettings
unfolding open_section set_given read_keys
apply_identity rt raw label target = open_section raw identity_keys label mapping >>= λ fs.
    set_given "profile" fs target.profile
      (λ v. require_text v (got rt label ".profile: expected a non-empty string, got " v))
    >>= λ profile. set_given "keys" fs target.keys (read_key_list rt label) >>= λ keys.
        ok (record { profile = profile; keys = keys })

abbrev pub read_patterns : String → Value → Result String (List String)
read_patterns label (arr vs) =
    try_map (λ v. require_text v (at label ".patterns: expected an array of non-empty strings"))
      (items vs)
read_patterns label value = err (at label ".patterns: expected an array of non-empty strings")

unfoldable pub apply_redaction : Value → String → List String → Result String (List String)
unfolding open_section set_given try_map
apply_redaction raw label target = open_section raw redaction_keys label mapping >>= λ fs.
    set_given "patterns" fs target (read_patterns label)

-- `target[name] = value` of a text: the assignment to `__proto__` does nothing.
abbrev pub assign_header : String → String → List (String × String) → List (String × String)
assign_header name value target = if name == "__proto__" then target else assign name value target

unfoldable pub read_headers :
    Runtime
    → String
    → List (String × Value)
    → List (String × String)
    → Result String (List (String × String))
unfolding assign
read_headers rt label [] target = ok target
read_headers rt label ((name, str value) ∷ more) target =
    read_headers rt label more (assign_header name value target)
read_headers rt label ((name, value) ∷ more) target =
    err (got rt label (concat ("." ∷ name ∷ ": expected a string, got " ∷ [])) value)

abbrev pub apply_upstream_headers :
    Runtime → String → List (String × String) → Value → Result String (List (String × String))
apply_upstream_headers rt label target (obj fs) = read_headers rt label (entries fs) target
apply_upstream_headers rt label target value = err (at label ": expected a mapping of header names")

unfoldable pub apply_upstream :
    Runtime → Value → String → List (String × String) → Result String (List (String × String))
unfolding open_section set_given read_headers
apply_upstream rt raw label target = open_section raw upstream_keys label mapping >>= λ fs.
    set_given "http" fs target λ http.
      open_section http upstream_http_keys (at label ".http") mapping >>= λ inner.
      set_given "headers" inner target (apply_upstream_headers rt (at label ".http.headers") target)
