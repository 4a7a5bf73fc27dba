-- ===== src/Config/Reliability.antt =====
-- src/config/config.ts: the reader of the section `reliability`. Where the source changes its target
-- in place, a reader takes the target and gives the new one; after an error it is not used. Durations
-- are exact: the source's products are, as long as they stay below 2 ^ 53.
use Prim.Native.Char.{code}
use mcprelay.Base.{
  ℕ, ◌+◌, ◌-◌, ◌*◌, String, Bool, false, ◌&&◌, Option, none, some, List, [], ◌∷◌, ◌==◌, leb, concat,
  if◌then◌else◌,
}
use mcprelay.Base.Result.{Result, err, ok, ◌>>=◌}
use mcprelay.Json.{Value, str, obj, entries}
use mcprelay.Runtime.{Runtime}
use mcprelay.Config.{
  RetryOverride, ToolOverride, Effects, read, write, ReliabilityConfig, merge_retry,
}
use mcprelay.Config.Readers.{
  at, got, require_integer, require_boolean, set_given, read_given, open_section, reliability_keys,
  retry_keys, replay_keys, per_tool_keys,
}

abbrev pub mapping : String
mapping = ": expected a mapping"

abbrev pub require_backoff : Runtime → Value → String → Result String (Unit {0})
require_backoff rt (str s) label =
    if s == "exponential"
    then ok tt
    else err (got rt label ": expected 'exponential', got " (str s))
require_backoff rt value label = err (got rt label ": expected 'exponential', got " value)

abbrev pub require_effects : Runtime → Value → String → Result String Effects
require_effects rt (str s) label =
    if s == "read"
    then ok read
    else if s == "write"
    then ok write
    else err (got rt label ": expected 'read' or 'write', got " (str s))
require_effects rt value label = err (got rt label ": expected 'read' or 'write', got " value)

-- The retry fields that are present, on an empty target.
unfoldable pub parse_retry_fields : Runtime → Value → String → Result String RetryOverride
unfolding open_section read_given require_integer
parse_retry_fields rt raw label = open_section raw retry_keys label mapping >>= λ fs.
    read_given "max_attempts" fs (λ v. require_integer rt v (at label ".max_attempts") 1)
    >>= λ attempts.
        set_given "backoff" fs tt (λ v. require_backoff rt v (at label ".backoff")) >>= λ _.
        read_given "base_ms" fs (λ v. require_integer rt v (at label ".base_ms") 0) >>= λ base_ms.
        read_given "jitter" fs (λ v. require_boolean rt v (at label ".jitter")) >>= λ jitter.
        ok (record { max_attempts = attempts; base_ms = base_ms; jitter = jitter })

unfoldable pub parse_per_tool_override : Runtime → Value → String → Result String ToolOverride
unfolding open_section read_given require_integer parse_retry_fields
parse_per_tool_override rt raw label = open_section raw per_tool_keys label mapping >>= λ fs.
    read_given "timeout_ms" fs (λ v. require_integer rt v (at label ".timeout_ms") 1) >>= λ timeout.
    read_given "idempotent" fs (λ v. require_boolean rt v (at label ".idempotent"))
    >>= λ idempotent.
        read_given "effects" fs (λ v. require_effects rt v (at label ".effects")) >>= λ effects.
        read_given "retry" fs (λ v. parse_retry_fields rt v (at label ".retry")) >>= λ retry.
        read_given "capture_tool_errors" fs
          (λ v. require_boolean rt v (at label ".capture_tool_errors"))
        >>= λ capture. ok (record {
          timeout_ms = timeout;
          idempotent = idempotent;
          effects = effects;
          retry = retry;
          capture_tool_errors = capture;
        })

-- `target[key] = value`
unfoldable pub assign {ℓ} : {A : Type ℓ} → String → A → List (String × A) → List (String × A)
assign key value [] = (key, value) ∷ []
assign key value ((k, v) ∷ target) =
    if k == key then (k, value) ∷ target else (k, v) ∷ assign key value target

-- The loop over the entries, with the label of each.
unfoldable pub apply_overrides_of :
    Runtime
    → String
    → List (String × Value)
    → List (String × ToolOverride)
    → Result String (List (String × ToolOverride))
unfolding assign parse_per_tool_override
apply_overrides_of rt label [] target = ok target
apply_overrides_of rt label ((tool, raw) ∷ more) target =
    elim (parse_per_tool_override rt raw (concat (label ∷ "." ∷ tool ∷ []))) [
      | err e ↦ err e
      | ok override ↦ apply_overrides_of rt label more (assign tool override target)
    ]

unfoldable pub apply_per_tool :
    Runtime
    → Value
    → String
    → List (String × ToolOverride)
    → Result String (List (String × ToolOverride))
unfolding apply_overrides_of
apply_per_tool rt (obj fs) label target = apply_overrides_of rt label (entries fs) target
apply_per_tool rt raw label target = err (at label ": expected a mapping of tool names")

abbrev pub unit_factor : String → Option ℕ
unit_factor unit =
    if unit == "ms"
    then some 1
    else if unit == "s"
    then some 1000
    else if unit == "m"
    then some 60000
    else if unit == "h"
    then some 3600000
    else if unit == "d"
    then some 86400000
    else none

abbrev pub is_digit : ℕ → Bool
is_digit c = leb b'0' c && leb c b'9'

abbrev pub times : ℕ → Option ℕ → Option ℕ
times amount none = none
times amount (some factor) = some (amount * factor)

-- What follows the first digits of /^(\d+)(ms|s|m|h|d)$/, and the duration.
unfoldable pub read_duration : ℕ → String → Option ℕ
read_duration amount String.[] = none
read_duration amount (String.◌∷◌ c text) =
    let rest = read_duration (amount * 10 + (code c - b'0')) text in
    if is_digit (code c) then rest else times amount (unit_factor (String.◌∷◌ c text))

abbrev pub starts_with_digit : String → Bool
starts_with_digit String.[] = false
starts_with_digit (String.◌∷◌ c text) = is_digit (code c)

unfoldable pub parse_duration : Runtime → String → String → Result String ℕ
unfolding read_duration
parse_duration rt text label =
    elim (if starts_with_digit text then read_duration 0 text else none) [
      | none ↦ err (got rt label ": expected a duration like '30m' or '24h', got " (str text))
      | some ms ↦ ok ms
    ]

abbrev pub read_window : Runtime → String → Value → Result String ℕ
read_window rt label (str s) = parse_duration rt s (at label ".dedup_window")
read_window rt label value =
    err (got rt label ".dedup_window: expected a duration string, got " value)

unfoldable pub apply_replay : Runtime → Value → String → ℕ → Result String ℕ
unfolding open_section set_given parse_duration
apply_replay rt raw label window = open_section raw replay_keys label mapping >>= λ fs.
    set_given "dedup_window" fs window (read_window rt label)

unfoldable pub apply_reliability :
    Runtime → Value → String → ReliabilityConfig → Result String ReliabilityConfig
unfolding open_section set_given require_integer parse_retry_fields apply_replay apply_per_tool
apply_reliability rt raw path target =
    let label = at path ": reliability" in
    open_section raw reliability_keys label mapping >>= λ fs.
    set_given "timeout_ms" fs target.timeout_ms
      (λ v. require_integer rt v (at label ".timeout_ms") 1)
    >>= λ timeout.
        set_given "idempotent_default" fs target.idempotent_default
          (λ v. require_boolean rt v (at label ".idempotent_default"))
        >>= λ idempotent.
            read_given "retry" fs (λ v. parse_retry_fields rt v (at label ".retry")) >>= λ retry.
            set_given "replay" fs target.dedup_window_ms
              (λ v. apply_replay rt v (at label ".replay") target.dedup_window_ms)
            >>= λ window.
                set_given "per_tool" fs target.per_tool
                  (λ v. apply_per_tool rt v (at label ".per_tool") target.per_tool)
                >>= λ per_tool. ok (record {
                  timeout_ms = timeout;
                  retry = merge_retry target.retry retry;
                  dedup_window_ms = window;
                  idempotent_default = idempotent;
                  per_tool = per_tool;
                })
