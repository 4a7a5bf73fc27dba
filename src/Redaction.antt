-- ===== src/Redaction.antt =====
-- src/redaction/redact.ts: masking of secrets, and the canonical text whose hash names a call's
-- arguments. The values are trees, as parsing gives them: no object is met twice, so the `seen` set
-- never holds the value that is looked up. An assignment to `__proto__` adds no property.
pub mod Patterns
pub mod Places
pub mod Settled
pub mod Laws
mod Tests
use Prim.Native.Char.{code}
use Prim.Native.String
use mcprelay.Base.{
  ℕ, String, Bool, true, false, ◌||◌, ◌&&◌, List, [], ◌∷◌, ◌==◌, nat_eq, any, codes, units, concat,
  lex_leb, map, if◌then◌else◌,
}
use mcprelay.Base.Sort.{sort_by}
use mcprelay.Json.{
  Value, undefined, null, str, bool, num, obj, arr, Fields, no_prop, prop, Items, no_item, item,
}
use mcprelay.Runtime.{Runtime}

abbrev pub default_redaction_patterns : List String
default_redaction_patterns =
    "api_key" ∷ "token" ∷ "password" ∷ "authorization" ∷ "secret" ∷ "credential" ∷ []

abbrev pub redacted : String
redacted = "[REDACTED]"

abbrev pub is_prefix : List ℕ → List ℕ → Bool
is_prefix [] us = true
is_prefix (p ∷ ps) [] = false
is_prefix (p ∷ ps) (u ∷ us) = nat_eq p u && is_prefix ps us

-- text.includes(part)
unfoldable pub includes : List ℕ → List ℕ → Bool
includes [] part = is_prefix part []
includes (u ∷ us) part = is_prefix part (u ∷ us) || includes us part

unfoldable pub matches_pattern : Runtime → List String → String → Bool
unfolding includes
matches_pattern rt patterns key =
    any (λ pattern. includes (units (rt.to_lower key)) (units (rt.to_lower pattern))) patterns

-- One round of the loop over the entries.
abbrev pub put_redacted : Bool → String → Value → Fields → Fields
put_redacted matches key value rest =
    if key == "__proto__" then rest else prop key (if matches then str redacted else value) rest

unfoldable mutual
  pub redact_value : Runtime → List String → Value → Value
  redact_value rt patterns (obj fs) = obj (redact_fields rt patterns fs)
  redact_value rt patterns (arr vs) = arr (redact_items rt patterns vs)
  redact_value rt patterns value = value

  pub redact_fields : Runtime → List String → Fields → Fields
  redact_fields rt patterns no_prop = no_prop
  redact_fields rt patterns (prop key value fs) =
      put_redacted (matches_pattern rt patterns key) key (redact_value rt patterns value)
        (redact_fields rt patterns fs)

  pub redact_items : Runtime → List String → Items → Items
  redact_items rt patterns no_item = no_item
  redact_items rt patterns (item value vs) =
      item (redact_value rt patterns value) (redact_items rt patterns vs)

-- The characters that escapeRegExp escapes: .*+?^${}()|[]\
abbrev is_special : ℕ → Bool
is_special c = any (nat_eq c) (codes ".*+?^${}()|[]\\")

-- An escaped pattern in which `_` and `-` are optional and stand for one another.
unfoldable pub pattern_to_regex_source : String → String
pattern_to_regex_source String.[] = ""
pattern_to_regex_source (String.◌∷◌ c s) =
    let rest = pattern_to_regex_source s in
    if is_special (code c)
    then String.◌++◌ "\\" (String.◌∷◌ c rest)
    else if nat_eq (code c) b'_' || nat_eq (code c) b'-'
    then String.◌++◌ "[_-]?" rest
    else String.◌∷◌ c rest

-- The three replacements of one pattern.
unfoldable pub redact_pattern : Runtime → String → String → String
unfolding pattern_to_regex_source
redact_pattern rt pattern message =
    let source = pattern_to_regex_source pattern in
    rt.replace_all (concat ("([\"']" ∷ source ∷ "[\"']\\s*:\\s*)([^\"',}\\s]+)" ∷ []))
      "$1\"[REDACTED]\""
      (rt.replace_all (concat ("([\"']" ∷ source ∷ "[\"']\\s*:\\s*)([\"'])[^\"']*\\2" ∷ []))
        "$1$2[REDACTED]$2"
        (rt.replace_all (concat ("(" ∷ source ∷ ")\\s*[:=]\\s*\\S+" ∷ [])) "$1=[REDACTED]" message))

unfoldable pub redact_message : Runtime → String → List String → String
unfolding redact_pattern
redact_message rt message [] = message
redact_message rt message (pattern ∷ patterns) =
    redact_message rt (redact_pattern rt pattern message) patterns

unfoldable mutual
  pub redact_deep : Runtime → List String → Value → Value
  redact_deep rt patterns (str s) = str (redact_message rt s patterns)
  redact_deep rt patterns (obj fs) = obj (redact_deep_fields rt patterns fs)
  redact_deep rt patterns (arr vs) = arr (redact_deep_items rt patterns vs)
  redact_deep rt patterns value = value

  pub redact_deep_fields : Runtime → List String → Fields → Fields
  redact_deep_fields rt patterns no_prop = no_prop
  redact_deep_fields rt patterns (prop key value fs) =
      put_redacted (matches_pattern rt patterns key) key (redact_deep rt patterns value)
        (redact_deep_fields rt patterns fs)

  pub redact_deep_items : Runtime → List String → Items → Items
  redact_deep_items rt patterns no_item = no_item
  redact_deep_items rt patterns (item value vs) =
      item (redact_deep rt patterns value) (redact_deep_items rt patterns vs)

-- The parts, with commas between them.
abbrev pub join_commas : List String → String
join_commas [] = ""
join_commas (s ∷ []) = s
join_commas (s ∷ t ∷ ss) = concat (s ∷ "," ∷ join_commas (t ∷ ss) ∷ [])

-- The order of `sort()`: by UTF-16 code units.
abbrev pub key_leb : String × String → String × String → Bool
key_leb a b = lex_leb (units a.0) (units b.0)

abbrev entry_text : Runtime → String × String → String
entry_text rt (key, text) = concat (rt.stringify (str key) ∷ ":" ∷ text ∷ [])

abbrev object_text : Runtime → List (String × String) → String
object_text rt members =
    concat ("{" ∷ join_commas (map (entry_text rt) (sort_by key_leb members)) ∷ "}" ∷ [])

unfoldable mutual
  pub canonical_json : Runtime → Value → String
  canonical_json rt undefined = "null"
  canonical_json rt (obj fs) = object_text rt (canonical_fields rt fs)
  canonical_json rt (arr vs) = concat ("[" ∷ join_commas (canonical_items rt vs) ∷ "]" ∷ [])
  canonical_json rt value = rt.stringify value

  -- Each key with the canonical text of its value, in the object's order.
  pub canonical_fields : Runtime → Fields → List (String × String)
  canonical_fields rt no_prop = []
  canonical_fields rt (prop key value fs) = (key, canonical_json rt value) ∷ canonical_fields rt fs

  pub canonical_items : Runtime → Items → List String
  canonical_items rt no_item = []
  canonical_items rt (item value vs) = canonical_json rt value ∷ canonical_items rt vs

unfoldable pub hash_arguments : Runtime → Value → String
unfolding canonical_json
hash_arguments rt raw = rt.sha256 (canonical_json rt raw)
