-- ===== src/Replay/Guards.antt =====
-- src/replay/guards.ts, and redactedMarkerKeys of src/replay/replay-run.ts: what stops a replay.
pub mod Markers
use mcprelay.Base.{
  ℕ, suc, ◌+◌, String, Bool, true, false, ◌||◌, Option, none, some, List, [], ◌∷◌, ◌++◌, ◌==◌, leb,
  concat, if◌then◌else◌,
}
use mcprelay.Json.{Value, str, obj, arr, Fields, no_prop, prop, Items, no_item, item}
use mcprelay.Runtime.{Runtime}
use mcprelay.Redaction.{redacted}
use mcprelay.Proxy.Metadata.{put}
use mcprelay.Queue.Record.{ExecutionEntry}

unfoldable mutual
  pub contains_redacted_markers : Value → Bool
  contains_redacted_markers (str s) = s == redacted
  contains_redacted_markers (obj fs) = field_has_marker fs
  contains_redacted_markers (arr vs) = item_has_marker vs
  contains_redacted_markers value = false

  pub field_has_marker : Fields → Bool
  field_has_marker no_prop = false
  field_has_marker (prop key value fs) = contains_redacted_markers value || field_has_marker fs

  pub item_has_marker : Items → Bool
  item_has_marker no_item = false
  item_has_marker (item value vs) = contains_redacted_markers value || item_has_marker vs

abbrev root_name : String → String
root_name prefix = if prefix == "" then "(root)" else prefix

abbrev pub field_name : String → String → String
field_name prefix key = if prefix == "" then key else concat (prefix ∷ "." ∷ key ∷ [])

-- The places of the markers.
unfoldable mutual
  pub redacted_marker_keys : Runtime → String → Value → List String
  redacted_marker_keys rt prefix (str s) = if s == redacted then root_name prefix ∷ [] else []
  redacted_marker_keys rt prefix (obj fs) = field_marker_keys rt prefix fs
  redacted_marker_keys rt prefix (arr vs) = item_marker_keys rt prefix 0 vs
  redacted_marker_keys rt prefix value = []

  pub field_marker_keys : Runtime → String → Fields → List String
  field_marker_keys rt prefix no_prop = []
  field_marker_keys rt prefix (prop key value fs) =
      redacted_marker_keys rt (field_name prefix key) value ++ field_marker_keys rt prefix fs

  pub item_marker_keys : Runtime → String → ℕ → Items → List String
  item_marker_keys rt prefix index no_item = []
  item_marker_keys rt prefix index (item value vs) =
      redacted_marker_keys rt (concat (prefix ∷ "[" ∷ rt.text_of_nat index ∷ "]" ∷ [])) value
      ++ item_marker_keys rt prefix (suc index) vs

-- `{ ...args, ...overrides }`
unfoldable pub apply_overrides : Fields → List (String × String) → Fields
unfolding put
apply_overrides args [] = args
apply_overrides args ((key, text) ∷ overrides) = apply_overrides (put key (str text) args) overrides

pub data MatchedBy : Type 0 where
  by_key by_hash : MatchedBy

pub record DedupVerdict : Type 0 where
  pub duplicate : Bool
  pub matched_by : Option MatchedBy
  pub previous : Option ExecutionEntry

abbrev pub no_duplicate : DedupVerdict
no_duplicate = record { duplicate = false; matched_by = none; previous = none }

abbrev pub duplicate_of : MatchedBy → ExecutionEntry → DedupVerdict
duplicate_of by e = record { duplicate = true; matched_by = some by; previous = some e }

-- `Date.parse` is the runtime's: the milliseconds since 1970, `none` where it gives NaN.
abbrev pub within_window : (String → Option ℕ) → ℕ → ℕ → ExecutionEntry → Bool
within_window parse_date window_ms now e = elim (parse_date e.executed_at) [
  | none ↦ false
  | some executed_at ↦ leb now (executed_at + window_ms)
]

abbrev verdict_on : (ExecutionEntry → Bool) → MatchedBy → Option ExecutionEntry → DedupVerdict
verdict_on within by none = no_duplicate
verdict_on within by (some e) = if within e then duplicate_of by e else no_duplicate

unfoldable pub dedup_verdict :
    (String → Option ℕ)
    → Option String
    → ℕ
    → ℕ
    → Option ExecutionEntry
    → Option ExecutionEntry
    → DedupVerdict
dedup_verdict parse_date (some key) window_ms now by_key_entry by_hash_entry =
    verdict_on (within_window parse_date window_ms now) by_key by_key_entry
dedup_verdict parse_date none window_ms now by_key_entry by_hash_entry =
    verdict_on (within_window parse_date window_ms now) by_hash by_hash_entry
