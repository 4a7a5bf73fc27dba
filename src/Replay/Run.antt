-- ===== src/Replay/Run.antt =====
-- src/replay/replay-run.ts: the state of `replay run`, once the configuration is read and the stores
-- are open, and the plan of a run. A reply is an exit code; the error of a batch is the message with
-- which it throws.
pub mod Redrive
pub mod DryRun
pub mod Record
pub mod Batch
pub mod Safe
pub mod Guarded
pub mod Calls
pub mod Command
use mcprelay.Base.{
  ℕ, suc, ◌+◌, String, Bool, true, false, not, ◌||◌, ◌&&◌, Option, none, some, List, [], ◌∷◌, ◌++◌,
  ◌==◌, any, concat, map, length, filter, ltb, or_default, if◌then◌else◌,
}
use mcprelay.Base.Result.{Result, err, ok}
use mcprelay.Json.{
  Value, null, str, bool, obj, arr, Fields, no_prop, prop, Items, no_item, item, get_value,
  undefined,
}
use mcprelay.Runtime.{Runtime}
use mcprelay.Config.{RelayConfig, ToolOverride, Effects, read, override_of}
use mcprelay.Pipeline.Classify.{
  RecordFailureClass, transport, timeout_class, upstream_class, non_retryable_class, tool_class,
}
use mcprelay.Pipeline.Idempotency.{extract_idempotency_key}
use mcprelay.Redaction.{redact_deep, redact_message}
use mcprelay.Queue.Port.{QueueError, error_message}
use mcprelay.Queue.Record.{
  FailureRecord, FailureFilter, pending, as_replayed, ReplayOutcome, ExecutionEntry, replay,
}
use mcprelay.Queue.Sqlite.{
  Db, get, list, claim, release, resolve, record_execution, last_execution, last_execution_by_hash,
}
use mcprelay.Proxy.World.{AuditEntry}
use mcprelay.Proxy.Metadata.{as_fields}
use mcprelay.Replay.Guards.{
  MatchedBy, by_key, by_hash, DedupVerdict, dedup_verdict, redacted_marker_keys, apply_overrides,
}

pub record ReplayOptions : Type 0 where
  pub id : String
  pub all : Bool
  pub filter : FailureFilter
  pub dry_run : Bool
  pub force : Bool
  pub json : Bool
  pub overrides : List (String × String)
  pub config_path : Option String

-- `called` holds every tools/call that was made, by its tool and its arguments.
pub record ReplayWorld : Type 0 where
  pub asked : ℕ
  pub queue : Db
  pub audits : List AuditEntry
  pub called : List (String × Value)
  pub stdout : List String
  pub stderr : List String

pub data ToolReply : Type 0 where
  returned : Fields → ToolReply
  threw : String → ToolReply

-- What the surroundings answer to the question of a number; `connect` and `list_tools` give a
-- message where they throw, and `store_failure` that of the audit.
pub record ReplayDeps : Type 0 where
  pub runtime : Runtime
  pub config : RelayConfig
  pub options : ReplayOptions
  pub parse_date : String → Option ℕ
  pub now_ms : ℕ → ℕ
  pub iso_now : ℕ → String
  pub connect : ℕ → FailureRecord → Option String
  pub list_tools : ℕ → FailureRecord → Result String (List String)
  pub call_tool : ℕ → String → Fields → ToolReply
  pub store_failure : ℕ → Option String

abbrev pub exit_ok : ℕ
exit_ok = 0

abbrev pub exit_failure : ℕ
exit_failure = 1

abbrev pub claim_lease_ms : ℕ
claim_lease_ms = 300000

pub record RunOutcome : Type 0 where
  pub is_ok : Bool
  pub result : Option Value
  pub error : Option String

pub data ReplayAttempt : Type 0 where
  unreachable : String → ReplayAttempt
  executed : RunOutcome → ReplayAttempt

abbrev pub next : ReplayWorld → ReplayWorld
next w = record w { asked = suc w.asked }

abbrev pub tell : String → ReplayWorld → ReplayWorld
tell text w = record w { stdout = w.stdout ++ text ∷ [] }

abbrev pub complain : String → ReplayWorld → ReplayWorld
complain text w = record w { stderr = w.stderr ++ text ∷ [] }

-- Everything that a run computes from its record before it does anything.
pub record RunPlan : Type 0 where
  pub key : Option String
  pub replay_arguments : Fields
  pub remaining_markers : List String
  pub verdict : DedupVerdict

-- The stored arguments are an object, as those of tools/call are.
unfoldable pub resolve_arguments : ReplayDeps → FailureRecord → Fields × List String
unfolding redacted_marker_keys apply_overrides
resolve_arguments deps r =
    let replayed = apply_overrides (as_fields r.tool.arguments) deps.options.overrides in
    (replayed, redacted_marker_keys deps.runtime "" (obj replayed))

unfoldable pub compute_dedup_verdict :
    ReplayDeps → FailureRecord → Option String → ReplayWorld → DedupVerdict
unfolding dedup_verdict
compute_dedup_verdict deps r key w =
    dedup_verdict deps.parse_date key deps.config.reliability.dedup_window_ms (deps.now_ms w.asked)
      (elim key [ none ↦ none | some k ↦ last_execution k w.queue ])
      (last_execution_by_hash r.tool.arguments_hash w.queue)

unfoldable pub plan_run : ReplayDeps → FailureRecord → ReplayWorld → RunPlan
unfolding resolve_arguments compute_dedup_verdict
plan_run deps r w =
    let key =
      extract_idempotency_key deps.runtime.string_of_number undefined
        (obj (as_fields r.tool.arguments)) in
    let (replayed, markers) = resolve_arguments deps r in
    record {
      key = key;
      replay_arguments = replayed;
      remaining_markers = markers;
      verdict = compute_dedup_verdict deps r key w;
    }

-- Whether a run must be refused.
unfoldable pub is_refused : ReplayDeps → RunPlan → Bool
is_refused deps plan =
    ltb 0 (length plan.remaining_markers) || (plan.verdict.duplicate && not deps.options.force)

abbrev pub join_names : List String → String
join_names [] = ""
join_names (s ∷ []) = s
join_names (s ∷ t ∷ ss) = concat (s ∷ ", " ∷ join_names (t ∷ ss) ∷ [])

abbrev pub matched_text : Option MatchedBy → String
matched_text none = "null"
matched_text (some by_key) = "key"
matched_text (some by_hash) = "hash"

abbrev pub previous_key : DedupVerdict → String
previous_key verdict = elim verdict.previous [ none ↦ "undefined" | some e ↦ e.key ]

abbrev pub previous_time : DedupVerdict → String
previous_time verdict = elim verdict.previous [ none ↦ "undefined" | some e ↦ e.executed_at ]

abbrev pub refusal_text : RunPlan → String
refusal_text plan =
    if ltb 0 (length plan.remaining_markers)
    then concat (
        "mcprelay: stored arguments contain redacted values ("
        ∷ join_names plan.remaining_markers
        ∷ "); supply them with --set key=value before replaying\n"
        ∷ [])
    else concat (
        "mcprelay: duplicate side-effect risk: '"
        ∷ previous_key plan.verdict
        ∷ "' was successfully executed at "
        ∷ previous_time plan.verdict
        ∷ " ("
        ∷ matched_text plan.verdict.matched_by
        ∷ "); use --force to replay anyway\n"
        ∷ [])

abbrev pub tell_if : Bool → String → ReplayWorld → ReplayWorld
tell_if shown text w = if shown then tell text w else w
