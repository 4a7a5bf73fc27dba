-- ===== src/Replay/Tests.antt =====
-- Replays of a concrete record.
use mcprelay.Base.{
  String, ◌≡◌, refl, Bool, true, false, Option, none, some, [], ◌∷◌, codes, length, ltb, lex_leb,
}
use mcprelay.Base.Result.{ok, err}
use mcprelay.Base.Sort.{sort_by}
use mcprelay.Base.Table.{select, update, changes, insert}
use mcprelay.Json.{Value, null, str, obj, prop, no_prop, no_item, get as get_field, through_json}
use mcprelay.Config.{default_config}
use mcprelay.Runtime.Sample.{sample}
use mcprelay.Pipeline.Classify.{timeout_class}
use mcprelay.Pipeline.Idempotency.{extract_idempotency_key}
use mcprelay.Redaction.{
  redact_deep, redact_message, matches_pattern, includes, redact_pattern, pattern_to_regex_source,
}
use mcprelay.Queue.Record.{FailureRecord, FailureFilter, pending, stdio}
use mcprelay.Queue.Sqlite.{
  to_row, to_record, get, list, build_where, claim, release, resolve, record_execution,
  last_execution, last_execution_by_hash, latest,
}
use mcprelay.Proxy.Metadata.{put}
use mcprelay.Replay.CommandLine.{quote_token, quote_command_line, parse_command_line}
use mcprelay.Replay.CommandLine.RoundTrip.{parse_command_line-quote_command_line}
use mcprelay.Replay.Guards.{
  contains_redacted_markers, redacted_marker_keys, apply_overrides, dedup_verdict,
}
use mcprelay.Replay.Guards.Markers.{redacted_marker_keys_complete}
use mcprelay.Replay.Run.{ReplayDeps, ReplayWorld, ReplayOptions, returned, plan_run, is_refused}
use mcprelay.Replay.Run.Redrive.{
  run_outcome_of, attempt_replay, index_outcome, audit_outcome, after_resolve, persist_outcome,
  report_outcome, after_claim, redrive, exit_of,
}
use mcprelay.Replay.Run.DryRun.{
  report_dry_run_summary, report_dry_run_guards, look_up_tool, inspect_server, run_dry_run,
}
use mcprelay.Replay.Run.Record.{replay_record, run_replay_record}
use mcprelay.Replay.Run.Batch.{
  result_of, replay_batch_record, after_record, replay_all, finish_batch, run_replay_batch,
}
use mcprelay.Config.Reliability.{assign}
use mcprelay.Tokens.{consume_tokens, consume_all}
use mcprelay.Replay.Options.{consume_run_token, split_at_equals, parse_run_tokens}
use mcprelay.Replay.Options.Accepted.{IsRunnable, parse_run_tokens-IsRunnable}
use mcprelay.Replay.Run.Guarded.{IsIdle, run_replay_record-IsIdle}

replay_code : Unit {0}
unfolding get_field put extract_idempotency_key redact_deep redact_message matches_pattern includes
    redact_pattern pattern_to_regex_source get list build_where to_row to_record claim release
    resolve record_execution last_execution last_execution_by_hash latest select update changes
    insert sort_by lex_leb through_json contains_redacted_markers redacted_marker_keys
    apply_overrides dedup_verdict plan_run is_refused run_outcome_of attempt_replay index_outcome
    audit_outcome after_resolve persist_outcome report_outcome report_dry_run_summary
    report_dry_run_guards look_up_tool inspect_server run_dry_run after_claim redrive exit_of
    replay_record run_replay_record result_of replay_batch_record after_record replay_all
    finish_batch run_replay_batch
replay_code = tt

abbrev failure : Value → FailureRecord
failure arguments = record {
  id = "01A";
  correlation_id = "c";
  captured_at = "2026-01-01T00:00:00.000Z";
  caller = record { caller_type = stdio; identity = "local" };
  server = record { name = "echo"; command = "node echo.js"; transport = stdio };
  tool = record { name = "pay"; arguments_hash = "h"; arguments = arguments };
  failure = record { failure_class = timeout_class; message = "timed out"; attempts = 3 };
  replay = record { status = pending; attempts = no_item; last_outcome = null };
}

abbrev clear_text : Value
clear_text = obj (prop "to" (str "ann") no_prop)

abbrev masked_text : Value
masked_text = obj (prop "token" (str "[REDACTED]") no_prop)

abbrev any_record : FailureFilter
any_record = record {
  status = none;
  tool = none;
  correlation_id = none;
  since = none;
  until = none;
  limit = none;
}

abbrev options : Bool → ReplayOptions
options dry = record {
  id = "01A";
  all = false;
  filter = any_record;
  dry_run = dry;
  force = false;
  json = false;
  overrides = [];
  config_path = none;
}

abbrev deps : Bool → Option String → ReplayDeps
deps dry audit_error = record {
  runtime = sample;
  config = default_config;
  options = options dry;
  parse_date = λ text. none;
  now_ms = λ n. 1000;
  iso_now = λ n. "2026-01-02T00:00:00.000Z";
  connect = λ n r. none;
  list_tools = λ n r. ok ("pay" ∷ []);
  call_tool = λ n tool args. returned no_prop;
  store_failure = λ n. audit_error;
}

abbrev start : Value → ReplayWorld
start arguments = record {
  asked = 0;
  queue = record { failures = to_row (failure arguments) ∷ []; executions = [] };
  audits = [];
  called = [];
  stdout = [];
  stderr = [];
}

-- The tool is called once; not with a masked argument, and not in a dry run.
runs :
    (length (run_replay_record (deps false none) (start clear_text)).1.called ≡ 1)
    × ((run_replay_record (deps false none) (start clear_text)).0 ≡ 0)
    × (length (run_replay_record (deps false none) (start masked_text)).1.called ≡ 0)
    × ((run_replay_record (deps false none) (start masked_text)).0 ≡ 1)
    × (length (run_replay_record (deps true none) (start clear_text)).1.called ≡ 0)
unfolding replay_code
runs = (refl, refl, refl, refl, refl)

-- Where the audit fails, a single run ends with exit code 1, a batch throws.
differs :
    ((run_replay_record (deps false (some "disk full")) (start clear_text)).0 ≡ 1)
    × ((run_replay_batch (deps false (some "disk full")) (start clear_text)).0 ≡ err "disk full")
unfolding replay_code
differs = (refl, refl)

run_replay_record-IsIdle_example :
    IsIdle (start clear_text) (run_replay_record (deps true none) (start clear_text)).1
run_replay_record-IsIdle_example = run_replay_record-IsIdle (deps true none) (start clear_text) refl

parse_command_line-quote_command_line_example :
    parse_command_line (quote_command_line (codes "node") (codes "it's" ∷ codes "" ∷ []))
    ≡ ok (codes "node", codes "it's" ∷ codes "" ∷ [])
parse_command_line-quote_command_line_example =
    parse_command_line-quote_command_line (codes "node") (codes "it's" ∷ codes "" ∷ [])

quotes : quote_command_line (codes "node") (codes "it's" ∷ []) ≡ codes "node 'it'\\''s'"
unfolding quote_command_line quote_token
quotes = refl

redacted_marker_keys_complete_example :
    contains_redacted_markers masked_text
    ≡ ltb 0 (length (redacted_marker_keys sample "" masked_text))
redacted_marker_keys_complete_example = redacted_marker_keys_complete sample "" masked_text

abbrev one_run : ReplayOptions
one_run = record (options true) { overrides = ("to", "bob=1") ∷ [] }

accepted : parse_run_tokens sample ("01A" ∷ "--set" ∷ "to=bob=1" ∷ "--dry-run" ∷ []) ≡ ok one_run
unfolding consume_tokens consume_all consume_run_token split_at_equals assign parse_run_tokens
accepted = refl

-- A batch takes no override, whichever of the two options comes first.
refuses :
    (parse_run_tokens sample ("--all" ∷ "--set" ∷ "to=bob" ∷ [])
      ≡ err "'--set' is not supported with '--all'; replay records individually.")
    × (parse_run_tokens sample ("--set" ∷ "=bob" ∷ [])
        ≡ err "Invalid --set '=bob'; expected key=value.")
unfolding consume_tokens consume_all consume_run_token split_at_equals assign parse_run_tokens
refuses = (refl, refl)

parse_run_tokens-IsRunnable_example : IsRunnable one_run
parse_run_tokens-IsRunnable_example =
    parse_run_tokens-IsRunnable sample ("01A" ∷ "--set" ∷ "to=bob=1" ∷ "--dry-run" ∷ []) one_run
      accepted
