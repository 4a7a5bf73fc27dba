-- ===== src/Replay/Cli.antt =====
-- src/replay/replay-cli.ts: `replay list` and `replay inspect`, and the choice of the subcommand. The
-- runs of a record and of a batch (src/replay/replay-run.ts, modelled in Replay.Run once their
-- configuration is read) are parameters.
use mcprelay.Base.{
  ℕ, String, Bool, Option, none, some, List, [], ◌∷◌, ◌==◌, or_default, concat, map, if◌then◌else◌,
}
use mcprelay.Base.Result.{Result, err, ok}
use mcprelay.Json.{Value, str, num, obj, arr, Items, no_item, item, prop, no_prop, of_nat}
use mcprelay.Runtime.{Runtime}
use mcprelay.Queue.Record.{
  ReplayStatus, pending, replayed, discarded, ServerTransport, stdio, http, FailureRecord,
}
use mcprelay.Queue.Sqlite.{list, get}
use mcprelay.Shell.{Shell, Given, tell, complain, report_error, load_for, open_store, shut_store}
use mcprelay.Replay.Run.{ReplayOptions}
use mcprelay.Replay.Run.DryRun.{class_text}
use mcprelay.Replay.Options.{ReadOptions, parse_replay_tokens, parse_run_tokens}

abbrev pub replay_usage : String
replay_usage = concat (
    "Usage: mcprelay replay <list|inspect|run> [options]\n"
    ∷ "  list:    [--config <path>] [--json] [--status <s>] [--tool <name>] [--correlation-id <id>] [--since <iso>] [--until <iso>] [--limit <n>]\n"
    ∷ "  inspect: <id> [--config <path>] [--json]\n"
    ∷ "  run:     <id> | --all [--tool <name>] [--correlation-id <id>] [--since <iso>] [--until <iso>] [--limit <n>] [--dry-run] [--force] [--set key=value]… [--config <path>] [--json]"
    ∷ [])

abbrev status_text : ReplayStatus → String
status_text pending = "pending"
status_text replayed = "replayed"
status_text discarded = "discarded"

abbrev transport_text : ServerTransport → String
transport_text stdio = "stdio"
transport_text http = "http"

abbrev join_with : String → List String → String
join_with gap [] = ""
join_with gap (s ∷ []) = s
join_with gap (s ∷ t ∷ ss) = concat (s ∷ gap ∷ join_with gap (t ∷ ss) ∷ [])

unfoldable pub format_record_line : Runtime → FailureRecord → String
format_record_line rt r = join_with "\t" (
    r.id
    ∷ r.captured_at
    ∷ r.tool.name
    ∷ class_text r.failure.failure_class
    ∷ concat ("attempts=" ∷ rt.text_of_nat r.failure.attempts ∷ [])
    ∷ status_text r.replay.status
    ∷ r.correlation_id
    ∷ [])

unfoldable pub format_record_detail : Runtime → FailureRecord → String
format_record_detail rt r = join_with "\n" (
    concat ("id:              " ∷ r.id ∷ [])
    ∷ concat ("correlation_id:  " ∷ r.correlation_id ∷ [])
    ∷ concat ("captured_at:     " ∷ r.captured_at ∷ [])
    ∷ concat ("server:          " ∷ r.server.name ∷ " (" ∷ r.server.command ∷ ")" ∷ [])
    ∷ concat ("tool:            " ∷ r.tool.name ∷ [])
    ∷ concat ("arguments_hash:  " ∷ r.tool.arguments_hash ∷ [])
    ∷ concat ("arguments:       " ∷ rt.stringify r.tool.arguments ∷ [])
    ∷ concat ("failure.class:   " ∷ class_text r.failure.failure_class ∷ [])
    ∷ concat ("failure.message: " ∷ r.failure.message ∷ [])
    ∷ concat ("failure.attempts:" ∷ rt.text_of_nat r.failure.attempts ∷ [])
    ∷ concat ("replay.status:   " ∷ status_text r.replay.status ∷ [])
    ∷ concat ("replay.outcome:  " ∷ rt.stringify r.replay.last_outcome ∷ [])
    ∷ ""
    ∷ [])

-- The record as the value that JSON.stringify is given.
unfoldable pub record_value : FailureRecord → Value
record_value r = obj (
    prop "id" (str r.id) (
      prop "correlation_id" (str r.correlation_id) (
        prop "captured_at" (str r.captured_at) (
          prop "caller"
            (obj (
              prop "type" (str (transport_text r.caller.caller_type))
                (prop "identity" (str r.caller.identity) no_prop)))
            (prop "server"
              (obj (
                prop "name" (str r.server.name) (
                  prop "command" (str r.server.command)
                    (prop "transport" (str (transport_text r.server.transport)) no_prop))))
              (prop "tool"
                (obj (
                  prop "name" (str r.tool.name) (
                    prop "arguments_hash" (str r.tool.arguments_hash)
                      (prop "arguments" r.tool.arguments no_prop))))
                (prop "failure"
                  (obj (
                    prop "class" (str (class_text r.failure.failure_class)) (
                      prop "message" (str r.failure.message)
                        (prop "attempts" (num (of_nat r.failure.attempts)) no_prop))))
                  (prop "replay"
                    (obj (
                      prop "status" (str (status_text r.replay.status)) (
                        prop "attempts" (arr r.replay.attempts)
                          (prop "last_outcome" r.replay.last_outcome no_prop))))
                    no_prop))))))))

abbrev record_values : List FailureRecord → Items
record_values [] = no_item
record_values (r ∷ rs) = item (record_value r) (record_values rs)

abbrev pub usage_error : String → Shell → ℕ × Shell
usage_error message s = (2, complain (concat (message ∷ "\n" ∷ replay_usage ∷ "\n" ∷ [])) s)

abbrev pub tell_all : List String → Shell → Shell
tell_all [] s = s
tell_all (line ∷ more) s = tell_all more (tell line s)

abbrev pub print_records : Runtime → Bool → List FailureRecord → Shell → Shell
print_records rt json records s =
    if json
    then tell (concat (rt.stringify (arr (record_values records)) ∷ "\n" ∷ [])) s
    else tell_all (map (λ r. concat (format_record_line rt r ∷ "\n" ∷ [])) records) s

abbrev pub print_record : Runtime → Bool → FailureRecord → Shell → Shell
print_record rt json r s =
    if json
    then tell (concat (rt.stringify (record_value r) ∷ "\n" ∷ [])) s
    else tell (format_record_detail rt r) s

abbrev pub inspect_record : Runtime → Bool → String → Option FailureRecord → Shell → ℕ × Shell
inspect_record rt json id none s =
    (1, complain (concat ("mcprelay: failure record '" ∷ id ∷ "' not found\n" ∷ [])) s)
inspect_record rt json id (some r) s = (0, print_record rt json r s)

-- The body of the `try`: the query, which may throw, and its output. `id as string`: the parser
-- gives an id for `inspect`.
unfoldable pub query : Given → String → ReadOptions → Shell → ℕ × Shell
unfolding format_record_line format_record_detail record_value
query given subcommand o s = elim given.read_failure [
  | some message ↦ (1, report_error message s)
  | none ↦
      if subcommand == "list"
      then (0, print_records given.env.runtime o.json (list o.filter s.queue) s)
      else inspect_record given.env.runtime o.json (or_default o.id "undefined")
          (get (or_default o.id "undefined") s.queue) s
]

-- The `finally`.
abbrev pub shut_after : ℕ × Shell → ℕ × Shell
shut_after (exit, s) = (exit, shut_store s)

abbrev pub open_failed : String → Shell → Shell
open_failed message s =
    complain
      (concat (
        "mcprelay: cannot open the queue provider: " ∷ message
        ∷ "\nmcprelay: if better-sqlite3's native binary is missing, run `npm rebuild better-sqlite3 --ignore-scripts=false`\n"
        ∷ []))
      s

unfoldable pub open_and_query : Given → String → ReadOptions → Shell → ℕ × Shell
unfolding query
open_and_query given subcommand o s = elim given.open_failure [
  | some message ↦ (1, open_failed message s)
  | none ↦ shut_after (query given subcommand o (open_store s))
]

unfoldable pub read_queue : Given → String → List String → Shell → ℕ × Shell
unfolding open_and_query
read_queue given subcommand tokens s =
    elim (parse_replay_tokens given.env.runtime subcommand tokens) [
      | err message ↦ usage_error message s
      | ok o ↦ elim (load_for given.env o.config_path s) [
        | err t ↦ (2, t)
        | ok (config, t) ↦ open_and_query given subcommand o t
      ]
    ]

-- The runs of replay-run.ts.
pub record Runs : Type 0 where
  pub run_record : ReplayOptions → Shell → ℕ × Shell
  pub run_batch : ReplayOptions → Shell → ℕ × Shell

abbrev pub run_parsed : Runs → Result String ReplayOptions → Shell → ℕ × Shell
run_parsed runs (err message) s = usage_error message s
run_parsed runs (ok o) s = if o.all then runs.run_batch o s else runs.run_record o s

unfoldable pub run_replay : Given → Runs → List String → Shell → ℕ × Shell
unfolding read_queue
run_replay given runs [] s = usage_error "Missing replay subcommand." s
run_replay given runs (subcommand ∷ tokens) s =
    if subcommand == "run"
    then run_parsed runs (parse_run_tokens given.env.runtime tokens) s
    else if subcommand == "list"
    then read_queue given subcommand tokens s
    else if subcommand == "inspect"
    then read_queue given subcommand tokens s
    else usage_error (concat ("Unknown replay subcommand '" ∷ subcommand ∷ "'." ∷ [])) s
