-- ===== src/Report.antt =====
-- src/report/report-cli.ts: the metrics of a time range, as a table or as JSON. A rate is two natural
-- numbers; its texts, and the order of names, are parameters.
pub mod Table
mod Tests
use mcprelay.Base.{
  ℕ, ◌+◌, String, Bool, true, false, Option, none, some, List, [], ◌∷◌, ◌==◌, concat, if◌then◌else◌,
  nat_eq,
}
use mcprelay.Base.Int.{ℤ}
use mcprelay.Base.Result.{Result, err, ok}
use mcprelay.Json.{
  Value, Number, Items, dyadic, str, num, arr, obj, prop, no_prop, item, no_item, of_nat,
}
use mcprelay.Store.{MetricsFilter, ToolMetrics, DecisionTotals, StoreMetrics, metrics}
use mcprelay.Shell.{Shell, Given, tell, complain, report_error, load_for, open_store, shut_store}
use mcprelay.Tokens.{Step, refused, flag_read, value_read, Consume, with_value, consume_all}
use mcprelay.Report.Table.{render_table}

pub record ReportOptions : Type 0 where
  pub since : String
  pub until : String
  pub tool : Option String
  pub caller : Option String
  pub json : Bool
  pub config_path : Option String

-- What JavaScript answers: whether Date.parse reads a text, the texts of numbers, the order of
-- localeCompare, the quotient of two numbers, and JSON.stringify.
pub record Texts : Type 0 where
  pub is_date : String → Bool
  pub of_count : ℕ → String
  pub of_ms : ℤ → String
  -- (errors / calls * 100).toFixed(1)
  pub of_rate : ℕ → ℕ → String
  pub locale : String → String → ℤ
  pub rate_of : ℕ → ℕ → Number
  pub stringify : Value → String
  -- The instants 24 hours ago, and now.
  pub day_ago : String
  pub now : String

abbrev pub report_usage : String
report_usage =
    "Usage: mcprelay report [--since <iso>] [--until <iso>] [--tool <name>] [--caller <identity>] [--json] [--config <path>]"

abbrev pub set_bound : String → String → ReportOptions → ReportOptions
set_bound token value o =
    if token == "--since" then record o { since = value } else record o { until = value }

abbrev pub consume_time_bound : Texts → Consume ReportOptions
consume_time_bound texts token next o = with_value token next λ value.
    if texts.is_date value
    then value_read (set_bound token value o)
    else refused
        (concat ("Invalid " ∷ token ∷ " '" ∷ value ∷ "'; expected an ISO-8601 timestamp." ∷ []))

abbrev pub consume_filter : Consume ReportOptions
consume_filter token next o = with_value token next λ value.
    if token == "--tool"
    then value_read (record o { tool = some value })
    else value_read (record o { caller = some value })

unfoldable pub consume_report_token : Texts → Consume ReportOptions
consume_report_token texts token next o =
    if token == "--config"
    then with_value "--config" next (λ value. value_read (record o { config_path = some value }))
    else if token == "--since"
    then consume_time_bound texts token next o
    else if token == "--until"
    then consume_time_bound texts token next o
    else if token == "--tool"
    then consume_filter token next o
    else if token == "--caller"
    then consume_filter token next o
    else if token == "--json"
    then flag_read (record o { json = true })
    else refused (concat ("Unknown option '" ∷ token ∷ "'." ∷ []))

unfoldable pub parse_report_tokens : Texts → List String → Result String ReportOptions
unfolding consume_all consume_report_token
parse_report_tokens texts tokens = consume_all (consume_report_token texts) tokens (record {
  since = texts.day_ago;
  until = texts.now;
  tool = none;
  caller = none;
  json = false;
  config_path = none;
})

abbrev pub usage_error : String → Shell → ℕ × Shell
usage_error message s = (2, complain (concat (message ∷ "\n" ∷ report_usage ∷ "\n" ∷ [])) s)

-- The rate is `errors / calls`, and 0 where there is no call.
pub record ReportTotals : Type 0 where
  pub calls : ℕ
  pub errors : ℕ

abbrev add_calls : List ToolMetrics → ℕ
add_calls [] = 0
add_calls (row ∷ rows) = row.calls + add_calls rows

abbrev add_errors : List ToolMetrics → ℕ
add_errors [] = 0
add_errors (row ∷ rows) = row.errors + add_errors rows

unfoldable pub totals_of : StoreMetrics → ReportTotals
totals_of m = record { calls = add_calls m.tools; errors = add_errors m.tools }

abbrev pub report_header : List String
report_header =
    "CALLER" ∷ "TOOL" ∷ "CALLS" ∷ "ERRORS" ∷ "ERR%" ∷ "P50" ∷ "P95" ∷ "AVG_REQ_B" ∷ "AVG_RESP_B"
    ∷ []

abbrev pub row_cells : Texts → ToolMetrics → List String
row_cells texts row =
    row.caller
    ∷ row.tool
    ∷ texts.of_count row.calls
    ∷ texts.of_count row.errors
    ∷ concat (texts.of_rate row.errors row.calls ∷ "%" ∷ [])
    ∷ concat (texts.of_ms row.latency_p50_ms ∷ "ms" ∷ [])
    ∷ concat (texts.of_ms row.latency_p95_ms ∷ "ms" ∷ [])
    ∷ texts.of_count row.avg_request_bytes
    ∷ texts.of_count row.avg_response_bytes
    ∷ []

abbrev all_cells : Texts → List ToolMetrics → List (List String)
all_cells texts [] = []
all_cells texts (row ∷ rows) = row_cells texts row ∷ all_cells texts rows

abbrev totals_line : Texts → StoreMetrics → String
totals_line texts m = concat (
    "calls "
    ∷ texts.of_count (totals_of m).calls
    ∷ " · allowed "
    ∷ texts.of_count m.decisions.allowed
    ∷ " · denied "
    ∷ texts.of_count m.decisions.denied
    ∷ " · failed "
    ∷ texts.of_count m.decisions.failed
    ∷ " · cancelled "
    ∷ texts.of_count m.decisions.cancelled
    ∷ " · replayed "
    ∷ texts.of_count m.replayed
    ∷ "\n"
    ∷ [])

abbrev tell_lines : List String → Shell → Shell
tell_lines [] s = s
tell_lines (line ∷ lines) s = tell_lines lines (tell (concat (line ∷ "\n" ∷ [])) s)

unfoldable pub render_metrics_table : Texts → ReportOptions → StoreMetrics → Shell → Shell
unfolding totals_of render_table
render_metrics_table texts o m s =
    tell_lines (render_table report_header (all_cells texts m.tools)) (
      tell (totals_line texts m)
        (tell (concat ("window: " ∷ o.since ∷ " .. " ∷ o.until ∷ "\n" ∷ [])) s))

-- `errors / calls`, and 0 where there is no call.
abbrev error_rate : Texts → ℕ → ℕ → Number
error_rate texts errors calls = if nat_eq calls 0 then of_nat 0 else texts.rate_of errors calls

abbrev count_value : ℕ → Value
count_value n = num (of_nat n)

abbrev tool_value : Texts → ToolMetrics → Value
tool_value texts row = obj (
    prop "caller" (str row.caller) (
      prop "tool" (str row.tool) (
        prop "calls" (count_value row.calls) (
          prop "errors" (count_value row.errors) (
            prop "error_rate" (num (error_rate texts row.errors row.calls)) (
              prop "latency_p50_ms" (num (dyadic row.latency_p50_ms 0)) (
                prop "latency_p95_ms" (num (dyadic row.latency_p95_ms 0)) (
                  prop "avg_request_bytes" (count_value row.avg_request_bytes)
                    (prop "avg_response_bytes" (count_value row.avg_response_bytes) no_prop)))))))))

abbrev tool_values : Texts → List ToolMetrics → Items
tool_values texts [] = no_item
tool_values texts (row ∷ rows) = item (tool_value texts row) (tool_values texts rows)

abbrev totals_value : Texts → ReportTotals → StoreMetrics → Value
totals_value texts totals m = obj (
    prop "calls" (count_value totals.calls) (
      prop "errors" (count_value totals.errors) (
        prop "error_rate" (num (error_rate texts totals.errors totals.calls)) (
          prop "allowed" (count_value m.decisions.allowed) (
            prop "denied" (count_value m.decisions.denied) (
              prop "failed" (count_value m.decisions.failed) (
                prop "cancelled" (count_value m.decisions.cancelled)
                  (prop "replayed" (count_value m.replayed) no_prop))))))))

-- The value that renderMetricsJson prints.
unfoldable pub metrics_value : Texts → ReportOptions → StoreMetrics → Value
unfolding totals_of
metrics_value texts o m = obj (
    prop "since" (str o.since) (
      prop "until" (str o.until) (
        prop "totals" (totals_value texts (totals_of m) m)
          (prop "tools" (arr (tool_values texts m.tools)) no_prop))))

abbrev pub filter_of : ReportOptions → MetricsFilter
filter_of o = record {
  since = some o.since;
  until = some o.until;
  tool = o.tool;
  caller = o.caller;
}

unfoldable pub print_metrics : Texts → ReportOptions → StoreMetrics → Shell → Shell
unfolding metrics_value render_metrics_table
print_metrics texts o m s =
    if o.json
    then tell (concat (texts.stringify (metrics_value texts o m) ∷ "\n" ∷ [])) s
    else render_metrics_table texts o m s

unfoldable pub read_metrics : Given → Texts → ReportOptions → Shell → ℕ × Shell
unfolding print_metrics
read_metrics given texts o s = elim given.read_failure [
  | some message ↦ (1, shut_store (report_error message s))
  | none ↦ (0, shut_store (print_metrics texts o (metrics texts.locale (filter_of o) s.store) s))
]

unfoldable pub open_and_report : Given → Texts → ReportOptions → Shell → ℕ × Shell
unfolding read_metrics
open_and_report given texts o s = elim given.open_failure [
  | some message ↦
      (1, complain (concat ("mcprelay: cannot open the store provider: " ∷ message ∷ "\n" ∷ [])) s)
  | none ↦ read_metrics given texts o (open_store s)
]

unfoldable pub run_report : Given → Texts → List String → Shell → ℕ × Shell
unfolding open_and_report
run_report given texts tokens s = elim (parse_report_tokens texts tokens) [
  | err message ↦ usage_error message s
  | ok o ↦ elim (load_for given.env o.config_path s) [
    | err t ↦ (2, t)
    | ok (config, t) ↦ open_and_report given texts o t
  ]
]
