-- ===== src/Shell/Tests.antt =====
-- The commands that read, on stores that are empty: their exit codes, and what they print.
use mcprelay.Base.{◌≡◌, refl, false, none, [], ◌∷◌}
use mcprelay.Base.Int.{pos}
use mcprelay.Base.Result.{ok}
use mcprelay.Json.{of_nat, null}
use mcprelay.Runtime.Sample.{sample}
use mcprelay.Config.Load.{missing, load_config, apply_overrides}
use mcprelay.Policy.Rules.{evaluate_call}
use mcprelay.Base.Table.{select}
use mcprelay.Base.Sort.{sort_by}
use mcprelay.Queue.Sqlite.{list, get, build_where, to_record}
use mcprelay.Store.{metrics, group_rows, count_decisions, build_call_where}
use mcprelay.Tokens.{consume_tokens, consume_all}
use mcprelay.Shell.{Shell, Given, load_for}
use mcprelay.Report.{
  Texts, consume_report_token, parse_report_tokens, totals_of, metrics_value, render_metrics_table,
  print_metrics, read_metrics, open_and_report, run_report,
}
use mcprelay.Report.Table.{widths, widen, widen_all, pad_cells, render, render_table}
use mcprelay.Policy.Cli.{
  consume_test_token, parse_policy_test_tokens, format_decision, decide_call, load_stored_call,
  test_call, test_policy, run_policy,
}
use mcprelay.Replay.Options.{
  consume_replay_token, parse_replay_tokens, consume_run_token, parse_run_tokens, split_at_equals,
}
use mcprelay.Replay.Cli.{
  Runs, format_record_line, format_record_detail, record_value, query, open_and_query, read_queue,
  run_replay,
}

shell_code : Unit {0}
unfolding load_config apply_overrides select sort_by evaluate_call list get build_where to_record
    metrics group_rows count_decisions build_call_where consume_tokens consume_all load_for
    consume_report_token parse_report_tokens totals_of metrics_value render_metrics_table
    print_metrics read_metrics open_and_report run_report widths widen widen_all pad_cells render
    render_table consume_test_token parse_policy_test_tokens format_decision decide_call
    load_stored_call test_call test_policy run_policy consume_replay_token parse_replay_tokens
    consume_run_token parse_run_tokens split_at_equals format_record_line format_record_detail
    record_value query open_and_query read_queue run_replay
shell_code = tt

abbrev given : Given
given = record {
  env = record {
    runtime = sample;
    file = λ path. missing;
    parse_yaml = λ t. ok null;
    url_protocol = λ url. none;
    default_path = "mcprelay.config.yaml";
  };
  open_failure = none;
  read_failure = none;
}

abbrev idle : Shell
idle = record {
  stdout = [];
  stderr = [];
  queue = record { failures = []; executions = [] };
  store = record { call_events = []; audits = [] };
  opened = 0;
  shut = 0;
}

abbrev texts : Texts
texts = record {
  is_date = λ text. false;
  of_count = λ n. "0";
  of_ms = λ n. "0";
  of_rate = λ errors calls. "0.0";
  locale = λ a b. pos 0;
  rate_of = λ errors calls. of_nat 0;
  stringify = λ v. "{}";
  day_ago = "2026-01-01";
  now = "2026-01-02";
}

abbrev runs : Runs
runs = record { run_record = λ o s. (0, s); run_batch = λ o s. (7, s) }

-- A report of nothing has a head and no row; a bound that is no date is a usage error, which opens
-- no store.
reports :
    ((run_report given texts [] idle).1.stdout
      ≡ "window: 2026-01-01 .. 2026-01-02\n"
        ∷ "calls 0 · allowed 0 · denied 0 · failed 0 · cancelled 0 · replayed 0\n"
        ∷ "CALLER  TOOL  CALLS  ERRORS  ERR%  P50  P95  AVG_REQ_B  AVG_RESP_B\n" ∷ [])
    × (((run_report given texts ("--since" ∷ "soon" ∷ []) idle).0 ≡ 2)
        × ((run_report given texts ("--since" ∷ "soon" ∷ []) idle).1.opened ≡ 0))
unfolding shell_code
reports = (refl, (refl, refl))

-- A record that is not there, and the dispatch of a batch.
replays :
    ((run_replay given runs ("list" ∷ []) idle).0 ≡ 0)
    × (((run_replay given runs ("inspect" ∷ "01A" ∷ []) idle).0 ≡ 1)
        × (((run_replay given runs ("inspect" ∷ "01A" ∷ []) idle).1.shut ≡ 1)
            × (((run_replay given runs ("inspect" ∷ []) idle).0 ≡ 2)
                × ((run_replay given runs ("run" ∷ "--all" ∷ []) idle).0 ≡ 7))))
unfolding shell_code
replays = (refl, (refl, (refl, (refl, refl))))

-- Without rules the default decides, under a warning.
decides :
    (run_policy given (λ text. none) ("test" ∷ "--tool" ∷ "pay" ∷ []) idle
      ≡ ok (
        0,
        record idle {
          stdout =
              "tool:     pay\ncaller:   local\ndecision: allow\nrule:     none (default policy)\nreason:   no rule matched; default action 'allow'\n"
              ∷ [];
          stderr = "mcprelay: warning: no policy rules configured: all tools are allowed\n" ∷ [];
        },
      ))
unfolding shell_code
decides = refl
