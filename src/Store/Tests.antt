-- ===== src/Store/Tests.antt =====
-- The metrics of concrete calls.
use mcprelay.Base.{
  ℕ, String, ◌≡◌, ◌≤◌, ◌<◌, ◌+◌, ◌*◌, refl, none, some, List, [], ◌∷◌, arith, length, get_elem?,
  lex_leb,
}
use mcprelay.Base.Int.{ℤ, pos}
use mcprelay.Base.Sort.{sort_by}
use mcprelay.Queue.Record.{stdio}
use mcprelay.Proxy.World.{CallDecision, was_allowed, was_failed, CallEvent}
use mcprelay.Store.{
  MetricsFilter, Store, build_call_where, p50, p95, nearest_rank, to_tool_metrics, count_decisions,
  add_row, group_rows, metrics,
}
use mcprelay.Store.Percentile.{nearest_rank-at}
use mcprelay.Store.Totals.{calls_of, total, metrics-totals}

store_code : Unit {0}
unfolding sort_by lex_leb build_call_where nearest_rank to_tool_metrics count_decisions add_row
    group_rows metrics
store_code = tt

abbrev event : String → CallDecision → ℕ → CallEvent
event tool decision latency = record {
  correlation_id = "c";
  timestamp = "2026-01-01T00:00:00.000Z";
  caller = record { caller_type = stdio; identity = "local" };
  tool = tool;
  decision = decision;
  latency_ms = pos latency;
  request_bytes = 10;
  response_bytes = 20;
  attempt = 1;
}

abbrev history : Store
history = record {
  call_events =
      event "pay" was_allowed 30 ∷ event "list" was_allowed 5 ∷ event "pay" was_failed 10 ∷ [];
  audits = [];
}

abbrev any_call : MetricsFilter
any_call = record { since = none; until = none; tool = none; caller = none }

abbrev locale : String → String → ℤ
locale a b = pos 0

abbrev three : List ℤ
three = pos 5 ∷ pos 10 ∷ pos 30 ∷ []

ranks : (nearest_rank three p50 ≡ pos 10) × (nearest_rank three p95 ≡ pos 30)
unfolding nearest_rank
ranks = (refl, refl)

counts : calls_of (metrics locale any_call history).tools ≡ 3
unfolding store_code
counts = refl

metrics-totals_example :
    calls_of (metrics locale any_call history).tools
    ≡ total (metrics locale any_call history).decisions
metrics-totals_example = metrics-totals locale any_call history

nearest_rank-at_example :
    (i : ℕ) × (get_elem? three i ≡ some (nearest_rank three p50))
    × (50 * length three ≤ 100 * (i + 1))
    × (100 * i < 50 * length three)
nearest_rank-at_example = nearest_rank-at three p50 (omega arith)
