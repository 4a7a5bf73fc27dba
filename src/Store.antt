-- ===== src/Store.antt =====
-- src/store/sqlite-store.ts: the history of calls, its metrics, and the audit. A table is the list of
-- its rows in order of insertion, which is the order of their ids. The decisions that are stored are
-- the four that a call can have.
pub mod Percentile
pub mod Totals
mod Tests
use mcprelay.Base.{
  ℕ, zero, suc, ◌+◌, ◌-◌, ◌*◌, ◌/◌, min, max, String, Bool, true, false, not, ◌&&◌, ◌||◌, Option,
  none, some, List, [], ◌∷◌, ◌++◌, map, ◌==◌, nat_eq, ltb, leb, length, filter, take, get_elem?,
  concat, text_leb, or_default, if◌then◌else◌,
}
use mcprelay.Base.Int.{ℤ, pos, negsuc, int_leb}
use mcprelay.Base.Sort.{sort_by}
use mcprelay.Json.{Value, through_json}
use mcprelay.Proxy.World.{
  CallDecision, was_allowed, was_denied, was_failed, was_cancelled, CallEvent, AuditEntry,
}

pub record MetricsFilter : Type 0 where
  pub since : Option String
  pub until : Option String
  pub tool : Option String
  pub caller : Option String

pub record DecisionTotals : Type 0 where
  pub allowed : ℕ
  pub denied : ℕ
  pub failed : ℕ
  pub cancelled : ℕ

-- `error_rate` is the quotient of `errors` and `calls`, which are kept.
pub record ToolMetrics : Type 0 where
  pub caller : String
  pub tool : String
  pub calls : ℕ
  pub errors : ℕ
  pub latency_p50_ms : ℤ
  pub latency_p95_ms : ℤ
  pub avg_request_bytes : ℕ
  pub avg_response_bytes : ℕ

pub record StoredAuditEntry : Type 0 where
  pub at : String
  pub kind : String
  pub correlation_id : String
  pub failure_id : Option String
  pub tool_name : String
  pub detail : Option Value

pub record AuditFilter : Type 0 where
  pub correlation_id : Option String
  pub failure_id : Option String
  pub limit : Option ℕ

pub record Store : Type 0 where
  pub call_events : List CallEvent
  pub audits : List StoredAuditEntry

pub record StoreMetrics : Type 0 where
  pub tools : List ToolMetrics
  pub decisions : DecisionTotals
  pub replayed : ℕ

abbrev condition {ℓ} : {A : Type ℓ} → Option A → (A → Bool) → Bool
condition none test = true
condition (some a) test = test a

-- The clause that buildCallWhere assembles, as the predicate it means.
unfoldable pub build_call_where : MetricsFilter → CallEvent → Bool
build_call_where f e =
    condition f.since (λ t. text_leb t e.timestamp)
    && condition f.until (λ t. text_leb e.timestamp t)
    && condition f.tool (λ t. e.tool == t)
    && condition f.caller (λ c. e.caller.identity == c)

-- The percentiles that the program asks for.
pub data AskedPercentile : Type 0 where
  p50 p95 : AskedPercentile

abbrev pub percent : AskedPercentile → ℕ
percent p50 = 50
percent p95 = 95

-- Math.ceil((percentile / 100) * n). For these two percentiles the product of the source, in floating
-- point, has the ceiling of the exact one while n is below 2 ^ 47: 0.5 * n is exact, and 0.95, which is
-- stored 5e-17 of itself too low, rounds back to the integer where the exact product is one.
abbrev pub rank_of : AskedPercentile → ℕ → ℕ
rank_of percentile n = (percent percentile * n + 99) / 100

unfoldable pub nearest_rank : List ℤ → AskedPercentile → ℤ
nearest_rank ascending percentile =
    let n = length ascending in
    or_default (get_elem? ascending (min (max (rank_of percentile n) 1) n - 1)) (pos 0)

abbrev is_failed : CallDecision → Bool
is_failed was_failed = true
is_failed _ = false

abbrev sum_of : (CallEvent → ℕ) → List CallEvent → ℕ
sum_of pick [] = 0
sum_of pick (e ∷ es) = pick e + sum_of pick es

-- Math.round of the mean
abbrev average : (CallEvent → ℕ) → List CallEvent → ℕ
average pick group = (2 * sum_of pick group + length group) / (2 * length group)

-- A group has a first row.
unfoldable pub to_tool_metrics : CallEvent → List CallEvent → ToolMetrics
unfolding nearest_rank
to_tool_metrics first others =
    let group = first ∷ others in
    let latencies = sort_by int_leb (map (λ (e : CallEvent). e.latency_ms) group) in
    record {
      caller = first.caller.identity;
      tool = first.tool;
      calls = length group;
      errors = length (filter (λ e. is_failed e.decision) group);
      latency_p50_ms = nearest_rank latencies p50;
      latency_p95_ms = nearest_rank latencies p95;
      avg_request_bytes = average (λ e. e.request_bytes) group;
      avg_response_bytes = average (λ e. e.response_bytes) group;
    }

abbrev pub count_decision : CallDecision → DecisionTotals → DecisionTotals
count_decision was_allowed d = record d { allowed = d.allowed + 1 }
count_decision was_denied d = record d { denied = d.denied + 1 }
count_decision was_failed d = record d { failed = d.failed + 1 }
count_decision was_cancelled d = record d { cancelled = d.cancelled + 1 }

abbrev pub no_decision : DecisionTotals
no_decision = record { allowed = 0; denied = 0; failed = 0; cancelled = 0 }

unfoldable pub count_decisions : List CallEvent → DecisionTotals → DecisionTotals
count_decisions [] d = d
count_decisions (e ∷ es) d = count_decisions es (count_decision e.decision d)

-- The map of groups, in order of insertion: each with its key, its first row and the others.
abbrev pub Group : Type 0
Group = String × CallEvent × List CallEvent

abbrev pub group_key : CallEvent → String
group_key e = concat (e.caller.identity ∷ "\0" ∷ e.tool ∷ [])

unfoldable pub add_row : CallEvent → List Group → List Group
add_row e [] = (group_key e, e, []) ∷ []
add_row e ((key, first, others) ∷ groups) =
    let rest = add_row e groups in
    if key == group_key e
    then (key, first, others ++ e ∷ []) ∷ groups
    else (key, first, others) ∷ rest

unfoldable pub group_rows : List CallEvent → List Group → List Group
unfolding add_row
group_rows [] groups = groups
group_rows (e ∷ es) groups = group_rows es (add_row e groups)

-- The order of the table: more calls first, then by the names, as `localeCompare` orders them.
abbrev pub metrics_leb : (String → String → ℤ) → ToolMetrics → ToolMetrics → Bool
metrics_leb locale a b =
    if ltb b.calls a.calls
    then true
    else if ltb a.calls b.calls
    then false
    else elim (locale a.caller b.caller) [
      | negsuc n ↦ true
      | pos zero ↦ int_leb (locale a.tool b.tool) (pos 0)
      | pos n ↦ false
    ]

abbrev pub event_leb : CallEvent → CallEvent → Bool
event_leb a b = text_leb a.timestamp b.timestamp

abbrev is_replay : MetricsFilter → StoredAuditEntry → Bool
is_replay f a =
    a.kind == "replayed"
    && condition f.since (λ t. text_leb t a.at)
    && condition f.until (λ t. text_leb a.at t)

abbrev pub metrics_of : Group → ToolMetrics
metrics_of (key, first, others) = to_tool_metrics first others

unfoldable pub metrics : (String → String → ℤ) → MetricsFilter → Store → StoreMetrics
unfolding build_call_where group_rows count_decisions to_tool_metrics
metrics locale f s =
    let rows = sort_by event_leb (filter (build_call_where f) s.call_events) in
    record {
      tools = sort_by (metrics_leb locale) (map metrics_of (group_rows rows []));
      decisions = count_decisions rows no_decision;
      replayed = length (filter (is_replay f) s.audits);
    }

unfoldable pub record_call_event : CallEvent → Store → Store
record_call_event e s = record s { call_events = s.call_events ++ e ∷ [] }

unfoldable pub add_audit : String → AuditEntry → Store → Store
add_audit now entry s = record s {
  audits =
      s.audits
      ++ record {
        at = now;
        kind = entry.kind;
        correlation_id = entry.correlation_id;
        failure_id = entry.failure_id;
        tool_name = entry.tool_name;
        detail = elim entry.detail [ none ↦ none | some v ↦ some (through_json v) ];
      }
        ∷ [];
}

abbrev reverse {ℓ} : {A : Type ℓ} → List A → List A
reverse [] = []
reverse (x ∷ xs) = reverse xs ++ x ∷ []

-- An optional column that equals a value.
abbrev holds : Option String → String → Bool
holds none text = false
holds (some s) text = s == text

abbrev audit_where : AuditFilter → StoredAuditEntry → Bool
audit_where f a =
    condition f.correlation_id (λ c. a.correlation_id == c)
    && condition f.failure_id (λ i. holds a.failure_id i)

-- ORDER BY id DESC: the latest insertion first.
unfoldable pub list_audit : AuditFilter → Store → List StoredAuditEntry
list_audit f s = take (min (or_default f.limit 100) 500) (reverse (filter (audit_where f) s.audits))

-- `cutoff` is the text of the instant that is `retention_days` ago.
unfoldable pub prune_call_events : ℕ → String → Store → Store
prune_call_events retention_days cutoff s =
    if nat_eq retention_days 0
    then s
    else record s { call_events = filter (λ e. text_leb cutoff e.timestamp) s.call_events }
