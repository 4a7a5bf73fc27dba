-- ===== src/Queue/Sqlite.antt =====
-- src/queue/sqlite-queue.ts: the durable queue, as its two tables. Each operation takes the database
-- and gives the new one beside its result. An instant is a number of milliseconds, which stands for
-- the text that toISOString makes of it (texts of one length, in the order of the instants); the
-- texts that callers pass in, such as `captured_at`, stay texts.
pub mod Views
pub mod Ops
pub mod Claims
pub mod Refines
pub mod Listing
pub mod Reads
pub mod Executions
pub mod Leases
use mcprelay.Base.{
  ℕ, ◌+◌, min, String, Bool, true, false, ◌&&◌, Option, none, some, List, [], ◌∷◌, map, ◌==◌,
  nat_eq, ltb, leb, if◌then◌else◌, is_some, or_default, length, take, filter, text_leb,
}
use mcprelay.Base.Result.{Result, ok, err}
use mcprelay.Base.Sort.{sort_by}
use mcprelay.Base.Table.{select, update, changes, delete, insert}
use mcprelay.Json.{Value, null, Items, no_item, through_json, through_json_items}
use mcprelay.Pipeline.Classify.{RecordFailureClass}
use mcprelay.Queue.Port.{
  QueueError, record_not_found, already_resolved, already_claimed, constraint_failed,
}
use mcprelay.Queue.Record.{
  ReplayStatus, pending, replayed, discarded, ServerTransport, FailureRecord, FailureFilter,
  to_status, ReplayOutcome, ExecutionEntry,
}

-- A row of `failures`; the JSON columns hold the value that parsing their text gives.
pub record FailureRow : Type 0 where
  pub id : String
  pub correlation_id : String
  pub captured_at : String
  pub caller_type : ServerTransport
  pub caller_identity : String
  pub server_name : String
  pub server_command : String
  pub server_transport : ServerTransport
  pub tool_name : String
  pub arguments_hash : String
  pub arguments : Value
  pub failure_class : RecordFailureClass
  pub failure_message : String
  pub failure_attempts : ℕ
  pub replay_status : ReplayStatus
  pub replay_attempts : Items
  pub last_outcome : Option Value
  pub claimed_at : Option ℕ
  pub claim_expires_at : Option ℕ
  pub resolved_at : Option ℕ

pub record Db : Type 0 where
  pub failures : List FailureRow
  pub executions : List ExecutionEntry

abbrev pub row_id : FailureRow → String
row_id r = r.id

abbrev pub entry_key : ExecutionEntry → String
entry_key e = e.key

abbrev pub default_limit : ℕ
default_limit = 50

abbrev pub max_limit : ℕ
max_limit = 500

abbrev pub status_eq : ReplayStatus → ReplayStatus → Bool
status_eq pending pending = true
status_eq replayed replayed = true
status_eq discarded discarded = true
status_eq _ _ = false

-- A condition of the WHERE clause, left out where the filter has no such field.
abbrev condition {ℓ} : {A : Type ℓ} → Option A → (A → Bool) → Bool
condition none test = true
condition (some a) test = test a

-- The clause that buildWhere assembles, as the predicate it means.
unfoldable pub build_where : FailureFilter → FailureRow → Bool
build_where f r =
    condition f.status (λ s. status_eq r.replay_status s)
    && condition f.tool (λ t. r.tool_name == t)
    && condition f.correlation_id (λ c. r.correlation_id == c)
    && condition f.since (λ t. text_leb t r.captured_at)
    && condition f.until (λ t. text_leb r.captured_at t)

unfoldable pub to_record : FailureRow → FailureRecord
to_record r = record {
  id = r.id;
  correlation_id = r.correlation_id;
  captured_at = r.captured_at;
  caller = record { caller_type = r.caller_type; identity = r.caller_identity };
  server = record {
    name = r.server_name;
    command = r.server_command;
    transport = r.server_transport;
  };
  tool = record { name = r.tool_name; arguments_hash = r.arguments_hash; arguments = r.arguments };
  failure = record {
    failure_class = r.failure_class;
    message = r.failure_message;
    attempts = r.failure_attempts;
  };
  replay = record {
    status = r.replay_status;
    attempts = r.replay_attempts;
    last_outcome = or_default r.last_outcome null;
  };
}

-- `last_outcome === null ? null : JSON.stringify(last_outcome)`
abbrev outcome_column : Value → Option Value
outcome_column null = none
outcome_column v = some (through_json v)

-- The values that `enqueue` binds.
unfoldable pub to_row : FailureRecord → FailureRow
to_row r = record {
  id = r.id;
  correlation_id = r.correlation_id;
  captured_at = r.captured_at;
  caller_type = r.caller.caller_type;
  caller_identity = r.caller.identity;
  server_name = r.server.name;
  server_command = r.server.command;
  server_transport = r.server.transport;
  tool_name = r.tool.name;
  arguments_hash = r.tool.arguments_hash;
  arguments = through_json r.tool.arguments;
  failure_class = r.failure.failure_class;
  failure_message = r.failure.message;
  failure_attempts = r.failure.attempts;
  replay_status = r.replay.status;
  replay_attempts = through_json_items r.replay.attempts;
  last_outcome = outcome_column r.replay.last_outcome;
  claimed_at = none;
  claim_expires_at = none;
  resolved_at = none;
}

abbrev pub is_pending : FailureRow → Bool
is_pending r = status_eq r.replay_status pending

unfoldable pub enqueue : FailureRecord → Db → Result QueueError String × Db
unfolding to_row insert
enqueue r db = elim (insert row_id (to_row r) db.failures) [
  | none ↦ (err (constraint_failed r.id), db)
  | some rows ↦ (ok r.id, record db { failures = rows })
]

-- ORDER BY id DESC
abbrev pub id_desc : FailureRow → FailureRow → Bool
id_desc a b = text_leb b.id a.id

unfoldable pub list : FailureFilter → Db → List FailureRecord
list f db = map to_record (
    take (min (or_default f.limit default_limit) max_limit)
      (sort_by id_desc (filter (build_where f) db.failures)))

unfoldable pub get : String → Db → Option FailureRecord
get id db = elim (select row_id id db.failures) [ none ↦ none | some r ↦ some (to_record r) ]

abbrev pub set_resolved : ReplayOutcome → ℕ → FailureRow → FailureRow
set_resolved o now r = record r {
  replay_status = to_status o.status;
  replay_attempts = through_json_items (or_default o.attempts no_item);
  last_outcome = elim o.last_outcome [ none ↦ none | some v ↦ some (through_json v) ];
  resolved_at = some now;
}

unfoldable pub resolve : String → ReplayOutcome → ℕ → Db → Result QueueError (Unit {0}) × Db
resolve id o now db =
    let test : FailureRow → Bool = λ r. r.id == id && is_pending r in
    if nat_eq (changes row_id test db.failures) 0
    then (if is_some (select row_id id db.failures)
        then (err (already_resolved id), db)
        else (err (record_not_found id), db))
    else (ok tt, record db { failures = update row_id test (set_resolved o now) db.failures })

-- `claim_expires_at IS NULL OR claim_expires_at < now`
abbrev pub is_free : ℕ → FailureRow → Bool
is_free now r = elim r.claim_expires_at [ none ↦ true | some t ↦ ltb t now ]

abbrev pub set_claimed : ℕ → ℕ → FailureRow → FailureRow
set_claimed now lease_ms r = record r {
  claimed_at = some now;
  claim_expires_at = some (now + lease_ms);
}

unfoldable pub claim : String → ℕ → ℕ → Db → Result QueueError (Unit {0}) × Db
claim id lease_ms now db =
    let test : FailureRow → Bool = λ r. r.id == id && (is_pending r && is_free now r) in
    if nat_eq (changes row_id test db.failures) 0
    then elim (select row_id id db.failures) [
      | none ↦ (err (record_not_found id), db)
      | some r ↦
          if is_pending r then (err (already_claimed id), db) else (err (already_resolved id), db)
    ]
    else (ok tt, record db { failures = update row_id test (set_claimed now lease_ms) db.failures })

abbrev pub set_released : FailureRow → FailureRow
set_released r = record r { claimed_at = none; claim_expires_at = none }

unfoldable pub release : String → Db → Db
release id db = record db {
  failures = update row_id (λ r. r.id == id && is_pending r) set_released db.failures;
}

-- INSERT … ON CONFLICT(key) DO UPDATE
unfoldable pub record_execution : ExecutionEntry → Db → Db
record_execution e db = elim (insert entry_key e db.executions) [
  | some rows ↦ record db { executions = rows }
  | none ↦ record db {
    executions =
        update entry_key (λ x. x.key == e.key) (λ x. record e { key = x.key }) db.executions;
  }
]

unfoldable pub last_execution : String → Db → Option ExecutionEntry
last_execution key db = select entry_key key db.executions

-- The latest of the entries, the first of those that are as late.
abbrev later : ExecutionEntry → Option ExecutionEntry → ExecutionEntry
later e none = e
later e (some d) = if text_leb d.executed_at e.executed_at then e else d

unfoldable pub latest : List ExecutionEntry → Option ExecutionEntry
latest [] = none
latest (e ∷ es) = some (later e (latest es))

-- ORDER BY executed_at DESC LIMIT 1
unfoldable pub last_execution_by_hash : String → Db → Option ExecutionEntry
last_execution_by_hash hash db = latest (filter (λ e. e.arguments_hash == hash) db.executions)

unfoldable pub purge : FailureFilter → Db → ℕ × Db
purge f db = (
  changes row_id (build_where f) db.failures,
  record db { failures = delete row_id (build_where f) db.failures },
)
