-- ===== src/Proxy/Record.antt =====
-- src/proxy/bridge.ts: what a call leaves behind. Each function writes to the state; where the store
-- or the queue throws, the message goes to stderr and the call goes on.
pub mod Frames
use mcprelay.Base.{
  ℕ, String, Bool, true, false, Option, none, some, List, [], ◌∷◌, ◌++◌, concat, if◌then◌else◌,
}
use mcprelay.Base.Result.{Result, err, ok}
use mcprelay.Json.{Value, null, str, num, obj, prop, no_prop, no_item, of_nat}
use mcprelay.Pipeline.Classify.{RecordFailureClass}
use mcprelay.Policy.Rules.{PolicyDecision}
use mcprelay.Redaction.{redact_value, redact_message, hash_arguments}
use mcprelay.Queue.Port.{QueueError, error_message}
use mcprelay.Queue.Record.{FailureRecord, pending, ExecutionEntry, live}
use mcprelay.Queue.Sqlite.{enqueue, record_execution}
use mcprelay.Proxy.World.{
  CallDecision, LoggedError, CallLogEntry, CallEvent, AuditEntry, World, Deps, ask, write_stderr,
  difference,
}
use mcprelay.Proxy.Metadata.{CallContext}

abbrev event_of : CallLogEntry → CallEvent
event_of entry = record {
  correlation_id = entry.correlation_id;
  timestamp = entry.timestamp;
  caller = entry.caller;
  tool = entry.tool;
  decision = entry.decision;
  latency_ms = entry.latency_ms;
  request_bytes = entry.request_bytes;
  response_bytes = entry.response_bytes;
  attempt = entry.attempt;
}

unfoldable pub record_call : Deps → CallLogEntry → World → World
record_call deps entry w = elim (deps.store_failure w.asked) [
  | some message ↦
      ask (write_stderr (concat ("mcprelay: metrics write failed: " ∷ message ∷ "\n" ∷ [])) w)
  | none ↦ ask (record w { calls = w.calls ++ event_of entry ∷ [] })
]

-- A dry-run line, whose `enforced` is false, is not counted.
unfoldable pub count_call : Deps → CallLogEntry → Option Bool → World → World
unfolding record_call
count_call deps entry (some false) w = w
count_call deps entry _ w = record_call deps entry w

unfoldable pub log_call : Deps → CallLogEntry → World → World
unfolding count_call
log_call deps entry w =
    count_call deps entry entry.enforced (record w { log = w.log ++ entry ∷ [] })

-- The entry of a call, from its context (logFields) and the fields that differ.
unfoldable pub log_entry :
    Deps
    → CallContext
    → CallDecision
    → ℕ
    → ℕ
    → Option LoggedError
    → Option Bool
    → World
    → CallLogEntry
log_entry deps context decision response_bytes attempt error enforced w = record {
  timestamp = deps.iso_now w.asked;
  correlation_id = context.metadata.correlation_id;
  trace = context.metadata.trace;
  caller = context.caller;
  server = deps.server_name;
  tool = context.tool;
  decision = decision;
  latency_ms = difference (deps.now_ms w.asked) context.started_at;
  request_bytes = context.request_bytes;
  response_bytes = response_bytes;
  attempt = attempt;
  error = error;
  enforced = enforced;
}

-- store.audit, with the text that stands before the message on stderr.
unfoldable pub audit : Deps → String → AuditEntry → World → World
audit deps failed entry w = elim (deps.store_failure w.asked) [
  | some message ↦ ask (write_stderr (concat (failed ∷ message ∷ "\n" ∷ [])) w)
  | none ↦ ask (record w { audits = w.audits ++ entry ∷ [] })
]

abbrev pub audit_entry : CallContext → String → Option String → Option Value → AuditEntry
audit_entry context kind failure_id detail = record {
  kind = kind;
  correlation_id = context.metadata.correlation_id;
  failure_id = failure_id;
  tool_name = context.tool;
  detail = detail;
}

abbrev pub auth_audit : CallContext → String → AuditEntry
auth_audit context reason =
    audit_entry context "denied" none
      (some (obj (prop "action" (str "auth") (prop "reason" (str reason) no_prop))))

unfoldable pub record_auth_denial : Deps → CallContext → String → World → World
unfolding audit
record_auth_denial deps context reason w =
    audit deps "mcprelay: auth denial audit failed: " (auth_audit context reason) w

abbrev rule_value : Option ℕ → Value
rule_value none = null
rule_value (some n) = num (of_nat n)

abbrev pub policy_audit : CallContext → PolicyDecision → AuditEntry
policy_audit context decision = audit_entry context "denied" none (
    some (
      obj (
        prop "action" (str "deny")
          (prop "rule" (rule_value decision.rule) (prop "reason" (str decision.reason) no_prop)))))

unfoldable pub record_denial : Deps → CallContext → PolicyDecision → World → World
unfolding audit
record_denial deps context decision w =
    audit deps "mcprelay: denial audit failed: " (policy_audit context decision) w

-- The record of a failure: its arguments and its message redacted, its hash of the raw arguments.
unfoldable pub failure_record :
    Deps → CallContext → RecordFailureClass → String → ℕ → World → FailureRecord
unfolding redact_value redact_message hash_arguments
failure_record deps context failure_class message attempts w =
    let patterns = deps.config.redaction_patterns in
    record {
      id = deps.new_record_id w.asked;
      correlation_id = context.metadata.correlation_id;
      captured_at = deps.iso_now w.asked;
      caller = context.caller;
      server = record {
        name = deps.server_name;
        command = deps.server_command;
        transport = deps.kind;
      };
      tool = record {
        name = context.tool;
        arguments_hash = hash_arguments deps.runtime context.raw_arguments;
        arguments = redact_value deps.runtime patterns context.raw_arguments;
      };
      failure = record {
        failure_class = failure_class;
        message = redact_message deps.runtime message patterns;
        attempts = attempts;
      };
      replay = record { status = pending; attempts = no_item; last_outcome = null };
    }

abbrev capture_failed : String → World → World
capture_failed message w =
    write_stderr (concat ("mcprelay: capture failed: " ∷ message ∷ "\n" ∷ [])) w

unfoldable pub after_enqueue : Deps → CallContext → Result QueueError String → World → World
unfolding audit
after_enqueue deps context (err e) w = capture_failed (error_message e) w
after_enqueue deps context (ok id) w =
    audit deps "mcprelay: capture failed: " (audit_entry context "captured" (some id) none) w

unfoldable pub enqueue_record : Deps → CallContext → FailureRecord → World → World
unfolding after_enqueue
enqueue_record deps context r w =
    let (outcome, db) = enqueue r w.queue in
    after_enqueue deps context outcome (record w { queue = db })

unfoldable pub capture_failure :
    Deps → CallContext → RecordFailureClass → String → ℕ → World → World
unfolding failure_record enqueue_record
capture_failure deps context failure_class message attempts w =
    let r = failure_record deps context failure_class message attempts w in
    elim (deps.queue_failure w.asked) [
      | some text ↦ ask (capture_failed text w)
      | none ↦ enqueue_record deps context r (ask w)
    ]

unfoldable pub record_idempotent_execution : Deps → CallContext → String → World → World
unfolding hash_arguments
record_idempotent_execution deps context key w = elim (deps.queue_failure w.asked) [
  | some message ↦
      ask (
        write_stderr (concat ("mcprelay: idempotency index write failed: " ∷ message ∷ "\n" ∷ []))
          w)
  | none ↦
      let e : ExecutionEntry = record {
        key = key;
        tool_name = context.tool;
        arguments_hash = hash_arguments deps.runtime context.raw_arguments;
        executed_at = deps.iso_now w.asked;
        source = live;
      } in
      ask (record w { queue = record_execution e w.queue })
]
