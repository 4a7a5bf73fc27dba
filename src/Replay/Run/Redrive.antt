-- ===== src/Replay/Run/Redrive.antt =====
-- src/replay/replay-run.ts: the claim, the one call, and what is stored and reported of it.
use mcprelay.Base.{
  ℕ, String, Bool, true, false, Option, none, some, [], ◌∷◌, ◌++◌, concat, or_default,
  if◌then◌else◌,
}
use mcprelay.Base.Result.{Result, err, ok}
use mcprelay.Json.{Value, str, bool, obj, Fields, no_prop, prop, Items, no_item, item, get_value}
use mcprelay.Redaction.{redact_deep, redact_message}
use mcprelay.Queue.Port.{QueueError, error_message}
use mcprelay.Queue.Record.{FailureRecord, as_replayed, ReplayOutcome, replay}
use mcprelay.Queue.Sqlite.{claim, release, resolve, record_execution}
use mcprelay.Proxy.World.{AuditEntry}
use mcprelay.Replay.Run.{
  ReplayWorld, ToolReply, ReplayDeps, exit_ok, exit_failure, claim_lease_ms, RunOutcome,
  ReplayAttempt, next, tell, complain, RunPlan, refusal_text, tell_if, returned, threw, unreachable,
  executed,
}

abbrev pub redact_text : ReplayDeps → String → String
redact_text deps text = redact_message deps.runtime text deps.config.redaction_patterns

-- The outcome of the call, its result and its error redacted.
unfoldable pub run_outcome_of : ReplayDeps → ToolReply → RunOutcome
unfolding redact_deep redact_message
run_outcome_of deps (threw message) = record {
  is_ok = false;
  result = none;
  error = some (redact_text deps message);
}
run_outcome_of deps (returned fs) =
    let value = redact_deep deps.runtime deps.config.redaction_patterns (obj fs) in
    elim (get_value "isError" fs) [
      | bool true ↦ record {
        is_ok = false;
        result = some value;
        error = some "tool reported isError";
      }
      | _ ↦ record { is_ok = true; result = some value; error = none }
    ]

unfoldable pub attempt_replay :
    ReplayDeps → FailureRecord → Fields → ReplayWorld → ReplayAttempt × ReplayWorld
unfolding run_outcome_of
attempt_replay deps r args w = elim (deps.connect w.asked r) [
  | some message ↦ (unreachable message, next w)
  | none ↦ (
    executed (run_outcome_of deps (deps.call_tool w.asked r.tool.name args)),
    next (record w { called = w.called ++ (r.tool.name, obj args) ∷ [] }),
  )
]

-- The outcome as the value that is stored.
abbrev pub outcome_value : RunOutcome → Value
outcome_value o = obj (prop "ok" (bool o.is_ok) (with_error o.error (with_result o.result)))
  where
    with_result : Option Value → Fields
    with_result none = no_prop
    with_result (some v) = prop "result" v no_prop

    with_error : Option String → Fields → Fields
    with_error none fs = fs
    with_error (some text) fs = prop "error" (str text) fs

abbrev pub append_item : Items → Value → Items
append_item no_item v = item v no_item
append_item (item u us) v = item u (append_item us v)

abbrev pub replay_outcome : ReplayDeps → FailureRecord → RunOutcome → ReplayWorld → ReplayOutcome
replay_outcome deps r o w = record {
  status = as_replayed;
  attempts = some (
      append_item r.replay.attempts
        (obj (prop "at" (str (deps.iso_now w.asked)) (prop "source" (str "replay") no_prop))));
  last_outcome = some (outcome_value o);
}

abbrev pub replayed_entry : FailureRecord → RunOutcome → AuditEntry
replayed_entry r o = record {
  kind = "replayed";
  correlation_id = r.correlation_id;
  failure_id = some r.id;
  tool_name = r.tool.name;
  detail = some (outcome_value o);
}

-- The idempotency index, after an outcome that is good.
unfoldable pub index_outcome :
    ReplayDeps → FailureRecord → RunOutcome → Option String → ReplayWorld → ReplayWorld
index_outcome deps r o none w = w
index_outcome deps r o (some key) w =
    if o.is_ok
    then record w {
      queue =
          record_execution
            (record {
              key = key;
              tool_name = r.tool.name;
              arguments_hash = r.tool.arguments_hash;
              executed_at = deps.iso_now w.asked;
              source = replay;
            })
            w.queue;
    }
    else w

unfoldable pub audit_outcome :
    ReplayDeps
    → FailureRecord
    → RunOutcome
    → Option String
    → ReplayWorld
    → Option String × ReplayWorld
unfolding index_outcome
audit_outcome deps r o key w = elim (deps.store_failure w.asked) [
  | some message ↦ (some message, w)
  | none ↦
      (none, index_outcome deps r o key (record w { audits = w.audits ++ replayed_entry r o ∷ [] }))
]

unfoldable pub after_resolve :
    ReplayDeps
    → FailureRecord
    → RunOutcome
    → Option String
    → Result QueueError (Unit {0})
    → ReplayWorld
    → Option String × ReplayWorld
unfolding audit_outcome
after_resolve deps r o key (err e) w = (some (error_message e), w)
after_resolve deps r o key (ok done) w = audit_outcome deps r o key w

-- `none`, or the message of the error that is thrown.
unfoldable pub persist_outcome :
    ReplayDeps
    → FailureRecord
    → ReplayAttempt
    → Option String
    → ReplayWorld
    → Option String × ReplayWorld
unfolding after_resolve
persist_outcome deps r (unreachable message) key w =
    (none, record w { queue = release r.id w.queue })
persist_outcome deps r (executed o) key w =
    let (done, db) = resolve r.id (replay_outcome deps r o w) (deps.now_ms w.asked) w.queue in
    after_resolve deps r o key done (record w { queue = db })

abbrev pub outcome_line : ReplayDeps → FailureRecord → RunOutcome → String
outcome_line deps r o = concat (
    deps.runtime.stringify (obj (prop "id" (str r.id) (prop "outcome" (outcome_value o) no_prop)))
    ∷ "\n"
    ∷ [])

unfoldable pub report_outcome :
    ReplayDeps → FailureRecord → ReplayAttempt → ReplayWorld → ℕ × ReplayWorld
report_outcome deps r (unreachable message) w = (
  exit_failure,
  complain
      (concat
        ("mcprelay: replay could not reach the tool (" ∷ message ∷ "); record left pending\n" ∷ []))
      w,
)
report_outcome deps r (executed o) w =
    let told = tell_if deps.options.json (outcome_line deps r o) w in
    if o.is_ok then (exit_ok, tell (concat ("replay ok: " ∷ r.id ∷ "\n" ∷ [])) told) else (
      exit_failure,
      complain
          (concat
            ("replay failed: " ∷ r.id ∷ ": " ∷ or_default o.error "unknown error" ∷ "\n" ∷ []))
          told,
    )

-- How the redrive of one record ends.
pub data Redrive : Type 0 where
  refused : Redrive
  unclaimed : QueueError → Redrive
  attempted : ReplayAttempt → Option String → Redrive

abbrev pub store_attempt :
    ReplayDeps → FailureRecord → RunPlan → ReplayAttempt × ReplayWorld → Redrive × ReplayWorld
store_attempt deps r plan (attempt, w) =
    let (thrown, w') = persist_outcome deps r attempt plan.key w in (attempted attempt thrown, w')

unfoldable pub after_claim :
    ReplayDeps
    → FailureRecord
    → RunPlan
    → Result QueueError (Unit {0})
    → ReplayWorld
    → Redrive × ReplayWorld
unfolding attempt_replay persist_outcome
after_claim deps r plan (err e) w = (
  unclaimed e,
  complain (concat ("mcprelay: cannot claim '" ∷ r.id ∷ "': " ∷ error_message e ∷ "\n" ∷ [])) w,
)
after_claim deps r plan (ok done) w =
    store_attempt deps r plan (attempt_replay deps r plan.replay_arguments w)

-- The guards, the claim, the attempt, and what is stored of it.
unfoldable pub redrive :
    ReplayDeps → FailureRecord → RunPlan → Bool → ReplayWorld → Redrive × ReplayWorld
unfolding after_claim
redrive deps r plan true w = (refused, complain (refusal_text plan) w)
redrive deps r plan false w =
    let (done, db) = claim r.id claim_lease_ms (deps.now_ms w.asked) w.queue in
    after_claim deps r plan done (record w { queue = db })

unfoldable pub exit_of : ReplayDeps → FailureRecord → Redrive × ReplayWorld → ℕ × ReplayWorld
unfolding report_outcome
exit_of deps r (refused, w) = (exit_failure, w)
exit_of deps r (unclaimed e, w) = (exit_failure, w)
exit_of deps r (attempted attempt none, w) = report_outcome deps r attempt w
exit_of deps r (attempted attempt (some message), w) =
    (exit_failure, complain (concat ("mcprelay: " ∷ message ∷ "\n" ∷ [])) w)
