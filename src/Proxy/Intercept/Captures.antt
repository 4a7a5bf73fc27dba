-- ===== src/Proxy/Intercept/Captures.antt =====
-- What a failed call leaves in the queue.
use mathlib.Core.Path.{subst}
use mcprelay.Base.{
  sym, ℕ, String, ◌≡◌, refl, ap, ◌∙◌, inl, inr, Option, none, some, [], ◌∷◌, ◌++◌, arith,
  Option-cases,
}
use mcprelay.Base.Result.{Result, err, ok}
use mcprelay.Base.Table.{select, insert}
use mcprelay.Pipeline.Classify.{
  FailureClass, cancelled, Thrown, RecordFailureClass, failure_class_from_d4,
}
use mcprelay.Pipeline.Retry.{RetryResult}
use mcprelay.Json.{through_json}
use mcprelay.Redaction.{redact_value, redact_message, hash_arguments}
use mcprelay.Queue.Record.{pending}
use mcprelay.Queue.Port.{QueueError}
use mcprelay.Queue.Sqlite.{Db, FailureRow, row_id, to_row, enqueue}
use mcprelay.Proxy.World.{World, Deps, was_failed, was_cancelled, ask}
use mcprelay.Proxy.Metadata.{CallContext}
use mcprelay.Proxy.Record.{
  log_entry, audit_entry, failure_record, after_enqueue, enqueue_record, capture_failure,
}
use mcprelay.Proxy.Record.Frames.{audit-IsSilent, log_call-IsLogged}
use mcprelay.Proxy.Intercept.{keep_failure, end_failure, fail_tool_call}

unrecorded : none ≡ failure_class_from_d4 cancelled
unfolding failure_class_from_d4
unrecorded = refl

module _ (deps : Deps) (context : CallContext) where
  after_enqueue-queue :
      (outcome : Result QueueError String) (w : World)
      → (after_enqueue deps context outcome w).queue ≡ w.queue
  unfolding after_enqueue
  after_enqueue-queue (err e) w = refl
  after_enqueue-queue (ok id) w =
      (audit-IsSilent deps _ (audit_entry context "captured" (some id) none) w).1

  -- The queue with the record of the failure, where its class is recorded.
  abbrev queue_after : Option RecordFailureClass → String → ℕ → World → Db
  queue_after none message attempts w = w.queue
  queue_after (some class) message attempts w = record w.queue {
    failures =
        w.queue.failures ++ to_row (failure_record deps context class message attempts w) ∷ [];
  }

  module _ (w : World) (healthy : deps.queue_failure w.asked ≡ none)
      (fresh : select row_id (deps.new_record_id w.asked) w.queue.failures ≡ none) where
    row_is_free :
        (class : RecordFailureClass) (message : String) (attempts : ℕ)
        → select row_id
            (row_id (to_row (failure_record deps context class message attempts w)))
            w.queue.failures
          ≡ none
    unfolding to_row failure_record
    row_is_free class message attempts = fresh

    enqueue-fresh :
        (class : RecordFailureClass) (message : String) (attempts : ℕ)
        → (enqueue (failure_record deps context class message attempts w) w.queue).1
          ≡ queue_after (some class) message attempts w
    unfolding enqueue insert
    enqueue-fresh class message attempts =
        let r = failure_record deps context class message attempts w in
        let free : select row_id (row_id (to_row r)) w.queue.failures ≡ none =
          row_is_free class message attempts in
        ground (arith, free)

    capture_failure-queue :
        (class : RecordFailureClass) (message : String) (attempts : ℕ)
        → (capture_failure deps context class message attempts w).queue
          ≡ queue_after (some class) message attempts w
    unfolding enqueue_record capture_failure enqueue
    capture_failure-queue class message attempts =
        let r = failure_record deps context class message attempts w in
        let (outcome, db) = enqueue r w.queue in
        let same : capture_failure deps context class message attempts w
            ≡ after_enqueue deps context outcome (record (ask w) { queue = db }) =
          rw (healthy, capture_failure) refl in
        ap (λ (v : World). v.queue) same
        ∙ after_enqueue-queue outcome (record (ask w) { queue = db })
        ∙ enqueue-fresh class message attempts

    keep_failure-queue :
        (class : FailureClass) (message : String) (attempts : ℕ)
        → (keep_failure deps context class message attempts w).queue
          ≡ queue_after (failure_class_from_d4 class) message attempts w
    unfolding keep_failure
    keep_failure-queue class message attempts = elim (Option-cases (failure_class_from_d4 class)) [
      | inl skipped ↦ ground (arith, skipped)
      | inr (c, recorded) ↦ ground (arith, recorded, capture_failure-queue c message attempts)
    ]

    end_failure-queue :
        (e : Thrown) (class : FailureClass) (attempts : ℕ)
        → (end_failure deps context e class attempts w).queue
          ≡ queue_after (failure_class_from_d4 class) e.message attempts w
    unfolding end_failure log_entry
    end_failure-queue e cancelled attempts =
        (log_call-IsLogged deps (log_entry deps context was_cancelled 0 attempts none none w) w).1
        ∙ ap (λ o. queue_after o e.message attempts w) unrecorded
    end_failure-queue e class attempts =
        let kept = keep_failure deps context class e.message attempts w in
        (log_call-IsLogged deps
          (log_entry deps context was_failed 0 attempts
            (some (record { message = e.message; code = e.code })) none kept)
          kept).1
        ∙ keep_failure-queue class e.message attempts

-- The row of a failure: pending and free, with the redacted message and the redacted arguments of the
-- call, and the hash of its own arguments.
pub record IsCaptured (deps : Deps) (context : CallContext) (class : RecordFailureClass)
    (message : String) (attempts : ℕ) (w : World) (row : FailureRow) : Type 0 where
  pub id : row.id ≡ deps.new_record_id w.asked
  pub correlation_id : row.correlation_id ≡ context.metadata.correlation_id
  pub caller_identity : row.caller_identity ≡ context.caller.identity
  pub server_command : row.server_command ≡ deps.server_command
  pub server_transport : row.server_transport ≡ deps.kind
  pub tool_name : row.tool_name ≡ context.tool
  pub arguments_hash : row.arguments_hash ≡ hash_arguments deps.runtime context.raw_arguments
  pub arguments :
      row.arguments
      ≡ through_json
          (redact_value deps.runtime deps.config.redaction_patterns context.raw_arguments)
  pub failure_class : row.failure_class ≡ class
  pub failure_message :
      row.failure_message ≡ redact_message deps.runtime message deps.config.redaction_patterns
  pub failure_attempts : row.failure_attempts ≡ attempts
  pub replay_status : row.replay_status ≡ pending
  pub claim_expires_at : row.claim_expires_at ≡ none

-- The database after a failure: one more row, where its class is one that is recorded.
abbrev pub IsAfter :
    Deps → CallContext → Option RecordFailureClass → String → ℕ → World → Db → Type 0
IsAfter deps context none message attempts w db = db ≡ w.queue
IsAfter deps context (some class) message attempts w db =
    (row : FailureRow) × IsCaptured deps context class message attempts w row
    × (db.failures ≡ w.queue.failures ++ row ∷ [])
    × (db.executions ≡ w.queue.executions)

queue_after-IsAfter :
    (deps : Deps) (context : CallContext) (class : Option RecordFailureClass) (message : String)
    (attempts : ℕ) (w : World)
    → IsAfter deps context class message attempts w
        (queue_after deps context class message attempts w)
unfolding to_row failure_record
queue_after-IsAfter deps context none message attempts w = refl
queue_after-IsAfter deps context (some class) message attempts w = (
  to_row (failure_record deps context class message attempts w),
  record {
    id = refl;
    correlation_id = refl;
    caller_identity = refl;
    server_command = refl;
    server_transport = refl;
    tool_name = refl;
    arguments_hash = refl;
    arguments = refl;
    failure_class = refl;
    failure_message = refl;
    failure_attempts = refl;
    replay_status = refl;
    claim_expires_at = refl;
  },
  refl,
  refl,
)

-- A call that fails is captured once: where its class is one that is recorded, the queue has one more
-- row, the last, pending, with the number of attempts, the redacted message and the redacted arguments
-- (and the hash of the arguments as they were); a cancelled call leaves the queue as it was. The queue
-- does not throw, and the new record's id is not taken.
pub fail_tool_call-captures :
    (deps : Deps) (context : CallContext) (e : Thrown) (r : RetryResult) (w : World)
    → deps.queue_failure w.asked ≡ none
    → select row_id (deps.new_record_id w.asked) w.queue.failures ≡ none
    → IsAfter deps context
        (failure_class_from_d4 r.classification.failure_class)
        e.message
        r.attempts
        w
        (fail_tool_call deps context e r w).1.queue
unfolding fail_tool_call
fail_tool_call-captures deps context e r w healthy fresh =
    let class = failure_class_from_d4 r.classification.failure_class in
    subst (IsAfter deps context class e.message r.attempts w)
      (sym (
        end_failure-queue deps context w healthy fresh e r.classification.failure_class r.attempts))
      (queue_after-IsAfter deps context class e.message r.attempts w)
