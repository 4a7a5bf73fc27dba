-- ===== src/Proxy/Intercept.antt =====
-- src/proxy/bridge.ts, interceptToolCall: the gates of identity and policy, the attempts, and the two
-- ways in which a call ends.
pub mod Gates
pub mod Attempts
pub mod Ends
pub mod Captures
use mcprelay.Base.{
  ℕ, ◌||◌, ◌&&◌, String, Bool, true, false, Option, none, some, List, [], ◌∷◌, ◌==◌, concat,
  if◌then◌else◌,
}
use mcprelay.Base.Int.{negsuc}
use mcprelay.Base.Result.{Result, err, ok}
use mcprelay.Json.{Number, dyadic, Value, obj, Fields}
use mcprelay.Pipeline.Classify.{
  FailureClass, tool_error, cancelled, FailurePhase, pre_send, post_send, timed_out, cancel,
  SdkErrorCode, not_connected, send_failed, request_timeout, ErrorCode, absent, numeric, sdk,
  Thrown, AttemptOutcome, result, error, ClassifiedAttempt, classify_attempt, failure_class_from_d4,
  tool_class, RecordFailureClass,
}
use mcprelay.Pipeline.Retry.{RetryOptions, RetryResult, run_with_retry}
use mcprelay.Policy.Rules.{PolicyDecision, PolicyAction, allow, deny, evaluate_call}
use mcprelay.Queue.Record.{ServerTransport, stdio, http}
use mcprelay.Proxy.World.{
  World, Deps, CallLogEntry, LoggedError, UpstreamReply, answered, rejected, ask, send, sleep,
  write_stderr, was_allowed, was_denied, was_failed, was_cancelled,
}
use mcprelay.Proxy.Metadata.{CallContext, prepare_call_context, byte_length}
use mcprelay.Proxy.Record.{
  log_call, log_entry, record_auth_denial, record_denial, capture_failure,
  record_idempotent_execution,
}

-- What the client gets: a result, or an error.
pub data Reply : Type 0 where
  returned : Value → Reply
  threw : Thrown → Reply

abbrev pub plain_error : String → Thrown
plain_error message = record {
  is_error = true;
  is_protocol = false;
  is_sdk = false;
  is_http = false;
  is_type_error = false;
  name = "Error";
  message = message;
  code = absent;
  status = 0;
}

abbrev pub protocol_error : Number → String → Thrown
protocol_error code message = record (plain_error message) {
  is_protocol = true;
  name = "ProtocolError";
  code = numeric code;
}

-- -32001
abbrev pub policy_denied_code : Number
policy_denied_code = dyadic (negsuc 32000) 0

-- -32003
abbrev pub auth_denied_code : Number
auth_denied_code = dyadic (negsuc 32002) 0

abbrev pub auth_failure_message : String → String
auth_failure_message reason = concat ("authentication failed: " ∷ reason ∷ [])

abbrev pub policy_denied_message : String → String → String
policy_denied_message tool reason = concat ("policy denied tool '" ∷ tool ∷ "': " ∷ reason ∷ [])

abbrev is_timeout_code : ErrorCode → Bool
is_timeout_code (sdk request_timeout) = true
is_timeout_code _ = false

abbrev is_unsent_code : ErrorCode → Bool
is_unsent_code (sdk not_connected) = true
is_unsent_code (sdk send_failed) = true
is_unsent_code _ = false

abbrev is_http_link : ServerTransport → Bool
is_http_link http = true
is_http_link stdio = false

unfoldable pub failure_phase : Thrown → Bool → ServerTransport → FailurePhase
failure_phase e aborted kind =
    if aborted
    then cancel
    else if e.is_error && e.name == "AbortError"
    then cancel
    else if e.is_sdk && is_timeout_code e.code
    then timed_out
    else if is_http_link kind && e.is_type_error
    then pre_send
    else if e.is_sdk && is_unsent_code e.code
    then pre_send
    else post_send

abbrev pub denial : String → Option LoggedError
denial message = some (record { message = message; code = absent })

-- The line of a refused call.
abbrev pub denied_entry : Deps → CallContext → String → World → CallLogEntry
denied_entry deps context message w = log_entry deps context was_denied 0 0 (denial message) none w

unfoldable pub deny_credential : Deps → CallContext → String → World → World
unfolding log_call log_entry record_auth_denial
deny_credential deps context reason w =
    record_auth_denial deps context reason
      (log_call deps (denied_entry deps context (auth_failure_message reason) w) w)

abbrev dry_run_notice : CallContext → PolicyDecision → World → World
dry_run_notice context decision w =
    write_stderr
      (concat (
        "mcprelay: policy dry-run: would deny tool '" ∷ context.tool ∷ "' (" ∷ decision.reason
        ∷ ")\n" ∷ []))
      w

-- The line of a call that would be refused.
abbrev pub would_deny_entry : Deps → CallContext → PolicyDecision → World → CallLogEntry
would_deny_entry deps context decision w =
    log_entry deps context was_denied 0 0
      (denial (policy_denied_message context.tool decision.reason)) (some false) w

unfoldable pub log_policy_would_deny : Deps → CallContext → PolicyDecision → World → World
unfolding log_call log_entry
log_policy_would_deny deps context decision w =
    log_call deps (would_deny_entry deps context decision w) (dry_run_notice context decision w)

unfoldable pub deny_by_policy : Deps → CallContext → PolicyDecision → World → World
unfolding log_call log_entry record_denial
deny_by_policy deps context decision w = record_denial deps context decision (
    log_call deps (denied_entry deps context (policy_denied_message context.tool decision.reason) w)
      w)

-- An error's phase is read off when it arrives.
unfoldable pub outcome_of : Deps → World → UpstreamReply → AttemptOutcome
unfolding failure_phase
outcome_of deps w (answered value) = result value
outcome_of deps w (rejected e) = error e (failure_phase e (deps.aborted w.asked) deps.kind)

unfoldable pub relay_tool_call : Deps → CallContext → World → AttemptOutcome × World
unfolding outcome_of
relay_tool_call deps context w =
    let params = obj context.metadata.params in
    let relayed = ask (send params w) in
    (outcome_of deps relayed (deps.reply w.asked params), relayed)

unfoldable pub attempt_tool_call : Deps → CallContext → World → AttemptOutcome × World
unfolding relay_tool_call
attempt_tool_call deps context w = elim (deps.connected w.asked) [
  | false ↦ (error (plain_error "upstream transport is not connected") pre_send, ask w)
  | true ↦ relay_tool_call deps context w
]

abbrev is_tool_error : FailureClass → Bool
is_tool_error tool_error = true
is_tool_error _ = false

-- What a result leaves before its line: a capture of a tool error, or an executed key.
unfoldable pub keep_result : Deps → CallContext → Bool → ℕ → World → World
unfolding capture_failure record_idempotent_execution
keep_result deps context true attempts w =
    if context.policy.capture_tool_errors
    then capture_failure deps context tool_class "isError result" attempts w
    else w
keep_result deps context false attempts w = elim context.idempotency_key [
  | none ↦ w
  | some key ↦ record_idempotent_execution deps context key w
]

unfoldable pub finalize_successful_call :
    Deps → CallContext → Value → RetryResult → World → Reply × World
unfolding keep_result log_call log_entry byte_length
finalize_successful_call deps context value r w =
    let is_error = is_tool_error r.classification.failure_class in
    let kept = keep_result deps context is_error r.attempts w in
    (
      returned value,
      log_call deps
          (log_entry deps context (if is_error then was_failed else was_allowed)
            (byte_length deps.runtime value) r.attempts
            (if is_error then denial "isError result" else none) none kept)
          kept,
    )

-- A failure of a class that is recorded is captured.
unfoldable pub keep_failure : Deps → CallContext → FailureClass → String → ℕ → World → World
unfolding capture_failure failure_class_from_d4
keep_failure deps context class message attempts w = elim (failure_class_from_d4 class) [
  | none ↦ w
  | some record_class ↦ capture_failure deps context record_class message attempts w
]

-- The decision of the line, its error, and what it leaves before it.
unfoldable pub end_failure : Deps → CallContext → Thrown → FailureClass → ℕ → World → World
unfolding keep_failure log_call log_entry
end_failure deps context e cancelled attempts w =
    log_call deps (log_entry deps context was_cancelled 0 attempts none none w) w
end_failure deps context e class attempts w =
    let kept = keep_failure deps context class e.message attempts w in
    log_call deps
      (log_entry deps context was_failed 0 attempts
        (some (record { message = e.message; code = e.code })) none kept)
      kept

unfoldable pub fail_tool_call : Deps → CallContext → Thrown → RetryResult → World → Reply × World
unfolding end_failure
fail_tool_call deps context e r w =
    (threw e, end_failure deps context e r.classification.failure_class r.attempts w)

unfoldable pub retry_options : Deps → CallContext → RetryOptions World
unfolding attempt_tool_call classify_attempt
retry_options deps context = record {
  attempt = λ n w. attempt_tool_call deps context w;
  classify = λ outcome. classify_attempt outcome context.policy.idempotent;
  policy = record {
    max_attempts = context.policy.retry.max_attempts;
    base_ms = context.policy.retry.base_ms;
    jitter = context.policy.retry.jitter;
  };
  sleep = sleep;
  draw = λ w. deps.draw w.asked;
}

unfoldable pub end_call : Deps → CallContext → AttemptOutcome → RetryResult → World → Reply × World
unfolding finalize_successful_call fail_tool_call
end_call deps context (result value) r w = finalize_successful_call deps context value r w
end_call deps context (error e phase) r w = fail_tool_call deps context e r w

-- Without any attempt the outcome is undefined, and reading its kind throws.
unfoldable pub finish_call : Deps → CallContext → Option RetryResult × World → Reply × World
unfolding end_call
finish_call deps context (none, w) =
    (threw (plain_error "Cannot read properties of undefined (reading 'kind')"), w)
finish_call deps context (some r, w) = end_call deps context r.outcome r w

unfoldable pub relay_with_retry : Deps → CallContext → World → Reply × World
unfolding finish_call retry_options run_with_retry
relay_with_retry deps context w =
    finish_call deps context (run_with_retry (retry_options deps context) w)

-- What follows the decision: the action, and whether it is only tried out.
unfoldable pub act_on :
    Deps → CallContext → PolicyDecision → PolicyAction → Bool → World → Reply × World
unfolding relay_with_retry deny_by_policy log_policy_would_deny
act_on deps context decision allow dry_run w = relay_with_retry deps context w
act_on deps context decision deny true w =
    relay_with_retry deps context (log_policy_would_deny deps context decision w)
act_on deps context decision deny false w = (
  threw (protocol_error policy_denied_code (policy_denied_message context.tool decision.reason)),
  deny_by_policy deps context decision w,
)

-- The gate of the policy.
unfoldable pub gate_policy : Deps → CallContext → PolicyDecision → World → Reply × World
unfolding act_on
gate_policy deps context decision w =
    act_on deps context decision decision.action deps.config.policy_dry_run w

-- The gate of the identity, before it.
unfoldable pub gate_identity : Deps → CallContext → Result String String → World → Reply × World
unfolding gate_policy deny_credential evaluate_call
gate_identity deps context (err reason) w = (
  threw (protocol_error auth_denied_code (auth_failure_message reason)),
  deny_credential deps context reason w,
)
gate_identity deps context (ok identity) w =
    gate_policy deps context
      (evaluate_call deps.runtime deps.config.policy
        (record { tool = context.tool; arguments = context.raw_arguments; caller = some identity }))
      w

unfoldable pub intercept_tool_call : Deps → String → Fields → World → Reply × World
unfolding gate_identity prepare_call_context
intercept_tool_call deps tool params w =
    let ((context, resolution), started) = prepare_call_context deps tool params w in
    gate_identity deps context resolution started
