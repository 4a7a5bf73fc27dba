-- ===== src/Proxy/Tests.antt =====
-- Calls through the relay, on concrete surroundings.
use mcprelay.Base.{
  String, ◌≡◌, ◌≤◌, refl, true, false, none, some, [], ◌∷◌, arith, length, nat_eq, if◌then◌else◌, ℕ,
  List, codes,
}
use mcprelay.Base.Table.{select, insert}
use mcprelay.Json.{Fields, null, str, obj, prop, no_prop, get}
use mcprelay.Config.{RelayConfig, resolve_tool_policy, default_config}
use mcprelay.Identity.{
  bearer, credential_from_meta, resolve_credential, resolve_identity, strip_credential_fields,
}
use mcprelay.Runtime.Sample.{sample}
use mcprelay.Pipeline.Classify.{
  transport_pre_execution, pre_send, classified, error, failure_class_from_d4, classify_attempt,
}
use mcprelay.Pipeline.Idempotency.{extract_idempotency_key}
use mcprelay.Pipeline.Retry.{
  RetryResult, run_with_retry, retry_loop, after_attempt, backoff_delay_ms,
}
use mcprelay.Policy.Rules.{evaluate_call, select_rule}
use mcprelay.Queue.Record.{stdio}
use mcprelay.Queue.Sqlite.{row_id, to_row, enqueue, record_execution}
use mcprelay.Proxy.World.{World, Deps, answered, ask}
use mcprelay.Proxy.Metadata.{
  CallContext, put, relayed_meta, byte_length, prepare_call_metadata, prepare_call_context,
}
use mcprelay.Proxy.Record.{
  log_call, record_call, count_call, log_entry, audit, record_auth_denial, record_denial,
  failure_record, after_enqueue, enqueue_record, capture_failure, record_idempotent_execution,
}
use mcprelay.Proxy.Intercept.{
  auth_denied_code, plain_error, failure_phase, deny_credential, log_policy_would_deny,
  deny_by_policy, outcome_of, relay_tool_call, attempt_tool_call, keep_result,
  finalize_successful_call, keep_failure, end_failure, fail_tool_call, retry_options, end_call,
  finish_call, relay_with_retry, act_on, gate_policy, gate_identity, intercept_tool_call,
}
use mcprelay.Proxy.Intercept.Gates.{verdict, IsRefusal, intercept_tool_call-IsRefusal}
use mcprelay.Proxy.Intercept.Ends.{IsPassed, context_of, intercept_tool_call-IsPassed}
use mcprelay.Proxy.Intercept.Captures.{IsAfter, fail_tool_call-captures}
use mcprelay.Proxy.Frames.{split_newline, lines_of, split_lines, push_all}
use mcprelay.Proxy.Frames.Chunks.{join_chunks, push_all-join_chunks}
use mcprelay.Proxy.Lifecycle.{
  Upstream, fresh_upstream, connected, here, later, happen, started, exited, asked_to_close,
}
use mcprelay.Proxy.Lifecycle.Closing.{reaches-closes_once}

proxy_code : Unit {0}
unfolding resolve_tool_policy bearer credential_from_meta resolve_credential resolve_identity
    strip_credential_fields get extract_idempotency_key run_with_retry retry_loop after_attempt
    backoff_delay_ms classify_attempt failure_class_from_d4 evaluate_call select_rule put
    relayed_meta byte_length prepare_call_metadata prepare_call_context log_call record_call
    count_call log_entry audit record_auth_denial record_denial failure_record after_enqueue
    enqueue_record capture_failure record_idempotent_execution failure_phase deny_credential
    log_policy_would_deny deny_by_policy outcome_of relay_tool_call attempt_tool_call keep_result
    finalize_successful_call keep_failure end_failure fail_tool_call retry_options end_call
    finish_call relay_with_retry act_on gate_policy gate_identity intercept_tool_call select insert
    enqueue to_row record_execution
proxy_code = tt

abbrev config : RelayConfig
config = record default_config {
  identity = record { profile = "local"; keys = record { key = "k1"; identity = "ann" } ∷ [] };
}

-- The upstream is reached from the second question on, and answers null.
abbrev deps : Deps
deps = record {
  runtime = sample;
  config = config;
  server_name = "echo";
  server_command = "node echo.js";
  kind = stdio;
  connected = λ n. if nat_eq n 1 then false else true;
  reply = λ n params. answered null;
  aborted = λ n. false;
  iso_now = λ n. "2026-01-01T00:00:00.000Z";
  now_ms = λ n. n;
  random_uuid = λ n. "uuid";
  new_record_id = λ n. "01A";
  store_failure = λ n. none;
  queue_failure = λ n. none;
  draw = λ n bound. 0;
}

abbrev start : World
start = record {
  asked = 0;
  sent = [];
  log = [];
  calls = [];
  audits = [];
  queue = record { failures = []; executions = [] };
  stderr = [];
  slept = [];
}

abbrev call_with : String → Fields
call_with credential =
    prop "name" (str "pay")
      (prop "_meta" (obj (prop "authorization" (str credential) no_prop)) no_prop)

-- The first attempt is not connected, the second is answered; then one line tells of both.
retried :
    (length (intercept_tool_call deps "pay" (call_with "Bearer k1") start).1.sent ≡ 1)
    × (length (intercept_tool_call deps "pay" (call_with "Bearer k1") start).1.log ≡ 1)
unfolding proxy_code
retried = (refl, refl)

refused : verdict deps "pay" (call_with "Bearer k2") ≡ some auth_denied_code
unfolding proxy_code
refused = refl

passed : verdict deps "pay" (call_with "Bearer k1") ≡ none
unfolding proxy_code
passed = refl

allowed_once : 1 ≤ (resolve_tool_policy config.reliability "pay").retry.max_attempts
unfolding proxy_code
allowed_once = omega arith

intercept_tool_call-IsRefusal_example :
    IsRefusal auth_denied_code start (intercept_tool_call deps "pay" (call_with "Bearer k2") start)
intercept_tool_call-IsRefusal_example =
    intercept_tool_call-IsRefusal deps "pay" (call_with "Bearer k2") start auth_denied_code refused

intercept_tool_call-IsPassed_example :
    IsPassed deps
      (context_of deps "pay" (call_with "Bearer k1") start)
      (ask start)
      (intercept_tool_call deps "pay" (call_with "Bearer k1") start)
intercept_tool_call-IsPassed_example =
    intercept_tool_call-IsPassed deps "pay" (call_with "Bearer k1") start passed allowed_once

abbrev pay_context : CallContext
pay_context = context_of deps "pay" (call_with "Bearer k1") start

abbrev unsent : RetryResult
unsent = record {
  attempts = 3;
  outcome = error (plain_error "gone") pre_send;
  classification = classified transport_pre_execution true;
}

no_row : select row_id "01A" start.queue.failures ≡ none
unfolding select
no_row = refl

fail_tool_call-captures_example :
    IsAfter deps pay_context
      (failure_class_from_d4 transport_pre_execution)
      "gone"
      3
      start
      (fail_tool_call deps pay_context (plain_error "gone") unsent start).1.queue
fail_tool_call-captures_example =
    fail_tool_call-captures deps pay_context (plain_error "gone") unsent start refl no_row

abbrev two_chunks : List (List ℕ)
two_chunks = codes "{}\n[" ∷ codes "1]\n\n{" ∷ []

frames : push_all [] two_chunks ≡ (codes "{}" ∷ codes "[1]" ∷ [], codes "{")
unfolding split_newline lines_of split_lines push_all
frames = refl

push_all-join_chunks_example : push_all [] two_chunks ≡ split_lines [] (join_chunks two_chunks)
push_all-join_chunks_example = push_all-join_chunks two_chunks

abbrev after_exit : Upstream
after_exit = happen (exited true) (happen started fresh_upstream)

abbrev after_close : Upstream
after_close = happen asked_to_close after_exit

reaches-closes_once_example :
    (after_exit.ended ≡ (if after_exit.closed then 1 else 0))
    × (after_close.ended ≡ (if after_close.closed then 1 else 0))
    × ((if after_exit.closed then connected after_close else false) ≡ false)
reaches-closes_once_example =
    reaches-closes_once (later (exited true) (later started here)) (later asked_to_close here)
