-- ===== src/Pipeline/Tests.antt =====
-- The pipeline on concrete calls.
use mcprelay.Base.{
  ℕ, ◌+◌, ◌*◌, ◌^◌, ◌-◌, ◌≤◌, ◌≡◌, refl, true, false, some, arith, if◌then◌else◌, nat_eq,
}
use mcprelay.Base.Int.{negsuc}
use mcprelay.Json.{dyadic, undefined, null, bool, str, num, obj, no_prop, prop, get, of_nat}
use mcprelay.Pipeline.Idempotency.{extract_idempotency_key}
use mcprelay.Pipeline.Classify.{
  Thrown, AttemptOutcome, result, error, post_send, pre_send, numeric, sdk, connection_closed,
  transport_post_execution, non_retryable, tool_error, ok, classified, classify_attempt,
}
use mcprelay.Pipeline.Retry.{
  RetryPolicy, RetryResult, RetryOptions, retry_loop, run_with_retry, backoff_delay_ms,
  backoff_cap_ms,
}
use mcprelay.Pipeline.Retry.Backoff.{backoff_delay_ms-le}
use mcprelay.Pipeline.Retry.Bounds.{IsFinal, run_with_retry-IsFinal}

abbrev closed : Thrown
closed = record {
  is_error = true;
  is_protocol = false;
  is_sdk = true;
  is_http = false;
  is_type_error = false;
  name = "SdkError";
  message = "connection closed";
  code = sdk connection_closed;
  status = 0;
}

abbrev invalid_params : Thrown
invalid_params = record closed {
  is_sdk = false;
  is_protocol = true;
  code = numeric (dyadic (negsuc 32601) 0);
}

classify_tests :
    (classify_attempt (error closed post_send) true ≡ classified transport_post_execution true)
    × (classify_attempt (error invalid_params post_send) true ≡ classified non_retryable false)
    × (classify_attempt (result (obj (prop "isError" (bool true) no_prop))) true
        ≡ classified tool_error false)
    × (classify_attempt (result null) true ≡ classified ok false)
unfolding classify_attempt get
classify_tests = (refl, refl, refl, refl)

key_tests :
    (extract_idempotency_key
        (λ n. "7")
        undefined
        (obj (prop "idempotencyKey" (num (of_nat 7)) (prop "idempotency_key" (str "k") no_prop)))
      ≡ some "k")
    × (extract_idempotency_key
          (λ n. "7")
          (obj (prop "idempotencyKey" (num (of_nat 7)) no_prop))
          null
        ≡ some "7")
unfolding extract_idempotency_key get
key_tests = (refl, refl)

abbrev three : RetryPolicy
three = record { max_attempts = 3; base_ms = 250; jitter = false }

-- The first attempt cannot be sent, the later ones lose their connection. The state counts the
-- attempts and adds up the delays.
abbrev outcomes : ℕ → AttemptOutcome
outcomes n = if nat_eq n 1 then error closed pre_send else error closed post_send

abbrev counting : RetryOptions (ℕ × ℕ)
counting = record {
  attempt = λ n w. (outcomes n, (w.0 + 1, w.1));
  classify = λ o. classify_attempt o false;
  policy = three;
  sleep = λ ms w. (w.0, w.1 + ms);
  draw = λ w n. 0;
}

run_counts : (run_with_retry counting (0, 0)).1 ≡ (2, 250)
unfolding run_with_retry retry_loop classify_attempt backoff_delay_ms
run_counts = refl

backoff_delay_ms-le_example :
    (backoff_delay_ms three 9 (λ n. 0) ≤ backoff_cap_ms)
    × (backoff_delay_ms three 9 (λ n. 0) ≤ 250 * 2 ^ (9 - 1))
backoff_delay_ms-le_example = backoff_delay_ms-le three 9 (λ n. 0) (λ k. omega arith)

run_with_retry-IsFinal_example :
    (r : RetryResult) × (w' : ℕ × ℕ) × (run_with_retry counting (0, 0) ≡ (some r, w'))
    × IsFinal counting r
run_with_retry-IsFinal_example = run_with_retry-IsFinal counting (0, 0) (omega arith)
