-- ===== src/Pipeline/Classify/Laws.antt =====
-- Which attempts may be retried, and which failures are recorded.
use mcprelay.Base.{◌≡◌, refl, ◌≢◌, Bool, true, false, none, arith}
use mcprelay.Json.{obj}
use mcprelay.Pipeline.Classify.{
  FailureClass, ok, transport_pre_execution, transport_post_execution, timeout, upstream_error,
  tool_error, input_required, cancelled, FailurePhase, pre_send, post_send, timed_out, cancel,
  Thrown, AttemptOutcome, result, error, classify_attempt, failure_class_from_d4,
}

-- The classes that describe an attempt which may have run upstream, and may run again only if the
-- tool is idempotent.
abbrev pub is_ambiguous : FailureClass → Bool
is_ambiguous timeout = true
is_ambiguous upstream_error = true
is_ambiguous transport_post_execution = true
is_ambiguous _ = false

abbrev pub is_pre : FailureClass → Bool
is_pre transport_pre_execution = true
is_pre _ = false

abbrev pub may_retry : FailureClass → Bool → Bool
may_retry c idempotent = elim (is_pre c) [
  | true ↦ true
  | false ↦ elim (is_ambiguous c) [ true ↦ idempotent | false ↦ false ]
]

-- An attempt is retried exactly if it failed before it was sent, or if it may have run (a timeout,
-- an upstream error, a connection lost after sending) and the tool is idempotent.
pub retry-classify_attempt :
    (o : AttemptOutcome) (idempotent : Bool)
    → (classify_attempt o idempotent).retry
      ≡ may_retry (classify_attempt o idempotent).failure_class idempotent
unfolding classify_attempt
retry-classify_attempt (result (obj fs)) idempotent = ground arith
retry-classify_attempt (result v) idempotent = refl
retry-classify_attempt (error e cancel) idempotent = refl
retry-classify_attempt (error e timed_out) idempotent = refl
retry-classify_attempt (error e pre_send) idempotent = refl
retry-classify_attempt (error e post_send) idempotent = ground arith

abbrev IsFailure : FailureClass → Type 0
IsFailure ok = ⊥
IsFailure tool_error = ⊥
IsFailure input_required = ⊥
IsFailure cancelled = ⊥
IsFailure _ = Unit

-- An error that is no cancellation has a class that is recorded in the queue, and one that says
-- that the call failed: never `ok`, `tool_error` or `input_required`.
error-is_recorded :
    (e : Thrown) (phase : FailurePhase) (idempotent : Bool)
    → phase ≢ cancel
    → IsFailure (classify_attempt (error e phase) idempotent).failure_class
      × (failure_class_from_d4 (classify_attempt (error e phase) idempotent).failure_class ≢ none)
unfolding classify_attempt failure_class_from_d4
error-is_recorded e cancel idempotent h = absurd (h refl)
error-is_recorded e timed_out idempotent h = (tt, cc)
error-is_recorded e pre_send idempotent h = (tt, cc)
error-is_recorded e post_send idempotent h = ground arith
