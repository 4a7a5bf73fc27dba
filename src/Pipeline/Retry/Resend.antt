-- ===== src/Pipeline/Retry/Resend.antt =====
-- What is sent again: the retry loop of src/pipeline/retry.ts with the classification of
-- src/pipeline/classify.ts.
use mcprelay.Base.{ℕ, ◌≤◌, ◌<◌, ◌≡◌, false}
use mcprelay.Pipeline.Classify.{AttemptOutcome, transport_pre_execution, classify_attempt}
use mcprelay.Pipeline.Retry.{RetryResult}

-- The run returned after attempts that, but for the last, all failed before they were sent.
pub record IsSentOnce (outcome : ℕ → AttemptOutcome) (r : RetryResult) : Type 0 where
  pub final_outcome : r.outcome ≡ outcome r.attempts
  pub unsent :
      (i : ℕ)
      → 1 ≤ i
      → i < r.attempts
      → (classify_attempt (outcome i) false).failure_class ≡ transport_pre_execution
