-- ===== src/Pipeline/Retry.antt =====
-- src/pipeline/retry.ts: the retry loop of one logical call and its backoff. What the attempts and
-- the sleeps change is a state `W` that the loop threads through.
pub mod Backoff
pub mod Bounds
pub mod Resend
use mcprelay.Base.{
  ℕ, zero, suc, ◌+◌, ◌-◌, ◌*◌, ◌^◌, min, Bool, true, false, Option, none, some, leb, if◌then◌else◌,
}
use mcprelay.Pipeline.Classify.{AttemptOutcome, ClassifiedAttempt}

pub record RetryPolicy : Type 0 where
  pub max_attempts : ℕ
  pub base_ms : ℕ
  pub jitter : Bool

abbrev pub backoff_cap_ms : ℕ
backoff_cap_ms = 30000

-- `draw n` is Math.floor(random() * n).
unfoldable pub backoff_delay_ms : RetryPolicy → ℕ → (ℕ → ℕ) → ℕ
backoff_delay_ms policy failed_attempt draw =
    let exponential : ℕ = min (policy.base_ms * 2 ^ (failed_attempt - 1)) backoff_cap_ms in
    if policy.jitter then draw (exponential + 1) else exponential

pub record RetryResult : Type 0 where
  pub attempts : ℕ
  pub outcome : AttemptOutcome
  pub classification : ClassifiedAttempt

pub record RetryOptions {ℓ} (W : Type ℓ) : Type ℓ where
  pub attempt : ℕ → W → AttemptOutcome × W
  pub classify : AttemptOutcome → ClassifiedAttempt
  pub policy : RetryPolicy
  pub sleep : ℕ → W → W
  pub draw : W → ℕ → ℕ

module _ {ℓ} {W : Type ℓ} (options : RetryOptions W) where
  -- What the function returns after `attempts` attempts.
  abbrev pub finished : ℕ → AttemptOutcome → RetryResult
  finished attempts outcome = record {
    attempts = attempts;
    outcome = outcome;
    classification = options.classify outcome;
  }

  -- The rest of a round, after its attempt: stop, or sleep and go on with `continue`.
  unfoldable pub after_attempt :
      (ℕ → W → Option RetryResult × W) → ℕ → AttemptOutcome × W → Option RetryResult × W
  after_attempt continue attempts (outcome, w) = elim (options.classify outcome).retry [
    | false ↦ (some (finished attempts outcome), w)
    | true ↦ elim (leb options.policy.max_attempts attempts) [
      | true ↦ (some (finished attempts outcome), w)
      | false ↦
          continue attempts
            (options.sleep (backoff_delay_ms options.policy attempts (options.draw w)) w)
    ]
  ]

  -- `left` is the number of rounds that the loop's condition still allows; no attempt at all
  -- leaves the outcome undefined, `none`.
  unfoldable pub retry_loop : ℕ → ℕ → W → Option RetryResult × W
  unfolding after_attempt
  retry_loop zero attempts w = (none, w)
  retry_loop (suc left) attempts w =
      after_attempt (retry_loop left) (attempts + 1) (options.attempt (attempts + 1) w)

  unfoldable pub run_with_retry : W → Option RetryResult × W
  run_with_retry w = retry_loop options.policy.max_attempts 0 w
