-- ===== src/Pipeline/Retry/Backoff.antt =====
-- The delay between two attempts.
use mcprelay.Base.{ℕ, ◌+◌, ◌-◌, ◌*◌, ◌^◌, ◌≤◌, ◌<◌, min, arith}
use mcprelay.Pipeline.Retry.{RetryPolicy, backoff_delay_ms, backoff_cap_ms}

-- With a source of randomness that stays below its bound, the delay never passes the cap of 30
-- seconds, nor the exponential `base_ms * 2 ^ (n - 1)`.
pub backoff_delay_ms-le :
    (policy : RetryPolicy) (n : ℕ) (draw : ℕ → ℕ)
    → ((k : ℕ) → draw (k + 1) < k + 1)
    → (backoff_delay_ms policy n draw ≤ backoff_cap_ms)
      × (backoff_delay_ms policy n draw ≤ policy.base_ms * 2 ^ (n - 1))
unfolding backoff_delay_ms
backoff_delay_ms-le policy n draw h =
    ground (arith, h (min (policy.base_ms * 2 ^ (n - 1)) backoff_cap_ms))
