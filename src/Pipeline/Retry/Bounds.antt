-- ===== src/Pipeline/Retry/Bounds.antt =====
-- How many attempts the loop makes, and why it stops.
use mcprelay.Base.{
  ℕ, zero, suc, ◌+◌, ◌≤◌, ◌<◌, ◌≡◌, refl, ◌⊎◌, inl, inr, true, false, Option, some, arith,
  Bool-cases, leb,
}
use mcprelay.Pipeline.Classify.{AttemptOutcome}
use mcprelay.Pipeline.Retry.{
  RetryResult, RetryOptions, after_attempt, retry_loop, run_with_retry, backoff_delay_ms, finished,
}

-- What a finished run says of itself: its last attempt is classified, and the run stopped because
-- that attempt may not be retried or because the bound is reached.
pub record IsFinal {ℓ} {W : Type ℓ} (options : RetryOptions W) (r : RetryResult) : Type 0 where
  pub made : 1 ≤ r.attempts
  pub bounded : r.attempts ≤ options.policy.max_attempts
  pub labelled : r.classification ≡ options.classify r.outcome
  pub stopped : (r.classification.retry ≡ false) ⊎ (r.attempts ≡ options.policy.max_attempts)

module _ {ℓ} {W : Type ℓ} (options : RetryOptions W) (n : ℕ) (o : AttemptOutcome) (w : W)
    (continue : ℕ → W → Option RetryResult × W) where
  after_attempt-stop :
      ((options.classify o).retry ≡ false) ⊎ (options.policy.max_attempts ≤ n)
      → after_attempt options continue n (o, w) ≡ (some (finished options n o), w)
  unfolding after_attempt
  after_attempt-stop h = ground arith

  after_attempt-more :
      (options.classify o).retry ≡ true
      → n < options.policy.max_attempts
      → after_attempt options continue n (o, w)
        ≡ continue n (options.sleep (backoff_delay_ms options.policy n (options.draw w)) w)
  unfolding after_attempt
  after_attempt-more h k = ground arith

module _ {ℓ κ} {W : Type ℓ} (options : RetryOptions W) (P : ℕ → W → Type κ)
    (Q : RetryResult → W → Type κ) where
  -- The rule of the loop: `P n` holds after `n` attempts that were all to be retried, and `Q` holds
  -- of the run's result.
  pub record Keeps : Type (ℓ ⊔ κ) where
    pub again :
        (n : ℕ) (o : AttemptOutcome) (w w' : W)
        → P n w
        → options.attempt (n + 1) w ≡ (o, w')
        → (options.classify o).retry ≡ true
        → n + 1 < options.policy.max_attempts
        → P (n + 1) (options.sleep (backoff_delay_ms options.policy (n + 1) (options.draw w')) w')
    pub last :
        (n : ℕ) (o : AttemptOutcome) (w w' : W)
        → P n w
        → options.attempt (n + 1) w ≡ (o, w')
        → n < options.policy.max_attempts
        → Q (finished options (n + 1) o) w'

  -- The run has a result, for which `Q` holds.
  abbrev pub Ends : Option RetryResult × W → Type (ℓ ⊔ κ)
  Ends out = (r : RetryResult) × (w : W) × (out ≡ (some r, w)) × IsFinal options r × Q r w

  Ends-stop :
      Keeps
      → (n : ℕ) (o : AttemptOutcome) (w w' : W) → P n w
      → options.attempt (n + 1) w ≡ (o, w')
      → n < options.policy.max_attempts
      → ((options.classify o).retry ≡ false) ⊎ (options.policy.max_attempts ≤ n + 1)
      → (continue : ℕ → W → Option RetryResult × W)
      → Ends (after_attempt options continue (n + 1) (o, w'))
  Ends-stop keeps n o w w' h e below stop continue = (
    finished options (n + 1) o,
    w',
    after_attempt-stop options (n + 1) o w' continue stop,
    record { made = omega arith; bounded = omega arith; labelled = refl; stopped = ground arith },
    keeps.last n o w w' h e below,
  )

  retry_loop-Ends :
      Keeps
      → (left n : ℕ) (w : W) → 0 < left
      → n + left ≡ options.policy.max_attempts
      → P n w
      → Ends (retry_loop options left n w)
  unfolding retry_loop
  retry_loop-Ends keeps zero n w positive sum h = absurd (omega arith)
  retry_loop-Ends keeps (suc left) n w positive sum h =
      let o = (options.attempt (n + 1) w).0 in
      let w' = (options.attempt (n + 1) w).1 in
      elim (Bool-cases (options.classify o).retry) [
        | inl more ↦ elim (Bool-cases (leb options.policy.max_attempts (n + 1))) [
          | inl full ↦
              Ends-stop keeps n o w w' h refl (omega arith) (inr (ground arith))
                (retry_loop options left)
          | inr room ↦
              rw
                (after_attempt-more options (n + 1) o w' (retry_loop options left) more
                  (ground arith))
                (retry_loop-Ends keeps left (n + 1)
                  (options.sleep (backoff_delay_ms options.policy (n + 1) (options.draw w')) w')
                  (ground arith) (omega arith) (keeps.again n o w w' h refl more (ground arith)))
        ]
        | inr stop ↦
            Ends-stop keeps n o w w' h refl (omega arith) (inl stop) (retry_loop options left)
      ]

  pub run_with_retry-Ends :
      Keeps → (w : W) → 1 ≤ options.policy.max_attempts → P 0 w → Ends (run_with_retry options w)
  unfolding run_with_retry
  run_with_retry-Ends keeps w one h =
      retry_loop-Ends keeps options.policy.max_attempts 0 w (omega arith) (omega arith) h

-- A run with a bound of at least one attempt returns: it made between one attempt and the bound,
-- its classification is that of its last outcome, and it stopped because that outcome may not be
-- retried or because the bound is reached.
pub run_with_retry-IsFinal {ℓ} :
    {W : Type ℓ} (options : RetryOptions W) (w : W)
    → 1 ≤ options.policy.max_attempts
    → (r : RetryResult) × (w' : W) × (run_with_retry options w ≡ (some r, w')) × IsFinal options r
run_with_retry-IsFinal options w one =
    let (r, w', e, final, _) =
      run_with_retry-Ends {ℓ, 0} options (λ _ _. Unit) (λ _ _. Unit)
        (record { again = λ _ _ _ _ _ _ _ _. tt; last = λ _ _ _ _ _ _ _. tt }) w one tt in
    (r, w', e, final)
