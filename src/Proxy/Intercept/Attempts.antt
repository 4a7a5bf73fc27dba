-- ===== src/Proxy/Intercept/Attempts.antt =====
-- What a call that passes the gates sends, and what it leaves when it ends.
use mathlib.Core.Path.{subst}
use mcprelay.Base.{
  ℕ, zero, suc, ◌+◌, ◌≤◌, String, ◌≡◌, refl, sym, ap, ◌∙◌, ◌⊎◌, inl, inr, Bool, true, false, none,
  some, List, [], ◌∷◌, ◌++◌, arith, Bool-cases, Option-cases, if◌then◌else◌,
}
use mcprelay.Base.Result.{Result, err, ok}
use mcprelay.Json.{Value, obj}
use mcprelay.Pipeline.Classify.{
  Thrown, FailurePhase, pre_send, FailureClass, cancelled, AttemptOutcome, result, error,
  RecordFailureClass, failure_class_from_d4, tool_class,
}
use mcprelay.Pipeline.Retry.{RetryResult, run_with_retry}
use mcprelay.Pipeline.Retry.Bounds.{IsFinal, run_with_retry-Ends}
use mcprelay.Queue.Port.{QueueError}
use mcprelay.Queue.Sqlite.{enqueue}
use mcprelay.Proxy.World.{
  World, Deps, CallLogEntry, CallDecision, was_allowed, was_failed, was_cancelled, ask, send,
  UpstreamReply, answered, rejected,
}
use mcprelay.Proxy.Metadata.{CallContext}
use mcprelay.Proxy.Record.{
  log_call, audit_entry, failure_record, after_enqueue, enqueue_record, capture_failure,
  record_idempotent_execution,
}
use mcprelay.Proxy.Record.Frames.{audit-IsSilent, log_call-IsLogged}
use mcprelay.Proxy.Intercept.{
  plain_error, failure_phase, outcome_of, Reply, returned, threw, relay_tool_call,
  attempt_tool_call, keep_result, keep_failure, retry_options, is_tool_error,
}

-- The requests after `k` more of them.
abbrev pub requests : ℕ → Value → List Value → List Value
requests zero params sent = sent
requests (suc k) params sent = requests k params sent ++ params ∷ []

-- The outcome of an attempt that asked its questions from the `n`-th on: what the upstream answered to
-- the call's parameters, or, where it is not connected, an error of the relay's own.
abbrev pub IsAnswer : Deps → CallContext → ℕ → AttemptOutcome → Type 0
IsAnswer deps context n o =
    ((deps.connected n ≡ true)
      × ((value : Value) × (deps.reply n (obj context.metadata.params) ≡ answered value)
          × (o ≡ result value)))
    ⊎ ((deps.connected n ≡ true)
        × ((e : Thrown) × (phase : FailurePhase) × (deps.reply n (obj context.metadata.params)
              ≡ rejected e)
            × (o ≡ error e phase)))
    ⊎ ((deps.connected n ≡ false)
        × (o ≡ error (plain_error "upstream transport is not connected") pre_send))

-- At most `n` requests, each with the call's parameters, and no change of the queue or the log.
abbrev pub IsTried : CallContext → ℕ → World → World → Type 0
IsTried context n w w' =
    ((k : ℕ) × (k ≤ n) × (w'.sent ≡ requests k (obj context.metadata.params) w.sent))
    × (w'.queue ≡ w.queue)
    × (w'.log ≡ w.log)

module _ (deps : Deps) (context : CallContext) where
  attempt-IsTried :
      (n : ℕ) (w v : World)
      → IsTried context n w v
      → IsTried context (n + 1) w (attempt_tool_call deps context v).1
  unfolding attempt_tool_call relay_tool_call
  attempt-IsTried n w v ((k, below, sent), queue, log) =
      elim (Bool-cases (deps.connected v.asked)) [
        | inl up ↦
            let same : (attempt_tool_call deps context v).1 ≡ (relay_tool_call deps context v).1 =
              ground (arith, up) in
            subst (IsTried context (n + 1) w) (sym same) (
              (
                suc k,
                omega arith,
                ap (λ (xs : List Value). xs ++ obj context.metadata.params ∷ []) sent,
              ),
              queue,
              log,
            )
        | inr down ↦
            let same : (attempt_tool_call deps context v).1 ≡ ask v = ground (arith, down) in
            subst (IsTried context (n + 1) w) (sym same) ((k, omega arith, sent), queue, log)
      ]

  outcome_of-IsAnswer :
      (v w : World) (reply : UpstreamReply)
      → deps.connected v.asked ≡ true
      → deps.reply v.asked (obj context.metadata.params) ≡ reply
      → IsAnswer deps context v.asked (outcome_of deps w reply)
  unfolding outcome_of
  outcome_of-IsAnswer v w (answered value) up h = inl (up, (value, h, refl))
  outcome_of-IsAnswer v w (rejected e) up h =
      inr (inl (up, (e, failure_phase e (deps.aborted w.asked) deps.kind, h, refl)))

  attempt-IsAnswer :
      (v : World) → IsAnswer deps context v.asked (attempt_tool_call deps context v).0
  unfolding attempt_tool_call relay_tool_call
  attempt-IsAnswer v = elim (Bool-cases (deps.connected v.asked)) [
    | inl up ↦
        let same : (attempt_tool_call deps context v).0 ≡ (relay_tool_call deps context v).0 =
          ground (arith, up) in
        subst (IsAnswer deps context v.asked) (sym same)
          (outcome_of-IsAnswer v (ask (send (obj context.metadata.params) v)) _ up refl)
    | inr down ↦ inr (inr (down, ground (arith, down)))
  ]

  attempt-asked : (v : World) → (attempt_tool_call deps context v).1.asked ≡ suc v.asked
  unfolding attempt_tool_call relay_tool_call
  attempt-asked v = ground arith

  -- The last attempt of a run that ended in the state `v`.
  abbrev pub IsLastAnswer : RetryResult → World → Type 0
  IsLastAnswer r v = (n : ℕ) × (v.asked ≡ suc n) × IsAnswer deps context n r.outcome

  pub run-IsTried :
      (w : World)
      → 1 ≤ context.policy.retry.max_attempts
      → (r : RetryResult) × (v : World) × (run_with_retry (retry_options deps context) w
          ≡ (some r, v))
        × IsFinal (retry_options deps context) r
        × (IsTried context r.attempts w v × IsLastAnswer r v)
  unfolding retry_options
  run-IsTried w one =
      run_with_retry-Ends (retry_options deps context) (λ n v. IsTried context n w v)
        (λ r v. IsTried context r.attempts w v × IsLastAnswer r v)
        (record {
          again = λ n o v v' h made more below. step n o v v' h made;
          last = λ n o v v' h made below. (step n o v v' h made, answer o v v' made);
        })
        w one ((0, omega arith, refl), refl, refl)
    where
      answer :
          (o : AttemptOutcome) (v v' : World)
          → attempt_tool_call deps context v ≡ (o, v')
          → (n : ℕ) × (v'.asked ≡ suc n) × IsAnswer deps context n o
      answer o v v' made = (
        v.asked,
        sym (ap (λ (p : AttemptOutcome × World). p.1.asked) made) ∙ attempt-asked v,
        subst (IsAnswer deps context v.asked) (ap (λ (p : AttemptOutcome × World). p.0) made)
            (attempt-IsAnswer v),
      )

      step :
          (n : ℕ) (o : AttemptOutcome) (v v' : World)
          → IsTried context n w v
          → attempt_tool_call deps context v ≡ (o, v')
          → IsTried context (n + 1) w v'
      step n o v v' h made =
          subst (IsTried context (n + 1) w) (ap (λ (p : AttemptOutcome × World). p.1) made)
            (attempt-IsTried n w v h)

  -- Nothing is sent or logged; the queue may change.
  unfoldable pub IsQuiet : World → World → Type 0
  IsQuiet w w' = (w'.sent ≡ w.sent) × (w'.log ≡ w.log)

  after_enqueue-IsQuiet :
      (outcome : Result QueueError String) (w : World)
      → IsQuiet w (after_enqueue deps context outcome w)
  unfolding IsQuiet after_enqueue
  after_enqueue-IsQuiet (err e) w = (refl, refl)
  after_enqueue-IsQuiet (ok id) w =
      let (sent, queue, log) =
        audit-IsSilent deps _ (audit_entry context "captured" (some id) none) w in
      (sent, log)

  capture_failure-IsQuiet :
      (class : RecordFailureClass) (message : String) (attempts : ℕ) (w : World)
      → IsQuiet w (capture_failure deps context class message attempts w)
  unfolding IsQuiet capture_failure enqueue_record
  capture_failure-IsQuiet class message attempts w =
      elim (Option-cases (deps.queue_failure w.asked)) [
        | inl fine ↦
            let r = failure_record deps context class message attempts w in
            let (outcome, db) = enqueue r (ask w).queue in
            let same : capture_failure deps context class message attempts w
                ≡ after_enqueue deps context outcome (record (ask w) { queue = db }) =
              rw (fine, capture_failure) refl in
            subst (IsQuiet w) (sym same)
              (after_enqueue-IsQuiet outcome (record (ask w) { queue = db }))
        | inr (text, fails) ↦ ground (arith, fails)
      ]

  record_idempotent_execution-IsQuiet :
      (key : String) (w : World) → IsQuiet w (record_idempotent_execution deps context key w)
  unfolding IsQuiet record_idempotent_execution
  record_idempotent_execution-IsQuiet key w = elim (Option-cases (deps.queue_failure w.asked)) [
    | inl fine ↦ ground (arith, fine)
    | inr (text, fails) ↦ ground (arith, fails)
  ]

  pub keep_failure-IsQuiet :
      (class : FailureClass) (message : String) (attempts : ℕ) (w : World)
      → IsQuiet w (keep_failure deps context class message attempts w)
  unfolding IsQuiet keep_failure
  keep_failure-IsQuiet class message attempts w =
      elim (Option-cases (failure_class_from_d4 class)) [
        | inl skipped ↦ ground (arith, skipped)
        | inr (c, recorded) ↦ ground (arith, recorded, capture_failure-IsQuiet c message attempts w)
      ]

  pub keep_result-IsQuiet :
      (is_error : Bool) (attempts : ℕ) (w : World)
      → IsQuiet w (keep_result deps context is_error attempts w)
  unfolding IsQuiet keep_result
  keep_result-IsQuiet true attempts w =
      ground (arith, capture_failure-IsQuiet tool_class "isError result" attempts w)
  keep_result-IsQuiet false attempts w = elim (Option-cases context.idempotency_key) [
    | inl missing ↦ ground (arith, missing)
    | inr (key, given) ↦ ground (arith, given, record_idempotent_execution-IsQuiet key w)
  ]

  -- The line of a call that ended after `attempts` attempts, and nothing sent since.
  unfoldable pub IsLine : ℕ → CallDecision → World → World → Type 0
  IsLine attempts decision w w' =
      (w'.sent ≡ w.sent)
      × ((entry : CallLogEntry) × (w'.log ≡ w.log ++ entry ∷ [])
          × (entry.decision ≡ decision)
          × (entry.attempt ≡ attempts))

  pub line :
      (entry : CallLogEntry) (w kept : World)
      → IsQuiet w kept
      → IsLine entry.attempt entry.decision w (log_call deps entry kept)
  unfolding IsLine IsQuiet
  line entry w kept (sent, log) =
      let (sent', queue', log') = log_call-IsLogged deps entry kept in
      (
        sent' ∙ sent,
        (entry, log' ∙ ap (λ (xs : List CallLogEntry). xs ++ entry ∷ []) log, refl, refl),
      )

-- The decision that the line of a call gives, from its last outcome.
abbrev pub decision_of : AttemptOutcome → FailureClass → CallDecision
decision_of (result value) class = if is_tool_error class then was_failed else was_allowed
decision_of (error e phase) cancelled = was_cancelled
decision_of (error e phase) class = was_failed

abbrev pub reply_of : AttemptOutcome → Reply
reply_of (result value) = returned value
reply_of (error e phase) = threw e
