-- ===== src/Proxy/Intercept/Ends.antt =====
-- How a call that passes the gates ends.
use mathlib.Core.Path.{subst}
use mcprelay.Base.{
  ℕ, ◌≤◌, String, ◌≡◌, refl, sym, ap, ◌∙◌, ◌⊎◌, inl, inr, Bool, true, false, none, some, List, [],
  ◌∷◌, ◌++◌, if◌then◌else◌,
}
use mcprelay.Base.Result.{Result, err, ok}
use mcprelay.Json.{Fields, obj, get_value}
use mcprelay.Identity.{resolve_identity}
use mcprelay.Config.{resolve_tool_policy}
use mcprelay.Pipeline.Classify.{
  FailureClass, cancelled, Thrown, FailurePhase, AttemptOutcome, result, error,
}
use mcprelay.Pipeline.Retry.{RetryResult, run_with_retry}
use mcprelay.Pipeline.Retry.Bounds.{IsFinal}
use mcprelay.Policy.Rules.{PolicyAction, PolicyDecision, allow, deny, evaluate_call}
use mcprelay.Proxy.World.{
  World, Deps, CallLogEntry, was_allowed, was_denied, was_failed, was_cancelled, ask,
}
use mcprelay.Proxy.Metadata.{CallContext, prepare_call_context, byte_length}
use mcprelay.Proxy.Record.{log_entry}
use mcprelay.Proxy.Intercept.{
  Reply, keep_result, keep_failure, end_failure, finalize_successful_call, fail_tool_call,
  retry_options, end_call, finish_call, relay_with_retry, act_on, gate_policy, gate_identity,
  intercept_tool_call, log_policy_would_deny, is_tool_error, denial, would_deny_entry,
}
use mcprelay.Proxy.Intercept.Gates.{verdict, verdict_of, refusal_of}
use mcprelay.Proxy.Intercept.Attempts.{
  requests, run-IsTried, IsQuiet, keep_failure-IsQuiet, keep_result-IsQuiet, IsLine, line,
  decision_of, reply_of, IsLastAnswer,
}

module _ (deps : Deps) (context : CallContext) where
  end_failure-IsLine :
      (e : Thrown) (phase : FailurePhase) (class : FailureClass) (attempts : ℕ) (w : World)
      → IsLine deps context attempts
          (decision_of (error e phase) class)
          w
          (end_failure deps context e class attempts w)
  unfolding end_failure log_entry IsQuiet
  end_failure-IsLine e phase cancelled attempts w =
      line deps context (log_entry deps context was_cancelled 0 attempts none none w) w w
        (refl, refl)
  end_failure-IsLine e phase class attempts w =
      let kept = keep_failure deps context class e.message attempts w in
      line deps context
        (log_entry deps context was_failed 0 attempts
          (some (record { message = e.message; code = e.code })) none kept)
        w kept (keep_failure-IsQuiet deps context class e.message attempts w)

  end_call-IsLine :
      (o : AttemptOutcome) (r : RetryResult) (w : World)
      → ((end_call deps context o r w).0 ≡ reply_of o)
        × IsLine deps context r.attempts
            (decision_of o r.classification.failure_class)
            w
            (end_call deps context o r w).1
  unfolding end_call finalize_successful_call fail_tool_call log_entry
  end_call-IsLine (result value) r w =
      let is_error = is_tool_error r.classification.failure_class in
      let kept = keep_result deps context is_error r.attempts w in
      (
        refl,
        line deps context
            (log_entry deps context (if is_error then was_failed else was_allowed)
              (byte_length deps.runtime value) r.attempts
              (if is_error then denial "isError result" else none) none kept)
            w kept (keep_result-IsQuiet deps context is_error r.attempts w),
      )
  end_call-IsLine (error e phase) r w =
      (refl, end_failure-IsLine e phase r.classification.failure_class r.attempts w)

  -- The call was run to its end, with at most as many requests as attempts, each of them with the
  -- call's own parameters; the reply is what the upstream answered to the last attempt, or that it is
  -- not connected, and one line tells of it.
  unfoldable pub IsRelayed : World → Reply × World → Type 0
  IsRelayed w (reply, w') =
      (r : RetryResult) × (v : World) × (k : ℕ) × (entry : CallLogEntry) × (run_with_retry
          (retry_options deps context) w
        ≡ (some r, v))
      × IsFinal (retry_options deps context) r
      × IsLastAnswer deps context r v
      × (reply ≡ reply_of r.outcome)
      × (k ≤ r.attempts)
      × (w'.sent ≡ requests k (obj context.metadata.params) w.sent)
      × (w'.log ≡ w.log ++ entry ∷ [])
      × (entry.decision ≡ decision_of r.outcome r.classification.failure_class)
      × (entry.attempt ≡ r.attempts)

  relay_with_retry-IsRelayed :
      (w : World)
      → 1 ≤ context.policy.retry.max_attempts
      → IsRelayed w (relay_with_retry deps context w)
  unfolding IsRelayed relay_with_retry finish_call IsLine
  relay_with_retry-IsRelayed w one =
      let (r, v, ran, final, (((k, below, sent), queue, log), last)) =
        run-IsTried deps context w one in
      let (reply, (sent', (entry, log', decision, attempt))) = end_call-IsLine r.outcome r v in
      subst (λ out. IsRelayed w (finish_call deps context out)) (sym ran)
        (
          r,
          v,
          k,
          entry,
          ran,
          final,
          last,
          reply,
          below,
          sent' ∙ sent,
          log' ∙ ap (λ (xs : List CallLogEntry). xs ++ entry ∷ []) log,
          decision,
          attempt,
        )

-- Before that, at most the line of a denial that is only tried out.
unfoldable pub IsPassed : Deps → CallContext → World → Reply × World → Type 0
unfolding IsRelayed
IsPassed deps context w out =
    (shown : World) × (shown.sent ≡ w.sent)
    × (shown.queue ≡ w.queue)
    × ((shown.log ≡ w.log)
        ⊎ ((entry : CallLogEntry) × (shown.log ≡ w.log ++ entry ∷ [])
            × (entry.decision ≡ was_denied)
            × (entry.enforced ≡ some false)))
    × IsRelayed deps context shown out

module _ (deps : Deps) (context : CallContext) (w : World)
    (one : 1 ≤ context.policy.retry.max_attempts) where
  act_on-IsPassed :
      (decision : PolicyDecision) (action : PolicyAction) (dry_run : Bool)
      → refusal_of action dry_run ≡ none
      → IsPassed deps context w (act_on deps context decision action dry_run w)
  unfolding IsPassed act_on log_policy_would_deny log_entry
  act_on-IsPassed decision allow dry_run h =
      (w, refl, refl, inl refl, relay_with_retry-IsRelayed deps context w one)
  act_on-IsPassed decision deny true h = (
    log_policy_would_deny deps context decision w,
    refl,
    refl,
    inr (would_deny_entry deps context decision w, refl, refl, refl),
    relay_with_retry-IsRelayed deps context (log_policy_would_deny deps context decision w) one,
  )
  act_on-IsPassed decision deny false h = absurd cc

  gate_identity-IsPassed :
      (resolution : Result String String)
      → verdict_of deps context.tool context.raw_arguments resolution ≡ none
      → IsPassed deps context w (gate_identity deps context resolution w)
  unfolding gate_identity gate_policy
  gate_identity-IsPassed (err reason) h = absurd cc
  gate_identity-IsPassed (ok identity) h =
      let decision = evaluate_call deps.runtime deps.config.policy (record {
        tool = context.tool;
        arguments = context.raw_arguments;
        caller = some identity;
      }) in
      act_on-IsPassed decision decision.action deps.config.policy_dry_run h

-- The context that a call is given, in the state `w`.
abbrev pub context_of : Deps → String → Fields → World → CallContext
context_of deps tool params w = (prepare_call_context deps tool params w).0.0

-- A call that no gate refuses ends with the reply of its last attempt, which is what the upstream
-- answered or threw to the parameters that were prepared, or, if it was not connected, an error that
-- says so. Between one attempt and the bound of its tool were made, at most one request was sent for
-- each, and every one with these parameters; one line is logged with the number of attempts, after
-- that of a denial that is only tried out, if there is one. The bound is at least one.
pub intercept_tool_call-IsPassed :
    (deps : Deps) (tool : String) (params : Fields) (w : World)
    → verdict deps tool params ≡ none
    → 1 ≤ (resolve_tool_policy deps.config.reliability tool).retry.max_attempts
    → IsPassed deps (context_of deps tool params w) (ask w) (intercept_tool_call deps tool params w)
unfolding intercept_tool_call prepare_call_context
intercept_tool_call-IsPassed deps tool params w h one =
    gate_identity-IsPassed deps (context_of deps tool params w) (ask w) one
      (resolve_identity deps.config.identity (get_value "_meta" params)) h
