-- ===== src/Proxy/Intercept/Gates.antt =====
-- What a call that a gate refuses leaves behind.
use mcprelay.Base.{String, ◌≡◌, refl, ◌∙◌, Bool, true, false, Option, none, some, [], ◌∷◌, ◌++◌}
use mcprelay.Base.Result.{Result, err, ok}
use mcprelay.Json.{Number, Fields, get_value, Value}
use mcprelay.Pipeline.Classify.{Thrown, numeric}
use mcprelay.Identity.{resolve_identity}
use mcprelay.Policy.Rules.{PolicyAction, PolicyDecision, allow, deny, evaluate_call}
use mcprelay.Proxy.World.{World, Deps, CallLogEntry, was_denied}
use mcprelay.Proxy.Metadata.{CallContext, prepare_call_context}
use mcprelay.Proxy.Record.{log_call}
use mcprelay.Proxy.Record.Frames.{
  IsSilent, record_auth_denial-IsSilent, record_denial-IsSilent, log_call-IsLogged,
}
use mcprelay.Proxy.Intercept.{
  Reply, threw, denied_entry, protocol_error, auth_failure_message, policy_denied_message,
  auth_denied_code, policy_denied_code, deny_credential, deny_by_policy, act_on, gate_identity,
  gate_policy, intercept_tool_call,
}

-- The code with which a call is refused.
abbrev pub refusal_of : PolicyAction → Bool → Option Number
refusal_of deny false = some policy_denied_code
refusal_of _ _ = none

abbrev pub verdict_of : Deps → String → Value → Result String String → Option Number
verdict_of deps tool raw (err reason) = some auth_denied_code
verdict_of deps tool raw (ok identity) =
    refusal_of
      (evaluate_call deps.runtime deps.config.policy
        (record { tool = tool; arguments = raw; caller = some identity })).action
      deps.config.policy_dry_run

abbrev pub verdict : Deps → String → Fields → Option Number
verdict deps tool params =
    verdict_of deps tool (get_value "arguments" params)
      (resolve_identity deps.config.identity (get_value "_meta" params))

-- An error of that code, nothing sent or captured, and one line in the log, a denial.
abbrev pub IsRefusal : Number → World → Reply × World → Type 0
IsRefusal code w (reply, w') =
    ((e : Thrown) × (reply ≡ threw e) × (e.code ≡ numeric code))
    × (w'.sent ≡ w.sent)
    × (w'.queue ≡ w.queue)
    × ((entry : CallLogEntry) × (w'.log ≡ w.log ++ entry ∷ [])
        × (entry.decision ≡ was_denied)
        × (entry.attempt ≡ 0))

unwrap_code : {m n : Number} → ◌≡◌ {A = Option Number} (some m) (some n) → numeric m ≡ numeric n
unwrap_code h = cc

refusal :
    (deps : Deps) (code : Number) (e : Thrown) (entry : CallLogEntry) (w w' : World)
    → e.code ≡ numeric code
    → entry.decision ≡ was_denied
    → entry.attempt ≡ 0
    → IsSilent (log_call deps entry w) w'
    → IsRefusal code w (threw e, w')
refusal deps code e entry w w' h i j silent =
    let (sent, queue, log) = silent in
    let (sent', queue', log') = log_call-IsLogged deps entry w in
    ((e, refl, h), sent ∙ sent', queue ∙ queue', (entry, log ∙ log', i, j))

act_on-IsRefusal :
    (deps : Deps) (context : CallContext) (decision : PolicyDecision) (action : PolicyAction)
    (dry_run : Bool) (w : World) (code : Number)
    → refusal_of action dry_run ≡ some code
    → IsRefusal code w (act_on deps context decision action dry_run w)
unfolding act_on deny_by_policy
act_on-IsRefusal deps context decision allow dry_run w code h = absurd cc
act_on-IsRefusal deps context decision deny true w code h = absurd cc
act_on-IsRefusal deps context decision deny false w code h =
    let message = policy_denied_message context.tool decision.reason in
    let entry = denied_entry deps context message w in
    refusal deps code (protocol_error policy_denied_code message) entry w
      (deny_by_policy deps context decision w) (unwrap_code h) refl refl
      (record_denial-IsSilent deps context decision (log_call deps entry w))

gate_identity-IsRefusal :
    (deps : Deps) (context : CallContext) (resolution : Result String String) (w : World)
    (code : Number)
    → verdict_of deps context.tool context.raw_arguments resolution ≡ some code
    → IsRefusal code w (gate_identity deps context resolution w)
unfolding gate_identity gate_policy deny_credential
gate_identity-IsRefusal deps context (err reason) w code h =
    let message = auth_failure_message reason in
    let entry = denied_entry deps context message w in
    refusal deps code (protocol_error auth_denied_code message) entry w
      (deny_credential deps context reason w) (unwrap_code h) refl refl
      (record_auth_denial-IsSilent deps context reason (log_call deps entry w))
gate_identity-IsRefusal deps context (ok identity) w code h =
    let decision =
      evaluate_call deps.runtime deps.config.policy (record {
        tool = context.tool;
        arguments = context.raw_arguments;
        caller = some identity;
      }) in
    act_on-IsRefusal deps context decision decision.action deps.config.policy_dry_run w code h

-- A call with an unknown credential, or one that the policy denies unless it is only tried out, is
-- refused with its code (-32003 or -32001): nothing is sent upstream or put into the queue, and one
-- line is logged, a denial with no attempt.
pub intercept_tool_call-IsRefusal :
    (deps : Deps) (tool : String) (params : Fields) (w : World) (code : Number)
    → verdict deps tool params ≡ some code
    → IsRefusal code w (intercept_tool_call deps tool params w)
unfolding intercept_tool_call prepare_call_context
intercept_tool_call-IsRefusal deps tool params w code h =
    let ((context, resolution), started) = prepare_call_context deps tool params w in
    gate_identity-IsRefusal deps context resolution started code h
