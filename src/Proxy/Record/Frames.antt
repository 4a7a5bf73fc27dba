-- ===== src/Proxy/Record/Frames.antt =====
-- What each write leaves alone.
use mcprelay.Base.{
  String, ◌≡◌, refl, inl, inr, Bool, true, false, Option, none, some, [], ◌∷◌, ◌++◌, arith,
  Option-cases,
}
use mcprelay.Proxy.World.{World, Deps, CallLogEntry, AuditEntry}
use mcprelay.Proxy.Record.{
  count_call, log_call, record_call, audit, record_auth_denial, record_denial, auth_audit,
  policy_audit,
}
use mcprelay.Proxy.Metadata.{CallContext}
use mcprelay.Policy.Rules.{PolicyDecision}

-- Nothing is sent, queued or logged.
abbrev pub IsSilent : World → World → Type 0
IsSilent w w' = (w'.sent ≡ w.sent) × (w'.queue ≡ w.queue) × (w'.log ≡ w.log)

-- Nothing is sent or queued, and one line is logged.
abbrev pub IsLogged : CallLogEntry → World → World → Type 0
IsLogged entry w w' = (w'.sent ≡ w.sent) × (w'.queue ≡ w.queue) × (w'.log ≡ w.log ++ entry ∷ [])

pub audit-IsSilent :
    (deps : Deps) (failed : String) (entry : AuditEntry) (w : World)
    → IsSilent w (audit deps failed entry w)
unfolding audit
audit-IsSilent deps failed entry w = elim (Option-cases (deps.store_failure w.asked)) [
  | inl fine ↦ ground (arith, fine)
  | inr (message, fails) ↦ ground (arith, fails)
]

record_call-IsSilent :
    (deps : Deps) (entry : CallLogEntry) (w : World) → IsSilent w (record_call deps entry w)
unfolding record_call
record_call-IsSilent deps entry w = elim (Option-cases (deps.store_failure w.asked)) [
  | inl fine ↦ ground (arith, fine)
  | inr (message, fails) ↦ ground (arith, fails)
]

count_call-IsSilent :
    (deps : Deps) (entry : CallLogEntry) (enforced : Option Bool) (w : World)
    → IsSilent w (count_call deps entry enforced w)
unfolding count_call
count_call-IsSilent deps entry (some false) w = (refl, refl, refl)
count_call-IsSilent deps entry (some true) w = record_call-IsSilent deps entry w
count_call-IsSilent deps entry none w = record_call-IsSilent deps entry w

pub log_call-IsLogged :
    (deps : Deps) (entry : CallLogEntry) (w : World) → IsLogged entry w (log_call deps entry w)
unfolding log_call
log_call-IsLogged deps entry w =
    count_call-IsSilent deps entry entry.enforced (record w { log = w.log ++ entry ∷ [] })

pub record_auth_denial-IsSilent :
    (deps : Deps) (context : CallContext) (reason : String) (w : World)
    → IsSilent w (record_auth_denial deps context reason w)
unfolding record_auth_denial
record_auth_denial-IsSilent deps context reason w =
    audit-IsSilent deps _ (auth_audit context reason) w

pub record_denial-IsSilent :
    (deps : Deps) (context : CallContext) (decision : PolicyDecision) (w : World)
    → IsSilent w (record_denial deps context decision w)
unfolding record_denial
record_denial-IsSilent deps context decision w =
    audit-IsSilent deps _ (policy_audit context decision) w
