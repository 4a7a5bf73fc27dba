-- ===== src/Config/Valid/Loaded.antt =====
-- What loadConfig accepts, whatever the file says.
use mcprelay.Base.{
  ◌≤◌, ◌≡◌, ◌≢◌, refl, inl, String, Bool, true, false, not, Option, none, some, List, [], ◌∷◌, ◌==◌,
  eq_iff, and_true, arith, All, all,
}
use mcprelay.Base.Result.{ok}
use mcprelay.Base.Ensures.{Ensures, threw, gave, of_ok, to_ensures, Ensures-bind, Ensures-after}
use mcprelay.Json.{Value, Fields}
use mcprelay.Runtime.{Runtime}
use mcprelay.Redaction.{default_redaction_patterns}
use mcprelay.Policy.Rules.{PolicyConfig, parse_policy_config}
use mcprelay.Policy.Rules.Accepted.{IsRule, parse_policy_config-IsRule}
use mcprelay.Config.{
  ToolOverride, ReliabilityConfig, RelayConfig, ConfigOverrides, default_config, override_of,
  ToolPolicy, tool_policy, resolve_tool_policy,
}
use mcprelay.Config.Readers.{set_given}
use mcprelay.Config.Readers.Ensured.{IfGiven, Ensures-set}
use mcprelay.Config.Load.{
  Surroundings, LoadOptions, apply_config_document, apply_overrides, apply_document, apply_text,
  finish_config, config_path, load_config, override_reliability, parse_config_document,
  read_config_text,
}
use mcprelay.Config.Valid.{IsOverride, IsTool, IsReliability, IsReliability-Ensures}
use mcprelay.Config.Valid.Sections.{
  IsQueue, IsStore, IsIdentity, IsQueue-Ensures, IsStore-Ensures, IsIdentity-Ensures,
  redaction-Ensures,
}

pub record IsValid (env : Surroundings) (c : RelayConfig) : Type 0 where
  pub reliability : IsReliability c.reliability
  pub queue : IsQueue env.url_protocol c.queue
  pub store : IsStore c.store
  pub patterns : All (λ s. s ≢ "") c.redaction_patterns
  pub identity : IsIdentity c.identity
  pub rules : All (IsRule env.runtime) c.policy.rules

-- The overrides are in range, as the command line has them.
pub record IsInRange (o : ConfigOverrides) : Type 0 where
  pub timeout : IfGiven (λ n. 1 ≤ n) o.timeout_ms
  pub attempts : IfGiven (λ n. 1 ≤ n) o.max_attempts

all_filled : (xs : List String) → all (λ s. not (s == "")) xs ≡ true → All (λ s. s ≢ "") xs
all_filled [] h = tt
all_filled (x ∷ xs) h =
    let (here, there) = and_true (not (x == "")) (all (λ s. not (s == "")) xs) h in
    (λ e. ground (arith, eq_iff x ""), all_filled xs there)

default_patterns-filled : all (λ s. not (s == "")) default_redaction_patterns ≡ true
default_patterns-filled = refl

filled : (s : String) → s == "" ≡ false → s ≢ ""
filled s h e = ground (arith, eq_iff s "")

policy-Ensures :
    (rt : Runtime) (raw : Value) (label : String)
    → Ensures (λ (p : PolicyConfig). All (IsRule rt) p.rules) (parse_policy_config rt raw label)
policy-Ensures rt raw label =
    to_ensures (parse_policy_config rt raw label) (parse_policy_config-IsRule rt raw label)

override-IsReliability :
    (o : ConfigOverrides) (r : ReliabilityConfig)
    → IsInRange o
    → IsReliability r
    → IsReliability (override_reliability o r)
override-IsReliability o r h k = record {
  timeout = ground arith;
  attempts = ground arith;
  tools = k.tools;
}

module _ (env : Surroundings) where
  default_config-IsValid : IsValid env default_config
  default_config-IsValid = record {
    reliability = record { timeout = omega arith; attempts = omega arith; tools = tt };
    queue = record {
      path = filled _ refl;
      url = inl refl;
      exchange = filled _ refl;
      queue = filled _ refl;
    };
    store = filled _ refl;
    patterns = all_filled default_redaction_patterns default_patterns-filled;
    identity = record { profile = filled _ refl; filled = tt; distinct = tt };
    rules = tt;
  }

  document-Ensures :
      (c : RelayConfig) (fs : Fields) (path : String)
      → IsValid env c
      → Ensures (IsValid env) (apply_config_document env c fs path)
  unfolding apply_config_document
  document-Ensures c fs path h =
      Ensures-bind
        (Ensures-set "reliability" fs _ _ h.reliability
          (λ v. IsReliability-Ensures env.runtime v path c.reliability h.reliability))
        λ reliability k1.
          Ensures-bind
            (Ensures-set "queue" fs _ _ h.queue
              (λ v. IsQueue-Ensures env.url_protocol env.runtime v _ c.queue h.queue))
            λ queue k2.
              Ensures-bind
                (Ensures-set "store" fs _ _ h.store
                  (λ v. IsStore-Ensures env.runtime v _ c.store h.store))
                λ store k3.
                  Ensures-bind
                    (Ensures-set "redaction" fs _ _ h.patterns
                      (λ v. redaction-Ensures v _ c.redaction_patterns h.patterns))
                    λ patterns k4.
                      Ensures-bind
                        (Ensures-set "identity" fs _ _ h.identity
                          (λ v. IsIdentity-Ensures env.runtime v _ c.identity h.identity))
                        λ identity k5.
                          Ensures-bind
                            (Ensures-set "policy" fs _ _ h.rules
                              (λ v. policy-Ensures env.runtime v _))
                            λ policy k6. Ensures-after (set_given "upstream" fs _ _) λ headers.
                              gave _ (record {
                                reliability = k1;
                                queue = k2;
                                store = k3;
                                patterns = k4;
                                identity = k5;
                                rules = k6;
                              })

  apply_document-Ensures :
      (path : String) (document : Option Fields)
      → Ensures (IsValid env) (apply_document env path document)
  apply_document-Ensures path none = gave _ default_config-IsValid
  apply_document-Ensures path (some fs) =
      document-Ensures default_config fs path default_config-IsValid

  text-Ensures :
      (path : String) (required : Bool) (found : Option String)
      → Ensures (IsValid env) (apply_text env path required found)
  text-Ensures path true none = threw _
  text-Ensures path false none = gave _ default_config-IsValid
  text-Ensures path required (some t) =
      Ensures-after (parse_config_document env t path) λ d. apply_document-Ensures path d

  finish_config-IsValid :
      (o : ConfigOverrides) (c : RelayConfig)
      → IsInRange o
      → IsValid env c
      → IsValid env (finish_config o c)
  unfolding apply_overrides
  finish_config-IsValid o c h k = record {
    reliability = override-IsReliability o c.reliability h k.reliability;
    queue = k.queue;
    store = k.store;
    patterns = k.patterns;
    identity = k.identity;
    rules = k.rules;
  }

override_of-IsOverride :
    (tool : String) (os : List (String × ToolOverride))
    → All IsTool os
    → IfGiven IsOverride (override_of tool os)
override_of-IsOverride tool [] h = tt
override_of-IsOverride tool ((name, o) ∷ os) (k, ks) =
    ground (arith, override_of-IsOverride tool os ks)

-- The policy of a tool allows a call at least one attempt and one millisecond.
abbrev pub IsUsable : ToolPolicy → Type 0
IsUsable p = (1 ≤ p.timeout_ms) × (1 ≤ p.retry.max_attempts)

tool_policy-IsUsable :
    (r : ReliabilityConfig) (o : Option ToolOverride)
    → IsReliability r
    → IfGiven IsOverride o
    → IsUsable (tool_policy r o)
tool_policy-IsUsable r none h k = (h.timeout, h.attempts)
tool_policy-IsUsable r (some o) h k = ground (arith, k.timeout, k.attempts)

resolve_tool_policy-IsUsable :
    (r : ReliabilityConfig) (tool : String)
    → IsReliability r
    → IsUsable (resolve_tool_policy r tool)
unfolding resolve_tool_policy
resolve_tool_policy-IsUsable r tool h =
    tool_policy-IsUsable r (override_of tool r.per_tool) h
      (override_of-IsOverride tool r.per_tool h.tools)

-- A configuration that is loaded, whatever the file says, is one that the relay can run on: each
-- section is in range, keys and patterns are not empty, no key is there twice, every rule of the
-- policy is one that may be run, and every tool has at least one attempt and one millisecond. The
-- overrides of the command line are in range.
pub load_config-IsValid :
    (env : Surroundings) (options : LoadOptions)
    → IsInRange options.overrides
    → (c : RelayConfig) → load_config env options ≡ ok c
    → IsValid env c × ((tool : String) → IsUsable (resolve_tool_policy c.reliability tool))
unfolding load_config
load_config-IsValid env options h c loaded =
    let path = config_path env options in
    let valid : IsValid env c =
      of_ok {P = IsValid env}
        (Ensures-bind
          (Ensures-after (read_config_text env path) (λ found. text-Ensures env path _ found))
          (λ d k. gave _ (finish_config-IsValid env options.overrides d h k)))
        loaded in
    (valid, λ tool. resolve_tool_policy-IsUsable c.reliability tool valid.reliability)
