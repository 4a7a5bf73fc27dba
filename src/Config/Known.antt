-- ===== src/Config/Known.antt =====
-- No setting of a known section goes unread: a key that its mapping does not have is an error.
pub mod Keys
pub mod Parts
use mcprelay.Base.{
  ◌≡◌, refl, sym, ◌∙◌, inl, inr, String, Bool, true, not, none, List, [], ◌∷◌, arith, All, find,
  Option-cases,
}
use mcprelay.Base.Result.{Result, ok, ◌>>=◌}
use mcprelay.Base.Ensures.{Ensures, threw, gave, of_ok, to_ensures, Ensures-bind}
use mcprelay.Json.{Value, obj, Fields, keys, get}
use mcprelay.Runtime.{Runtime}
use mcprelay.Policy.Rules.{parse_policy_config, is_policy_key}
use mcprelay.Config.{default_config, RelayConfig}
use mcprelay.Config.Readers.{
  assert_known_keys, open_section, set_given, reliability_keys, queue_keys, store_keys,
  redaction_keys, identity_keys, upstream_keys,
}
use mcprelay.Config.Readers.Ensured.{IfGiven}
use mcprelay.Config.Reliability.{apply_reliability}
use mcprelay.Config.Sections.{
  apply_queue_section, apply_sqlite_section, apply_redaction, apply_identity, apply_upstream,
}
use mcprelay.Config.Known.Keys.{
  one_of, IsMapping, IsReliability, IsQueue, IsStore, IsIdentity, IsPolicy, IsUpstream,
  Ensures-IsMapping, Ensures-given,
}
use mcprelay.Config.Known.Parts.{
  IsReliability-Ensures, IsQueue-Ensures, IsStore-Ensures, IsIdentity-Ensures, IsPolicy-Ensures,
  IsUpstream-Ensures,
}
use mcprelay.Config.Load.{
  Surroundings, LoadOptions, text, apply_config_document, config_path, load_config, finish_config,
  read_config_text, parse_config_document,
}

-- Each section that is there has none but its own settings, at every level.
pub record IsRecognized (fs : Fields) : Type 0 where
  pub reliability : IfGiven IsReliability (get "reliability" fs)
  pub queue : IfGiven IsQueue (get "queue" fs)
  pub store : IfGiven IsStore (get "store" fs)
  pub redaction : IfGiven (IsMapping (one_of ("patterns" ∷ []))) (get "redaction" fs)
  pub identity : IfGiven IsIdentity (get "identity" fs)
  pub policy : IfGiven IsPolicy (get "policy" fs)
  pub upstream : IfGiven IsUpstream (get "upstream" fs)

document-Ensures :
    (env : Surroundings) (c : RelayConfig) (fs : Fields) (path : String)
    → Ensures (λ _. IsRecognized fs) (apply_config_document env c fs path)
unfolding apply_config_document apply_redaction
document-Ensures env c fs path =
    Ensures-bind
      (Ensures-given "reliability" fs _ _ IsReliability
        (λ v. IsReliability-Ensures env.runtime v _ _))
      λ _ h1.
        Ensures-bind
          (Ensures-given "queue" fs _ _ IsQueue (λ v. IsQueue-Ensures env.runtime _ v _ _))
          λ _ h2.
            Ensures-bind
              (Ensures-given "store" fs _ _ IsStore (λ v. IsStore-Ensures env.runtime v _ _))
              λ _ h3.
                Ensures-bind
                  (Ensures-given "redaction" fs _ _ (IsMapping (one_of ("patterns" ∷ [])))
                    (λ v. Ensures-IsMapping v _ _ _ _))
                  λ _ h4.
                    Ensures-bind
                      (Ensures-given "identity" fs _ _ IsIdentity
                        (λ v. IsIdentity-Ensures env.runtime v _ _))
                      λ _ h5.
                        Ensures-bind
                          (Ensures-given "policy" fs _ _ IsPolicy
                            (λ v. IsPolicy-Ensures env.runtime v _))
                          λ _ h6.
                            Ensures-bind
                              (Ensures-given "upstream" fs _ _ IsUpstream
                                (λ v. IsUpstream-Ensures env.runtime v _ _))
                              λ _ h7. gave _ (record {
                                reliability = h1;
                                queue = h2;
                                store = h3;
                                redaction = h4;
                                identity = h5;
                                policy = h6;
                                upstream = h7;
                              })

load_config-file :
    (env : Surroundings) (options : LoadOptions) (t : String) (fs : Fields)
    → env.file (config_path env options) ≡ text t
    → env.parse_yaml t ≡ ok (obj fs)
    → load_config env options ≡ (
        apply_config_document env default_config fs (config_path env options) >>= λ c.
        ok (finish_config options.overrides c))
unfolding load_config
load_config-file env options t fs found parsed =
    rw (found, load_config, read_config_text) (rw (parsed, parse_config_document) refl)

-- A file is accepted only if each of its known sections is a mapping with none but the settings of
-- that section, and so is each mapping in it that has settings: the retry policies, that of each tool
-- included, the replays, the tools' entries, the databases, the broker, the identity keys, the rules
-- of the policy (their argument matchers are not told of here) and the HTTP upstream. A setting there
-- that is misspelt is an error, never passed over. The file is there, and is read as a mapping.
pub load_config-IsRecognized :
    (env : Surroundings) (options : LoadOptions) (t : String) (fs : Fields) (c : RelayConfig)
    → env.file (config_path env options) ≡ text t
    → env.parse_yaml t ≡ ok (obj fs)
    → load_config env options ≡ ok c
    → IsRecognized fs
unfolding load_config
load_config-IsRecognized env options t fs c found parsed loaded =
    of_ok {P = λ _. IsRecognized fs} {a = c}
      (Ensures-bind (document-Ensures env default_config fs (config_path env options))
        (λ d h. gave (finish_config options.overrides d) h))
      (sym (load_config-file env options t fs found parsed) ∙ loaded)
