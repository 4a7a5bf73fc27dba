-- ===== src/Config/Load.antt =====
-- src/config/config.ts: loadConfig, which is the defaults, then the file, then the overrides of the
-- command line. An error is the message with which it throws.
use mcprelay.Base.{
  String, Bool, true, false, not, Option, none, some, List, [], ◌∷◌, ◌++◌, filter, map, or_default,
  concat, if◌then◌else◌,
}
use mcprelay.Base.Result.{Result, err, ok, ◌>>=◌}
use mcprelay.Json.{Value, undefined, null, obj, Fields, keys}
use mcprelay.Runtime.{Runtime}
use mcprelay.Policy.Rules.{PolicyAction, allow, deny, PolicyConfig, parse_policy_config}
use mcprelay.Config.{RelayConfig, ConfigOverrides, ReliabilityConfig, default_config}
use mcprelay.Config.Readers.{at, set_given, member}
use mcprelay.Config.Reliability.{apply_reliability}
use mcprelay.Config.Sections.{
  apply_queue_section, apply_sqlite_section, apply_redaction, apply_identity, apply_upstream,
}

-- What existsSync and readFileSync find at a path; `unreadable` has the message of the error.
pub data FileState : Type 0 where
  missing : FileState
  unreadable : String → FileState
  text : String → FileState

-- What the loader asks of its surroundings: the file system, the YAML parser (a value or the message
-- with which it throws), `new URL(text).protocol`, and the default path in the working directory.
pub record Surroundings : Type 0 where
  pub runtime : Runtime
  pub file : String → FileState
  pub parse_yaml : String → Result String Value
  pub url_protocol : String → Option String
  pub default_path : String

pub record LoadOptions : Type 0 where
  pub path : Option String
  pub overrides : ConfigOverrides

abbrev pub read_config_text : Surroundings → String → Result String (Option String)
read_config_text env path = elim (env.file path) [
  | missing ↦ ok none
  | unreadable message ↦ err (concat (path ∷ ": cannot read config: " ∷ message ∷ []))
  | text t ↦ ok (some t)
]

-- A document's top-level mapping; `none` for an empty document.
abbrev pub top_level : String → Value → Result String (Option Fields)
top_level path null = ok none
top_level path undefined = ok none
top_level path (obj fs) = ok (some fs)
top_level path value = err (at path ": expected a YAML mapping at the top level")

abbrev pub parse_config_document : Surroundings → String → String → Result String (Option Fields)
parse_config_document env t path = elim (env.parse_yaml t) [
  | err message ↦ err (concat (path ∷ ": invalid YAML: " ∷ message ∷ []))
  | ok value ↦ top_level path value
]

abbrev pub top_level_keys : String → Bool
top_level_keys =
    member
      ("reliability" ∷ "queue" ∷ "store" ∷ "redaction" ∷ "identity" ∷ "policy" ∷ "upstream" ∷ [])

abbrev pub unknown_section : String → String → String
unknown_section path key =
    concat (path ∷ ": unknown top-level section '" ∷ key ∷ "' ignored (not implemented yet)" ∷ [])

unfoldable pub apply_config_document :
    Surroundings → RelayConfig → Fields → String → Result String RelayConfig
unfolding set_given
apply_config_document env config fs path =
    let rt = env.runtime in
    set_given "reliability" fs config.reliability
      (λ v. apply_reliability rt v path config.reliability)
    >>= λ reliability.
        set_given "queue" fs config.queue
          (λ v. apply_queue_section rt env.url_protocol v (at path ": queue") config.queue)
        >>= λ queue.
            set_given "store" fs config.store
              (λ v. apply_sqlite_section rt v (at path ": store") config.store)
            >>= λ store.
                set_given "redaction" fs config.redaction_patterns
                  (λ v. apply_redaction v (at path ": redaction") config.redaction_patterns)
                >>= λ patterns.
                    set_given "identity" fs config.identity
                      (λ v. apply_identity rt v (at path ": identity") config.identity)
                    >>= λ identity.
                        set_given "policy" fs config.policy
                          (λ v. parse_policy_config rt v (at path ": policy"))
                        >>= λ policy.
                            set_given "upstream" fs config.upstream_headers (λ v.
                              apply_upstream rt v (at path ": upstream") config.upstream_headers)
                            >>= λ headers. ok (record config {
                              reliability = reliability;
                              queue = queue;
                              store = store;
                              redaction_patterns = patterns;
                              identity = identity;
                              policy = policy;
                              upstream_headers = headers;
                              warnings =
                                  config.warnings
                                  ++ map (unknown_section path)
                                      (filter (λ k. not (top_level_keys k)) (keys fs));
                            })

abbrev pub override_reliability : ConfigOverrides → ReliabilityConfig → ReliabilityConfig
override_reliability overrides r = record r {
  timeout_ms = or_default overrides.timeout_ms r.timeout_ms;
  retry = record r.retry { max_attempts = or_default overrides.max_attempts r.retry.max_attempts };
}

unfoldable pub apply_overrides : RelayConfig → ConfigOverrides → RelayConfig
apply_overrides config overrides = record config {
  reliability = override_reliability overrides config.reliability;
  policy_dry_run = or_default overrides.policy_dry_run config.policy_dry_run;
}

abbrev no_rules_warning : PolicyAction → String
no_rules_warning deny =
    "no policy rules configured: every tools/call is denied (policy.default: deny)"
no_rules_warning allow = "no policy rules configured: all tools are allowed"

abbrev policy_warnings : PolicyConfig → List String
policy_warnings policy = elim policy.rules [
  | [] ↦ no_rules_warning policy.default_action ∷ []
  | rule ∷ rules ↦ []
]

abbrev pub finish_config : ConfigOverrides → RelayConfig → RelayConfig
finish_config overrides config = record (apply_overrides config overrides) {
  warnings = config.warnings ++ policy_warnings config.policy;
}

-- The config after the file, which must be there where its path was given.
abbrev pub apply_document : Surroundings → String → Option Fields → Result String RelayConfig
apply_document env path none = ok default_config
apply_document env path (some fs) = apply_config_document env default_config fs path

abbrev pub apply_text : Surroundings → String → Bool → Option String → Result String RelayConfig
apply_text env path required none =
    if required then err (at path ": config file not found") else ok default_config
apply_text env path required (some t) =
    parse_config_document env t path >>= λ document. apply_document env path document

abbrev pub apply_file : Surroundings → String → Bool → Result String RelayConfig
apply_file env path required =
    read_config_text env path >>= λ found. apply_text env path required found

abbrev pub config_path : Surroundings → LoadOptions → String
config_path env options = or_default options.path env.default_path

abbrev is_given : Option String → Bool
is_given none = false
is_given (some path) = true

unfoldable pub load_config : Surroundings → LoadOptions → Result String RelayConfig
unfolding apply_config_document apply_overrides
load_config env options =
    apply_file env (config_path env options) (is_given options.path) >>= λ config.
    ok (finish_config options.overrides config)
