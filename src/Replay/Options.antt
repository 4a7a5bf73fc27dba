-- ===== src/Replay/Options.antt =====
-- src/replay/replay-cli.ts: the parsers of `replay list`, `replay inspect` and `replay run`.
pub mod Accepted
use Prim.Native.Char.{code}
use Prim.Native.String
use mcprelay.Base.{
  ℕ, String, Bool, true, false, Option, none, some, List, [], ◌∷◌, ◌==◌, nat_eq, leb, is_some,
  concat, if◌then◌else◌,
}
use mcprelay.Base.Result.{Result, err, ok, ◌>>=◌}
use mcprelay.Runtime.{Runtime}
use mcprelay.Config.Sections.{assign_header}
use mcprelay.Queue.Record.{ReplayStatus, pending, replayed, discarded, FailureFilter}
use mcprelay.Tokens.{
  Step, refused, flag_read, value_read, Consume, with_value, consume_all, to_count,
}
use mcprelay.Replay.Run.{ReplayOptions}

-- The options of `list` and `inspect`.
pub record ReadOptions : Type 0 where
  pub config_path : Option String
  pub json : Bool
  pub id : Option String
  pub filter : FailureFilter

abbrev pub no_filter : FailureFilter
no_filter = record {
  status = none;
  tool = none;
  correlation_id = none;
  since = none;
  until = none;
  limit = none;
}

abbrev pub starts_with_dash : String → Bool
starts_with_dash String.[] = false
starts_with_dash (String.◌∷◌ c text) = nat_eq (code c) b'-'

abbrev pub unknown_option {ℓ} : {S : Type ℓ} → String → Step S
unknown_option token = refused (concat ("Unknown option '" ∷ token ∷ "'." ∷ []))

-- A step on the filter, for options that hold one.
abbrev pub on_filter {ℓ} : {S : Type ℓ} → (FailureFilter → S) → Step FailureFilter → Step S
on_filter put (refused message) = refused message
on_filter put (flag_read f) = flag_read (put f)
on_filter put (value_read f) = value_read (put f)

abbrev pub set_filter : String → String → FailureFilter → FailureFilter
set_filter token value f =
    if token == "--tool"
    then record f { tool = some value }
    else if token == "--correlation-id"
    then record f { correlation_id = some value }
    else if token == "--since"
    then record f { since = some value }
    else if token == "--until"
    then record f { until = some value }
    else f

abbrev pub consume_filter_option : Consume FailureFilter
consume_filter_option token next f =
    with_value token next (λ value. value_read (set_filter token value f))

abbrev pub status_of : String → Option ReplayStatus
status_of text =
    if text == "pending"
    then some pending
    else if text == "replayed"
    then some replayed
    else if text == "discarded"
    then some discarded
    else none

abbrev pub set_status : String → Option ReplayStatus → FailureFilter → Step FailureFilter
set_status value none f = refused (concat ("Invalid status '" ∷ value ∷ "'." ∷ []))
set_status value (some status) f = value_read (record f { status = some status })

abbrev pub consume_status : Option String → FailureFilter → Step FailureFilter
consume_status next f = with_value "--status" next (λ value. set_status value (status_of value) f)

abbrev pub set_limit : String → Option ℕ → FailureFilter → Step FailureFilter
set_limit value none f = refused (concat ("Invalid value for '--limit': " ∷ value ∷ []))
set_limit value (some n) f =
    if leb 1 n
    then value_read (record f { limit = some n })
    else refused (concat ("Invalid value for '--limit': " ∷ value ∷ []))

abbrev pub consume_limit : Runtime → Option String → FailureFilter → Step FailureFilter
consume_limit rt none f = refused "Invalid value for '--limit': undefined"
consume_limit rt (some value) f = set_limit value (to_count (rt.number_of value)) f

abbrev pub is_filter_option : String → Bool
is_filter_option token =
    if token == "--tool"
    then true
    else if token == "--correlation-id"
    then true
    else if token == "--since"
    then true
    else token == "--until"

abbrev with_filter : ReadOptions → FailureFilter → ReadOptions
with_filter o f = record o { filter = f }

-- The positional id of `inspect`; any other token is unknown.
abbrev pub consume_inspect_id : String → String → ReadOptions → Step ReadOptions
consume_inspect_id subcommand token o =
    if subcommand == "inspect"
    then (if is_some o.id
        then unknown_option token
        else if starts_with_dash token
        then unknown_option token
        else flag_read (record o { id = some token }))
    else unknown_option token

unfoldable pub consume_replay_token : Runtime → String → Consume ReadOptions
consume_replay_token rt subcommand token next o =
    if token == "--config"
    then with_value "--config" next (λ value. value_read (record o { config_path = some value }))
    else if token == "--json"
    then flag_read (record o { json = true })
    else if is_filter_option token
    then on_filter (with_filter o) (consume_filter_option token next o.filter)
    else if token == "--status"
    then on_filter (with_filter o) (consume_status next o.filter)
    else if token == "--limit"
    then on_filter (with_filter o) (consume_limit rt next o.filter)
    else consume_inspect_id subcommand token o

abbrev pub check_id : String → ReadOptions → Result String ReadOptions
check_id subcommand o =
    if subcommand == "inspect"
    then (if is_some o.id
        then ok o
        else err "Missing record id. Usage: mcprelay replay inspect <id>")
    else ok o

unfoldable pub parse_replay_tokens : Runtime → String → List String → Result String ReadOptions
unfolding consume_all consume_replay_token
parse_replay_tokens rt subcommand tokens =
    consume_all (consume_replay_token rt subcommand) tokens
      (record { config_path = none; json = false; id = none; filter = no_filter })
    >>= check_id subcommand

-- The texts before and after the first `=`.
unfoldable pub split_at_equals : String → Option (String × String)
split_at_equals String.[] = none
split_at_equals (String.◌∷◌ c text) =
    if nat_eq (code c) b'=' then some ("", text) else elim (split_at_equals text) [
      | none ↦ none
      | some (key, value) ↦ some (String.◌∷◌ c key, value)
    ]

-- `overrides[key] = value`: the assignment to `__proto__` does nothing.
abbrev pub set_override : String → Option (String × String) → ReplayOptions → Step ReplayOptions
set_override text none o =
    refused (concat ("Invalid --set '" ∷ text ∷ "'; expected key=value." ∷ []))
set_override text (some (key, value)) o =
    if key == ""
    then refused (concat ("Invalid --set '" ∷ text ∷ "'; expected key=value." ∷ []))
    else value_read (record o { overrides = assign_header key value o.overrides })

abbrev pub consume_set_override : Option String → ReplayOptions → Step ReplayOptions
consume_set_override next o =
    with_value "--set" next (λ value. set_override value (split_at_equals value) o)

abbrev pub with_run_filter : ReplayOptions → FailureFilter → ReplayOptions
with_run_filter o f = record o { filter = f }

-- The positional id; any other token is unknown.
abbrev pub consume_run_id : String → ReplayOptions → Step ReplayOptions
consume_run_id token o =
    if starts_with_dash token
    then unknown_option token
    else if o.id == ""
    then flag_read (record o { id = token })
    else unknown_option token

unfoldable pub consume_run_token : Runtime → Consume ReplayOptions
unfolding split_at_equals
consume_run_token rt token next o =
    if token == "--config"
    then with_value "--config" next (λ value. value_read (record o { config_path = some value }))
    else if token == "--set"
    then consume_set_override next o
    else if is_filter_option token
    then on_filter (with_run_filter o) (consume_filter_option token next o.filter)
    else if token == "--limit"
    then on_filter (with_run_filter o) (consume_limit rt next o.filter)
    else if token == "--all"
    then flag_read (record o { all = true })
    else if token == "--dry-run"
    then flag_read (record o { dry_run = true })
    else if token == "--force"
    then flag_read (record o { force = true })
    else if token == "--json"
    then flag_read (record o { json = true })
    else consume_run_id token o

abbrev pub run_defaults : ReplayOptions
run_defaults = record {
  id = "";
  all = false;
  filter = no_filter;
  dry_run = false;
  force = false;
  json = false;
  overrides = [];
  config_path = none;
}

abbrev pub check_batch : List (String × String) → ReplayOptions → Result String ReplayOptions
check_batch [] o = ok o
check_batch (entry ∷ overrides) o =
    err "'--set' is not supported with '--all'; replay records individually."

abbrev pub check_run : ReplayOptions → Result String ReplayOptions
check_run o =
    if o.all
    then (if o.id == ""
        then check_batch o.overrides o
        else err "Use either <id> or '--all', not both.")
    else if o.id == ""
    then err "Missing record id. Usage: mcprelay replay run <id>"
    else ok o

unfoldable pub parse_run_tokens : Runtime → List String → Result String ReplayOptions
unfolding consume_all consume_run_token
parse_run_tokens rt tokens = consume_all (consume_run_token rt) tokens run_defaults >>= check_run
