-- ===== src/Cli/Run.antt =====
-- src/cli/run.ts: the parser of the command line of `run`. `url_protocol` is `new URL(text).protocol`,
-- `none` where it throws.
pub mod Accepted
pub mod RoundTrip
use mcprelay.Base.{
  ℕ, String, Bool, true, false, Option, none, some, List, [], ◌∷◌, ◌==◌, leb, is_some, concat,
  if◌then◌else◌,
}
use mcprelay.Base.Result.{Result, err, ok, ◌>>=◌}
use mcprelay.Runtime.{Runtime}
use mcprelay.Tokens.{
  Step, refused, flag_read, value_read, Consume, with_value, consume_tokens, to_count,
}

pub record RunOptions : Type 0 where
  pub config_path : Option String
  pub timeout_ms : Option ℕ
  pub max_attempts : Option ℕ
  pub policy_dry_run : Option Bool
  pub http_url : Option String
  pub identity : Option String

pub record RunInvocation : Type 0 where
  pub options : RunOptions
  pub command : Option String
  pub args : List String

abbrev pub run_usage : String
run_usage =
    "Usage: mcprelay run [options] -- <server command…>  |  mcprelay run [options] --http <url>"

abbrev pub no_options : RunOptions
no_options = record {
  config_path = none;
  timeout_ms = none;
  max_attempts = none;
  policy_dry_run = none;
  http_url = none;
  identity = none;
}

abbrev pub consume_config_path : Option String → RunOptions → Step RunOptions
consume_config_path next o =
    with_value "--config" next λ value. value_read (record o { config_path = some value })

abbrev pub consume_identity : Option String → RunOptions → Step RunOptions
consume_identity next o =
    with_value "--identity" next λ value. value_read (record o { identity = some value })

abbrev pub consume_http_url :
    (String → Option String) → Option String → RunOptions → Step RunOptions
consume_http_url url_protocol next o = with_value "--http" next λ value.
    if is_some (url_protocol value)
    then value_read (record o { http_url = some value })
    else refused (concat ("Invalid URL for '--http': " ∷ value ∷ []))

-- The option that an integer is for.
abbrev pub set_integer : String → ℕ → RunOptions → RunOptions
set_integer token n o =
    if token == "--timeout-ms"
    then record o { timeout_ms = some n }
    else record o { max_attempts = some n }

abbrev pub read_integer : String → String → Option ℕ → RunOptions → Step RunOptions
read_integer token value none o =
    refused (concat ("Invalid value for '" ∷ token ∷ "': " ∷ value ∷ []))
read_integer token value (some n) o =
    if leb 1 n
    then value_read (set_integer token n o)
    else refused (concat ("Invalid value for '" ∷ token ∷ "': " ∷ value ∷ []))

abbrev pub consume_integer_option : Runtime → String → Option String → RunOptions → Step RunOptions
consume_integer_option rt token next o =
    with_value token next λ value. read_integer token value (to_count (rt.number_of value)) o

abbrev pub consume_policy_dry_run : RunOptions → Step RunOptions
consume_policy_dry_run o = flag_read (record o { policy_dry_run = some true })

unfoldable pub consume_run_token : Runtime → (String → Option String) → Consume RunOptions
consume_run_token rt url_protocol token next o =
    if token == "--config"
    then consume_config_path next o
    else if token == "--http"
    then consume_http_url url_protocol next o
    else if token == "--timeout-ms"
    then consume_integer_option rt token next o
    else if token == "--max-attempts"
    then consume_integer_option rt token next o
    else if token == "--policy-dry-run"
    then consume_policy_dry_run o
    else if token == "--identity"
    then consume_identity next o
    else refused (concat ("Unknown option '" ∷ token ∷ "'." ∷ []))

abbrev pub is_end_mark : String → Bool
is_end_mark token = token == "--"

-- `--` and a command, where the loop stopped.
abbrev pub finish_with_stdio : List String → RunOptions → Result String RunInvocation
finish_with_stdio (mark ∷ command ∷ args) o =
    if is_end_mark mark
    then ok (record { options = o; command = some command; args = args })
    else err run_usage
finish_with_stdio _ o = err run_usage

-- A URL, where the loop did not stop at `--`.
abbrev pub finish_with_http : List String → RunOptions → Result String RunInvocation
finish_with_http [] o = ok (record { options = o; command = none; args = [] })
finish_with_http (mark ∷ rest) o =
    if is_end_mark mark
    then err "Use either '--http <url>' or '-- <server command…>', not both."
    else ok (record { options = o; command = none; args = [] })

abbrev pub finish_run : RunOptions × List String → Result String RunInvocation
finish_run (o, rest) =
    if is_some o.http_url then finish_with_http rest o else finish_with_stdio rest o

unfoldable pub parse_run_invocation :
    Runtime → (String → Option String) → List String → Result String RunInvocation
unfolding consume_tokens consume_run_token
parse_run_invocation rt url_protocol tokens =
    consume_tokens (consume_run_token rt url_protocol) is_end_mark tokens no_options >>= finish_run
