-- ===== src/Cli/Run/RoundTrip.antt =====
-- Every invocation that the parser of `run` may give can be written as a command line.
use mcprelay.Base.{
  ℕ, ◌≤◌, ◌≡◌, refl, ◌∙◌, ap, String, Bool, true, false, Option, none, some, List, [], ◌∷◌, arith,
  is_some,
}
use mcprelay.Base.Result.{Result, ok, ◌>>=◌}
use mcprelay.Json.{of_nat}
use mcprelay.Runtime.{Runtime}
use mcprelay.Tokens.{value_read, consume_tokens, to_count}
use mcprelay.Tokens.Laws.{consume_tokens-value}
use mcprelay.Cli.Run.{
  RunOptions, RunInvocation, no_options, consume_run_token, read_integer, set_integer,
  consume_integer_option, consume_http_url, is_end_mark, finish_run, parse_run_invocation,
}
use mcprelay.Config.Readers.Ensured.{IfGiven}
use mcprelay.Cli.Run.Accepted.{HasTarget, IsCallable}

abbrev put : String → Option String → List String → List String
put flag none rest = rest
put flag (some value) rest = flag ∷ value ∷ rest

abbrev put_count : Runtime → String → Option ℕ → List String → List String
put_count rt flag none rest = rest
put_count rt flag (some n) rest = flag ∷ rt.text_of_nat n ∷ rest

abbrev put_flag : String → Option Bool → List String → List String
put_flag flag none rest = rest
put_flag flag (some b) rest = flag ∷ rest

abbrev target_tokens : Option String → List String → List String
target_tokens none args = []
target_tokens (some command) args = "--" ∷ command ∷ args

-- The options that are given, each with its value, and then the command.
pub command_line : Runtime → RunInvocation → List String
command_line rt i = put "--config" i.options.config_path (
    put_count rt "--timeout-ms" i.options.timeout_ms (
      put_count rt "--max-attempts" i.options.max_attempts (
        put_flag "--policy-dry-run" i.options.policy_dry_run (
          put "--http" i.options.http_url
            (put "--identity" i.options.identity (target_tokens i.command i.args))))))

-- The number is read back from its text, as it is below 2 ^ 53.
abbrev pub IsReadable : Runtime → ℕ → Type 0
IsReadable rt n = rt.number_of (rt.text_of_nat n) ≡ of_nat n

read_integer-some :
    (token value : String) (n : ℕ) (o : RunOptions)
    → 1 ≤ n
    → read_integer token value (some n) o ≡ value_read (set_integer token n o)
read_integer-some token value n o h = ground arith

module _ (rt : Runtime) (url_protocol : String → Option String) where
  abbrev run : List String → RunOptions → Result String (RunOptions × List String)
  run tokens o = consume_tokens (consume_run_token rt url_protocol) is_end_mark tokens o

  run-config :
      (x : Option String) (rest : List String) (o : RunOptions)
      → run (put "--config" x rest) (record o { config_path = none })
        ≡ run rest (record o { config_path = x })
  unfolding consume_tokens consume_run_token
  run-config none rest o = refl
  run-config (some v) rest o = refl

  run-identity :
      (x : Option String) (rest : List String) (o : RunOptions)
      → run (put "--identity" x rest) (record o { identity = none })
        ≡ run rest (record o { identity = x })
  unfolding consume_tokens consume_run_token
  run-identity none rest o = refl
  run-identity (some v) rest o = refl

  run-dry :
      (x : Option Bool) (rest : List String) (o : RunOptions)
      → IfGiven (λ b. b ≡ true) x
      → run (put_flag "--policy-dry-run" x rest) (record o { policy_dry_run = none })
        ≡ run rest (record o { policy_dry_run = x })
  unfolding consume_tokens consume_run_token
  run-dry none rest o h = refl
  run-dry (some true) [] o h = refl
  run-dry (some true) (v ∷ rest) o h = refl
  run-dry (some false) rest o h = absurd cc

  run-value :
      (token value : String) (rest : List String) (o p : RunOptions)
      → is_end_mark token ≡ false
      → consume_run_token rt url_protocol token (some value) o ≡ value_read p
      → run (token ∷ value ∷ rest) o ≡ run rest p
  run-value token value rest o p h k =
      consume_tokens-value (consume_run_token rt url_protocol) is_end_mark token value rest o p h k

  consume_http_url-valid :
      (url : String) (o : RunOptions)
      → is_some (url_protocol url) ≡ true
      → consume_http_url url_protocol (some url) o ≡ value_read (record o { http_url = some url })
  consume_http_url-valid url o h = rw h refl

  run-http :
      (x : Option String) (rest : List String) (o : RunOptions)
      → IfGiven (λ url. is_some (url_protocol url) ≡ true) x
      → run (put "--http" x rest) (record o { http_url = none })
        ≡ run rest (record o { http_url = x })
  unfolding consume_run_token
  run-http none rest o h = refl
  run-http (some v) rest o h =
      run-value "--http" v rest _ _ refl (consume_http_url-valid v (record o { http_url = none }) h)

  to_count-of_nat : (n : ℕ) → to_count (of_nat n) ≡ some n
  to_count-of_nat n = ground arith

  consume_integer_option-valid :
      (token : String) (n : ℕ) (o : RunOptions)
      → 1 ≤ n
      → IsReadable rt n
      → consume_integer_option rt token (some (rt.text_of_nat n)) o
        ≡ value_read (set_integer token n o)
  consume_integer_option-valid token n o h k =
      ap (λ x. read_integer token (rt.text_of_nat n) x o) (ap to_count k ∙ to_count-of_nat n)
      ∙ read_integer-some token (rt.text_of_nat n) n o h

  run-timeout :
      (x : Option ℕ) (rest : List String) (o : RunOptions)
      → IfGiven (λ n. 1 ≤ n) x
      → IfGiven (IsReadable rt) x
      → run (put_count rt "--timeout-ms" x rest) (record o { timeout_ms = none })
        ≡ run rest (record o { timeout_ms = x })
  unfolding consume_run_token
  run-timeout none rest o h k = refl
  run-timeout (some n) rest o h k =
      run-value "--timeout-ms" (rt.text_of_nat n) rest _ _ refl
        (consume_integer_option-valid "--timeout-ms" n (record o { timeout_ms = none }) h k)

  run-attempts :
      (x : Option ℕ) (rest : List String) (o : RunOptions)
      → IfGiven (λ n. 1 ≤ n) x
      → IfGiven (IsReadable rt) x
      → run (put_count rt "--max-attempts" x rest) (record o { max_attempts = none })
        ≡ run rest (record o { max_attempts = x })
  unfolding consume_run_token
  run-attempts none rest o h k = refl
  run-attempts (some n) rest o h k =
      run-value "--max-attempts" (rt.text_of_nat n) rest _ _ refl
        (consume_integer_option-valid "--max-attempts" n (record o { max_attempts = none }) h k)

  run-target :
      (command : Option String) (args : List String) (o : RunOptions)
      → run (target_tokens command args) o ≡ ok (o, target_tokens command args)
  unfolding consume_tokens
  run-target none args o = refl
  run-target (some command) args o = refl

finish_run-target :
    (url command : Option String) (args : List String) (o : RunOptions)
    → o.http_url ≡ url
    → HasTarget url command args
    → finish_run (o, target_tokens command args)
      ≡ ok (record { options = o; command = command; args = args })
finish_run-target (some url) none args o e h = ground arith
finish_run-target (some url) (some command) args o e h = absurd h
finish_run-target none none args o e h = absurd h
finish_run-target none (some command) args o e h = ground arith

-- A command line written from an invocation is parsed as that invocation: every option that is given
-- has its value, whatever text it is, and the command with its arguments is the one that is run. The
-- invocation can be run, and its numbers are read back from their texts.
pub parse_run_invocation-command_line :
    (rt : Runtime) (url_protocol : String → Option String) (i : RunInvocation)
    → IsCallable url_protocol i
    → IfGiven (IsReadable rt) i.options.timeout_ms
    → IfGiven (IsReadable rt) i.options.max_attempts
    → parse_run_invocation rt url_protocol (command_line rt i) ≡ ok i
unfolding parse_run_invocation command_line
parse_run_invocation-command_line rt url_protocol i h kt ka =
    let o = i.options in
    let o1 : RunOptions = record no_options { config_path = o.config_path } in
    let o2 : RunOptions = record o1 { timeout_ms = o.timeout_ms } in
    let o3 : RunOptions = record o2 { max_attempts = o.max_attempts } in
    let o4 : RunOptions = record o3 { policy_dry_run = o.policy_dry_run } in
    let o5 : RunOptions = record o4 { http_url = o.http_url } in
    ap (λ r. r >>= finish_run)
      (run-config rt url_protocol o.config_path _ no_options
        ∙ run-timeout rt url_protocol o.timeout_ms _ o1 h.in_range.timeout kt
        ∙ run-attempts rt url_protocol o.max_attempts _ o2 h.in_range.attempts ka
        ∙ run-dry rt url_protocol o.policy_dry_run _ o3 h.in_range.dry_run
        ∙ run-http rt url_protocol o.http_url _ o4 h.in_range.url
        ∙ run-identity rt url_protocol o.identity _ o5
        ∙ run-target rt url_protocol i.command i.args o)
    ∙ finish_run-target o.http_url i.command i.args o refl h.target
