-- ===== src/Cli/Run/Accepted.antt =====
-- What the parser of `run` accepts.
use mcprelay.Base.{
  ◌≤◌, ◌≡◌, refl, String, true, false, Option, none, some, List, [], ◌∷◌, arith, is_some,
}
use mcprelay.Base.Result.{ok}
use mcprelay.Base.Ensures.{Ensures, threw, gave, of_ok, Ensures-bind, Ensures-if}
use mcprelay.Runtime.{Runtime}
use mcprelay.Config.Readers.Ensured.{IfGiven}
use mcprelay.Tokens.Laws.{Keeps, consume_tokens-Ensures}
use mcprelay.Cli.Run.{
  RunOptions, RunInvocation, no_options, consume_run_token, is_end_mark, finish_run,
  finish_with_http, finish_with_stdio, parse_run_invocation,
}

-- The options are in range.
pub record IsInRange (url_protocol : String → Option String) (o : RunOptions) : Type 0 where
  pub timeout : IfGiven (λ n. 1 ≤ n) o.timeout_ms
  pub attempts : IfGiven (λ n. 1 ≤ n) o.max_attempts
  pub dry_run : IfGiven (λ b. b ≡ true) o.policy_dry_run
  pub url : IfGiven (λ url. is_some (url_protocol url) ≡ true) o.http_url

-- One target: a URL, with no command, or a command.
abbrev pub HasTarget : Option String → Option String → List String → Type 0
HasTarget (some url) none args = args ≡ []
HasTarget none (some command) args = Unit
HasTarget _ _ args = ⊥

pub record IsCallable (url_protocol : String → Option String) (i : RunInvocation) : Type 0 where
  pub in_range : IsInRange url_protocol i.options
  pub target : HasTarget i.options.http_url i.command i.args

some_of_is_some : {A : Type 0} (o : Option A) → is_some o ≡ true → (a : A) × (o ≡ some a)
some_of_is_some none h = absurd cc
some_of_is_some (some a) h = (a, refl)

none_of_is_some : {A : Type 0} (o : Option A) → is_some o ≡ false → o ≡ none
none_of_is_some none h = refl
none_of_is_some (some a) h = absurd cc

module _ (rt : Runtime) (url_protocol : String → Option String) where
  consume-Keeps :
      (token : String) (next : Option String) (o : RunOptions)
      → IsInRange url_protocol o
      → Keeps (IsInRange url_protocol) (consume_run_token rt url_protocol token next o)
  unfolding consume_run_token
  consume-Keeps token none o h = ground arith
  consume-Keeps token (some value) o h = ground arith

  http-Ensures :
      (o : RunOptions) (rest : List String) (url : String)
      → IsInRange url_protocol o
      → o.http_url ≡ some url
      → Ensures (IsCallable url_protocol) (finish_with_http rest o)
  http-Ensures o [] url h e = gave _ (record { in_range = h; target = rw e refl })
  http-Ensures o (mark ∷ rest) url h e =
      Ensures-if (is_end_mark mark) (λ ends. threw _)
        (λ goes. gave _ (record { in_range = h; target = rw e refl }))

  stdio-Ensures :
      (o : RunOptions) (rest : List String)
      → IsInRange url_protocol o
      → o.http_url ≡ none
      → Ensures (IsCallable url_protocol) (finish_with_stdio rest o)
  stdio-Ensures o (mark ∷ command ∷ args) h e =
      Ensures-if (is_end_mark mark) (λ ends. gave _ (record { in_range = h; target = rw e tt }))
        (λ goes. threw _)
  stdio-Ensures o (mark ∷ []) h e = threw _
  stdio-Ensures o [] h e = threw _

  finish-Ensures :
      (o : RunOptions) (rest : List String)
      → IsInRange url_protocol o
      → Ensures (IsCallable url_protocol) (finish_run (o, rest))
  finish-Ensures o rest h =
      Ensures-if (is_some o.http_url)
        (λ given. let (url, e) = some_of_is_some o.http_url given in http-Ensures o rest url h e)
        (λ missing. stdio-Ensures o rest h (none_of_is_some o.http_url missing))

-- What is accepted can be run: a count that is given is at least one, a URL that is given is one,
-- and there is a URL or else a command (which the caller takes without a test), never both.
pub parse_run_invocation-IsCallable :
    (rt : Runtime) (url_protocol : String → Option String) (tokens : List String)
    (i : RunInvocation)
    → parse_run_invocation rt url_protocol tokens ≡ ok i
    → IsCallable url_protocol i
unfolding parse_run_invocation
parse_run_invocation-IsCallable rt url_protocol tokens i h =
    of_ok {P = IsCallable url_protocol}
      (Ensures-bind
        (consume_tokens-Ensures (IsInRange url_protocol) (consume_run_token rt url_protocol)
          is_end_mark (consume-Keeps rt url_protocol) tokens no_options
          (record { timeout = tt; attempts = tt; dry_run = tt; url = tt }))
        (λ (o, rest) k. finish-Ensures rt url_protocol o rest k.0))
      h
