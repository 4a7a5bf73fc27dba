-- ===== src/Cli/Sessions.antt =====
-- What a command line may start.
use mcprelay.Base.{ℕ, suc, ◌≡◌, refl, ap, ◌⊎◌, inl, inr, String, List, [], ◌∷◌, ◌++◌}
use mcprelay.Base.Result.{Result, err, ok}
use mcprelay.Policy.Compile.Safe.{Result-cases}
use mcprelay.Config.{RelayConfig}
use mcprelay.Config.Load.{Surroundings, load_config}
use mcprelay.Config.Valid.Loaded.{IsValid, load_config-IsValid}
use mcprelay.Proxy.Run.{
  Process, Bridge, Side, exit_of_side, exit_usage, finish_session, exit_upstream, target_of,
  load_options, with_identity, run_proxy, run_session, report_warnings,
}
use mcprelay.Cli.Run.{RunInvocation, parse_run_invocation}
use mcprelay.Cli.Run.Accepted.{IsCallable, parse_run_invocation-IsCallable}
use mcprelay.Cli.{invocation_of, options_of, run_with}

-- Nothing was started, and the exit code is that of a usage error.
abbrev IsRefused : Process → ℕ × Process → Type 0
IsRefused p (exit, q) = (exit ≡ exit_usage) × (q.started ≡ p.started) × (q.closed ≡ p.closed)

-- How the session ends, by what the bridge did.
abbrev Ends : Result String Side → Process → ℕ × Process → Type 0
Ends (err message) p (exit, q) = (exit ≡ exit_upstream) × (q.closed ≡ p.closed)
Ends (ok side) p (exit, q) = (exit ≡ exit_of_side side) × (q.closed ≡ suc p.closed)

-- One upstream was started, that of the invocation, with the configuration under the identity.
pub record IsSession (env : Surroundings) (bridge : Bridge) (p : Process) (i : RunInvocation)
    (loaded : RelayConfig) (r : ℕ × Process) : Type 0 where
  pub callable : IsCallable env.url_protocol i
  pub valid : IsValid env loaded
  pub started :
      let config = with_identity (options_of i).identity loaded in
      r.1.started ≡ p.started ++ (target_of (invocation_of i) config, config) ∷ []
  pub ends :
      let config = with_identity (options_of i).identity loaded in
      Ends (bridge (target_of (invocation_of i) config) config) p r

finish_session-Ends :
    (r : Result String Side) (p q : Process) → q.closed ≡ p.closed → Ends r p (finish_session r q)
finish_session-Ends (err message) p q h = (refl, h)
finish_session-Ends (ok side) p q h = (refl, ap suc h)

finish_session-started :
    (r : Result String Side) (q : Process) → (finish_session r q).1.started ≡ q.started
finish_session-started (err message) q = refl
finish_session-started (ok side) q = refl

module _ (env : Surroundings) (bridge : Bridge) (i : RunInvocation) (p : Process) where
  IsRefused-config :
      (message : String)
      → load_config env (load_options (options_of i)) ≡ err message
      → IsRefused p (run_proxy env bridge (invocation_of i) (options_of i) p)
  unfolding run_proxy
  IsRefused-config message h = rw (h, run_proxy) (refl, refl, refl)

  session :
      (loaded : RelayConfig)
      → IsCallable env.url_protocol i
      → load_config env (load_options (options_of i)) ≡ ok loaded
      → IsSession env bridge p i loaded (run_proxy env bridge (invocation_of i) (options_of i) p)
  unfolding run_proxy run_session report_warnings
  session loaded callable h =
      let config = with_identity (options_of i).identity loaded in
      let target = target_of (invocation_of i) config in
      rw (h, run_proxy)
        (record {
          callable = callable;
          valid =
              (load_config-IsValid env (load_options (options_of i))
                (record {
                  timeout = callable.in_range.timeout;
                  attempts = callable.in_range.attempts;
                })
                loaded h).0;
          started = finish_session-started (bridge target config) _;
          ends = finish_session-Ends (bridge target config) p _ refl;
        })

  proxy-cases :
      IsCallable env.url_protocol i
      → IsRefused p (run_proxy env bridge (invocation_of i) (options_of i) p)
        ⊎ ((loaded : RelayConfig) × (load_config env (load_options (options_of i)) ≡ ok loaded)
            × IsSession env bridge p i loaded
                (run_proxy env bridge (invocation_of i) (options_of i) p))
  proxy-cases callable = elim (Result-cases (load_config env (load_options (options_of i)))) [
    | inl (message, h) ↦ inl (IsRefused-config message h)
    | inr (loaded, h) ↦ inr (loaded, h, session loaded callable h)
  ]

-- What a command line did: nothing, or one session.
abbrev pub Started : Surroundings → Bridge → List String → Process → ℕ × Process → Type 0
Started env bridge tokens p r =
    IsRefused p r
    ⊎ ((i : RunInvocation) × (parse_run_invocation env.runtime env.url_protocol tokens ≡ ok i)
        × (loaded : RelayConfig) × (load_config env (load_options (options_of i)) ≡ ok loaded)
        × IsSession env bridge p i loaded r)

-- A command line of `run` either starts nothing, and exits with 2, or it is parsed and its
-- configuration is loaded, and then exactly one upstream is started: the one that it names, with that
-- configuration, which is valid, under its identity. The exit code is 3 where the upstream does not
-- start or closes first, and 0 where the client does; a bridge that was started is closed once.
pub run_with-IsSession :
    (env : Surroundings) (bridge : Bridge) (tokens : List String) (p : Process)
    → Started env bridge tokens p (run_with env bridge tokens p)
unfolding run_with
run_with-IsSession env bridge tokens p =
    elim (Result-cases (parse_run_invocation env.runtime env.url_protocol tokens)) [
      | inl (message, h) ↦ inl (rw (h, run_with) (refl, refl, refl))
      | inr (i, h) ↦
          rw (h, run_with)
            (elim (proxy-cases env bridge i p
              (parse_run_invocation-IsCallable env.runtime env.url_protocol tokens i h)) [
                | inl refused ↦ inl refused
                | inr (loaded, k, s) ↦ inr (i, refl, loaded, k, s)
              ])
    ]
